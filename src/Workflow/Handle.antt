-- ===== src/Workflow/Handle.antt =====
-- engine.py: `_start`, `_resume_start`, `handle` and `outcome` of WorkflowEngine
pub mod Replies
pub mod Again
pub mod Ended
use aieos.Base.{
  String, Bool, true, false, not, ◌||◌, ◌&&◌, Option, some, none, List, [], ◌∷◌, ◌==◌, string_eq,
  any, Result, ok, err, Exception, value_error, key_error, if◌then◌else◌, empty_mapping,
}
use aieos.Base.Dict.{get}
use aieos.Base.Exec.{Exec, pure, raise, gets, lift, modify, or_raise, ◌>>=◌, ◌>>◌}
use aieos.Contracts.Commands.{CommandEnvelope, command_eq}
use aieos.Contracts.Results.{ResultEnvelope, ErrorEnvelope, rejected}
use aieos.Domain.{Services, Supply}
use aieos.EventBus.{Consumers}
use aieos.Outcomes.{unsuccessful}
use aieos.Security.{ScopeAuthorizer}
use aieos.Workflow.Instance.{
  WorkflowState, CommandProcessingState, in_progress, processed, WorkflowInstance,
  WorkflowCommandReceipt, Engine,
}
use aieos.Workflow.Repository.{receipt_for_command, complete_command}
use aieos.Workflow.Cancel.{draw, reject, cancel, of_command}
use aieos.Workflow.Payload.{Library}
use aieos.Workflow.Attempt.{create_attempt_command}
use aieos.Workflow.System.{Platform, System, engine_of, on_engine, publish_workflow_event}
use aieos.Workflow.Live.{
  change_instance, change_receipt, live, admission_code, attempt, dispatch_in_context,
}
use aieos.Workflow.Start.{
  Admitted, refused, start_with, admitted, begin_start, not_admitted, command_lineage,
}

abbrev outcome_of : Option WorkflowInstance → Option ResultEnvelope
outcome_of none = none
outcome_of (some i) = i.outcome

unfoldable pub outcome : String → Engine → Option ResultEnvelope
outcome workflow_id s = outcome_of (get workflow_id s.instances)

abbrev is_known : CommandEnvelope → Bool
is_known c = any (λ v. v == c.command_version) ("1" ∷ "1.0" ∷ "2" ∷ "2.0" ∷ [])

module _ (lib : Library) (sv : Services) (a : ScopeAuthorizer) where
  abbrev unknown_version : CommandEnvelope → Exec Engine ResultEnvelope
  unknown_version c =
      reject sv a c "WORKFLOW_COMMAND_VERSION_UNSUPPORTED"
        "unknown Workflow command version cannot use compatibility fallback"

  abbrev unsupported : CommandEnvelope → Exec Engine ResultEnvelope
  unsupported c = reject sv a c "WORKFLOW_COMMAND_INVALID" "unsupported Workflow Command"

  -- the outcome of a start whose first attempt is not admitted
  abbrev start_failure :
      WorkflowInstance → String → String → Exec Supply (ResultEnvelope × ErrorEnvelope)
  start_failure i command_id code =
      unsuccessful sv rejected
        (command_lineage i.workflow_id i.tenant_id i.workspace_id i.correlation_id command_id)
        (not_admitted code)
        (record {
          command_id = some command_id;
          event_id = none;
          value_reference = none;
          metadata = empty_mapping;
          predecessor_result_id = none;
        })

  abbrev failed_start : ResultEnvelope × ErrorEnvelope → WorkflowInstance → WorkflowInstance
  failed_start (result, error) i = record i {
    state = WorkflowState.failed;
    outcome = some result;
    error = some error;
  }

  abbrev failed_receipt :
      ResultEnvelope × ErrorEnvelope → WorkflowCommandReceipt → WorkflowCommandReceipt
  failed_receipt (result, error) r = record r { result = result; error = some error }

  -- the instance and the receipt take the outcome
  abbrev conclude_start :
      WorkflowInstance → String → ResultEnvelope × ErrorEnvelope → Exec Engine ResultEnvelope
  conclude_start i command_id x = do
    modify (λ s.
        change_receipt (failed_receipt x) command_id
          (change_instance (failed_start x) i.workflow_id s))
    complete_command command_id

  -- the workflow ends with its command
  end_start : WorkflowInstance → String → String → Exec Engine ResultEnvelope
  end_start i command_id code =
      draw (start_failure i command_id code) >>= conclude_start i command_id

  module _ {W : Type 0} (t : Consumers (Platform W))
      (dispatch : CommandEnvelope → Exec (System W) ResultEnvelope) where
    dispatch_initial : String → CommandEnvelope → Exec (System W) ResultEnvelope
    dispatch_initial command_id c = do
      dispatch_in_context dispatch c
      on_engine (complete_command command_id)

    not_started :
        WorkflowInstance → String → Exception → Option String → Exec (System W) ResultEnvelope
    unfolding end_start
    not_started i command_id x none = raise x
    not_started i command_id x (some code) = on_engine (end_start i command_id code)

    abbrev with_attempt : CommandEnvelope → WorkflowInstance → WorkflowInstance
    with_attempt c j = record j { initial_attempt_command = some c }

    initial_created :
        WorkflowInstance → String → Result CommandEnvelope → Exec (System W) ResultEnvelope
    unfolding not_started dispatch_initial
    initial_created i command_id (err x) = not_started i command_id x (admission_code x)
    initial_created i command_id (ok c) = do
      on_engine (modify (change_instance (with_attempt c) i.workflow_id))
      dispatch_initial command_id c

    -- the first attempt, which is made once
    initial_attempt :
        WorkflowInstance → String → Option CommandEnvelope → Exec (System W) ResultEnvelope
    unfolding initial_created dispatch_initial
    initial_attempt i command_id (some c) = dispatch_initial command_id c
    initial_attempt i command_id none = do
      on_engine (attempt (create_attempt_command lib sv a i command_id))
          >>= initial_created i command_id

    -- the first attempt of the instance, as it is now
    abbrev attempt_of : String → WorkflowInstance → Exec (System W) ResultEnvelope
    attempt_of command_id j = initial_attempt j command_id j.initial_attempt_command

    resume_with : WorkflowInstance → String → Option ResultEnvelope → Exec (System W) ResultEnvelope
    unfolding initial_attempt
    resume_with i command_id (some _) = on_engine (complete_command command_id)
    resume_with i command_id none = do
      publish_workflow_event sv t i "WorkflowStarted" command_id
      on_engine (gets (live i)) >>= attempt_of command_id

    -- instances[receipt.workflow_id]
    resume_found : WorkflowCommandReceipt → Option WorkflowInstance → Exec (System W) ResultEnvelope
    unfolding resume_with
    resume_found r none = raise key_error
    resume_found r (some i) = resume_with i r.command.command_id i.outcome

    -- _resume_start
    unfoldable pub resume_start : WorkflowCommandReceipt → Exec (System W) ResultEnvelope
    unfolding resume_found
    resume_start r s = resume_found r (get r.workflow_id (engine_of s).instances) s

    start_admitted : CommandEnvelope → Admitted → Exec (System W) ResultEnvelope
    start_admitted c (refused code message) = on_engine (reject sv a c code message)
    start_admitted c (start_with d b) = on_engine (begin_start lib sv c d b) >>= resume_start

    -- _start
    unfoldable pub start : CommandEnvelope → Exec (System W) ResultEnvelope
    unfolding start_admitted
    start c = start_admitted c (admitted a c)

    by_type : CommandEnvelope → Exec (System W) ResultEnvelope
    unfolding start
    by_type c =
        if c.command_type == "StartWorkflow"
        then start c
        else if c.command_type == "CancelWorkflow"
        then on_engine (cancel sv a c)
        else on_engine (unsupported c)

    -- a command that no receipt answers
    unfoldable pub handle_new : CommandEnvelope → Exec (System W) ResultEnvelope
    unfolding by_type
    handle_new c =
        if not (c.target_component == "Workflow Engine")
        then raise (value_error "Command target does not match Workflow Engine")
        else if not (is_known c)
        then on_engine (unknown_version c)
        else by_type c

    received :
        CommandEnvelope
        → WorkflowCommandReceipt
        → CommandProcessingState
        → Exec (System W) ResultEnvelope
    received c r processed = pure r.result
    received c r in_progress =
        if c.command_type == "StartWorkflow" then resume_start r else handle_new c

    unfoldable pub handle_received :
        CommandEnvelope → Option WorkflowCommandReceipt → Exec (System W) ResultEnvelope
    unfolding received
    handle_received c none = handle_new c
    handle_received c (some r) =
        if not (r.command == c)
        then raise (value_error "CommandId cannot be reused with changed immutable content")
        else received c r r.state

    unfoldable pub handle : CommandEnvelope → Exec (System W) ResultEnvelope
    handle c s = handle_received c (receipt_for_command c.command_id (engine_of s)) s
