-- ===== src/Workflow/Cancel.antt =====
-- engine.py: `_reject` and `_cancel` of WorkflowEngine
pub mod Laws
pub mod Again
pub mod Ended
pub mod Answers
use aieos.Base.{
  String, Bool, true, false, not, ◌||◌, Option, some, none, ◌==◌, string_eq, Exception, Result, ok,
  err, runtime_error, if◌then◌else◌, empty_mapping,
}
use aieos.Base.Dict.{get}
use aieos.Base.Exec.{Exec, pure, raise, modify, ◌>>=◌, ◌>>◌}
use aieos.Contracts.Commands.{CommandEnvelope}
use aieos.Contracts.Results.{
  ResultEnvelope, ErrorEnvelope, ResultStatus, ErrorCategory, ErrorSeverity, rejected, validation,
  cancellation, warning, informational, never_retry,
}
use aieos.Domain.{Services, Supply}
use aieos.Outcomes.{Lineage, Fault, Extras, unsuccessful}
use aieos.Security.{ScopeAuthorizer, require}
use aieos.Workflow.Instance.{
  WorkflowState, created, running, completed, failed, cancelled, WorkflowInstance, Engine,
}
use aieos.Workflow.Repository.{put_instance, remember_completed_command}

-- `text or default`
abbrev pub or_text : Option String → String → String
or_text none d = d
or_text (some s) d = if s == "" then d else s

abbrev pub of_command : CommandEnvelope → Extras
of_command c = record {
  command_id = some c.command_id;
  event_id = none;
  value_reference = none;
  metadata = empty_mapping;
  predecessor_result_id = none;
}

abbrev pub draw {ℓ} : {A : Type ℓ} → Exec Supply A → Exec Engine A
draw m s = let (r, u) = m s.supply in (r, record s { supply = u })

abbrev pub is_refused : Result (Unit {0}) → Bool
is_refused (ok _) = false
is_refused (err _) = true

abbrev out_of_scope : CommandEnvelope → WorkflowInstance → Bool
out_of_scope c i = not (i.tenant_id == c.tenant_id) || not (i.workspace_id == c.workspace_id)

-- the receipt of a rejection
abbrev answer : CommandEnvelope → ResultEnvelope × ErrorEnvelope → Exec Engine ResultEnvelope
answer c (result, error) = do
  remember_completed_command c result (or_text c.workflow_id c.command_id) (some error)
  pure result

-- the outcome of a cancellation and its receipt
abbrev conclude :
    CommandEnvelope → WorkflowInstance → ResultEnvelope × ErrorEnvelope → Exec Engine ResultEnvelope
conclude c i (result, error) = do
  modify (put_instance (record i { state = cancelled; outcome = some result; error = some error }))
  remember_completed_command c result i.workflow_id (some error)
  pure result

module _ (sv : Services) (a : ScopeAuthorizer) where
  abbrev rejection :
      CommandEnvelope → String → String → Exec Supply (ResultEnvelope × ErrorEnvelope)
  rejection c code message =
      unsuccessful sv rejected
        (record {
          subject = or_text c.workflow_id c.command_id;
          producer = "Workflow Engine";
          tenant_id = c.tenant_id;
          workspace_id = c.workspace_id;
          correlation_id = c.correlation_id;
          causation_id = c.command_id;
        })
        (record {
          error_code = code;
          category = validation;
          severity = warning;
          retry = never_retry;
          message = message;
        })
        (of_command c)

  unfoldable pub reject : CommandEnvelope → String → String → Exec Engine ResultEnvelope
  reject c code message = draw (rejection c code message) >>= answer c

  -- the outcome of a cancellation
  abbrev cancellation_of :
      CommandEnvelope → WorkflowInstance → Exec Supply (ResultEnvelope × ErrorEnvelope)
  cancellation_of c i =
      unsuccessful sv ResultStatus.cancelled
        (record {
          subject = i.workflow_id;
          producer = "Workflow Engine";
          tenant_id = i.tenant_id;
          workspace_id = i.workspace_id;
          correlation_id = i.correlation_id;
          causation_id = c.command_id;
        })
        (record {
          error_code = "WORKFLOW_CANCELLED";
          category = cancellation;
          severity = informational;
          retry = never_retry;
          message = "Workflow cancellation became authoritative.";
        })
        (of_command c)

  -- The instance is cancelled before its outcome is built.
  cancel_live : CommandEnvelope → WorkflowInstance → Exec Engine ResultEnvelope
  cancel_live c i = do
    modify (put_instance (record i { state = cancelled }))
    result ← draw (cancellation_of c i)
    conclude c i result

  cancelled_before :
      CommandEnvelope → WorkflowInstance → Option ResultEnvelope → Exec Engine ResultEnvelope
  cancelled_before c i none =
      raise (runtime_error "cancelled Workflow is missing its terminal outcome")
  cancelled_before c i (some outcome) = do
    remember_completed_command c outcome i.workflow_id i.error
    pure outcome

  cancel_by_state : CommandEnvelope → WorkflowInstance → WorkflowState → Exec Engine ResultEnvelope
  unfolding cancel_live cancelled_before
  cancel_by_state c i cancelled = cancelled_before c i i.outcome
  cancel_by_state c i completed =
      reject c "WORKFLOW_ALREADY_TERMINAL" "terminal Workflow cannot be cancelled"
  cancel_by_state c i failed =
      reject c "WORKFLOW_ALREADY_TERMINAL" "terminal Workflow cannot be cancelled"
  cancel_by_state c i created = cancel_live c i
  cancel_by_state c i running = cancel_live c i

  cancel_found : CommandEnvelope → Option WorkflowInstance → Exec Engine ResultEnvelope
  unfolding cancel_by_state
  cancel_found c none s = reject c "WORKFLOW_NOT_FOUND" "Workflow does not exist" s
  cancel_found c (some i) s = elim (out_of_scope c i) [
    | true ↦ reject c "WORKFLOW_SCOPE_MISMATCH" "Workflow does not belong to the command scope" s
    | false ↦ cancel_by_state c i i.state s
  ]

  cancel_named : CommandEnvelope → Option String → Exec Engine ResultEnvelope
  unfolding cancel_found
  cancel_named c none s = reject c "WORKFLOW_ID_REQUIRED" "WorkflowId is required" s
  cancel_named c (some id) s =
      elim (is_refused
        (require a c.metadata.authorization "workflow.cancel" c.tenant_id c.workspace_id)) [
          | true ↦ reject c "WORKFLOW_CANCEL_UNAUTHORIZED" "Workflow cancellation denied" s
          | false ↦ cancel_found c (get id s.instances) s
        ]

  unfoldable pub cancel : CommandEnvelope → Exec Engine ResultEnvelope
  unfolding cancel_named
  cancel c = cancel_named c c.workflow_id
