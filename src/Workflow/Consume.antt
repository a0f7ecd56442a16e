-- ===== src/Workflow/Consume.antt =====
-- engine.py: `consume` of WorkflowEngine, and how it finds the workflow of an event
pub mod Ended
use aieos.Base.{
  String, Bool, true, false, not, ◌||◌, ◌&&◌, Option, some, none, List, [], ◌∷◌, ◌==◌, string_eq,
  any, keep, map, Result, ok, err, Exception, value_error, key_error, permission_error,
  if◌then◌else◌, Value, bool, Timestamp,
}
use aieos.Base.Dict.{Dict, get, put, values}
use aieos.Base.Exec.{Exec, pure, raise, gets, lift, modify, or_raise, ◌>>=◌, ◌>>◌}
use aieos.Contracts.Commands.{CommandEnvelope}
use aieos.Contracts.Events.{EventEnvelope}
use aieos.Contracts.Results.{ResultEnvelope}
use aieos.Domain.{Services, new, now}
use aieos.Domain.Evidence.{DecisionEvidence, record_decision}
use aieos.EventBus.{Consumers}
use aieos.Security.{ScopeAuthorizer}
use aieos.Workflow.Governance.{lookup}
use aieos.Workflow.Instance.{
  WorkflowState, created, running, completed, failed, cancelled, WorkflowInstance, Engine,
}
use aieos.Workflow.Repository.{retry_allowed, differs_from}
use aieos.Workflow.Cancel.{draw}
use aieos.Workflow.Payload.{Library, as_text}
use aieos.Workflow.Attempt.{create_attempt_command}
use aieos.Workflow.System.{Platform, System, engine_of, on_engine}
use aieos.Workflow.Ending.{fail, reject_pre_acceptance_attempt, reject_retry_admission}
use aieos.Workflow.Complete.{complete}
use aieos.Workflow.Live.{
  change_instance, live, mark_processed, admission_code, attempt, dispatch_in_context,
}

abbrev pub is_final : WorkflowState → Bool
is_final completed = true
is_final failed = true
is_final cancelled = true
is_final created = false
is_final running = false

is_true : Option Value → Bool
is_true (some (bool true)) = true
is_true _ = false

-- event.payload.get("pre_acceptance_rejection") is True
unfoldable pub is_pre_acceptance : EventEnvelope → Bool
unfolding is_true
is_pre_acceptance e = is_true (lookup "pre_acceptance_rejection" e.payload)

is_command : String → Option CommandEnvelope → Bool
is_command id none = false
is_command id (some c) = c.command_id == id

-- _owns_attempt_command
unfoldable pub owns_attempt_command : WorkflowInstance → Option String → Bool
unfolding is_command
owns_attempt_command i none = false
owns_attempt_command i (some id) =
    is_command id i.initial_attempt_command
    || any (λ c. c.command_id == id) (values i.retry_commands)

only_one : List WorkflowInstance → Option String
only_one (i ∷ []) = some i.workflow_id
only_one _ = none

unfoldable pub pre_acceptance_rejection_workflow_id : EventEnvelope → Engine → Option String
unfolding only_one
pre_acceptance_rejection_workflow_id e s =
    if not (is_pre_acceptance e)
    then none
    else only_one (keep (λ i. owns_attempt_command i e.causation_id) (values s.instances))

unfoldable pub is_attempt_event : String → Bool
is_attempt_event event_type =
    event_type == "ExecutionAttemptSucceeded"
    || event_type == "ExecutionAttemptFailed"
    || event_type == "ExecutionAttemptTimedOut"

retry_text : Library → Option Value → String
retry_text lib none = "NeverRetry"
retry_text lib (some v) = as_text lib (some v)

abbrev is_processed : EventEnvelope → WorkflowInstance → Bool
is_processed e i = any (λ id. id == e.event_id) i.processed_event_ids

abbrev is_foreign : EventEnvelope → WorkflowInstance → Bool
is_foreign e i = differs_from i.tenant_id e.tenant_id || differs_from i.workspace_id e.workspace_id

abbrev cross_scope : Exception
cross_scope = permission_error "cross-scope Event delivery denied"

-- self._decisions.record
abbrev decide : DecisionEvidence → Exec Engine (Unit {0})
decide d s = let (r, ds) = record_decision d s.decisions in (r, record s { decisions = ds })

module _ (sv : Services) where
  abbrev retry_decision : WorkflowInstance → EventEnvelope → String → Timestamp → DecisionEvidence
  retry_decision i e decision_id t = record {
    decision_id = decision_id;
    decision_type = "RetryExecutionAttempt";
    component = "Workflow Engine";
    tenant_id = i.tenant_id;
    workspace_id = i.workspace_id;
    correlation_id = i.correlation_id;
    recorded_at = t;
    triggering_id = some e.event_id;
  }

  -- _record_retry_decision
  unfoldable pub record_retry_decision :
      WorkflowInstance → EventEnvelope → String → Exec Engine (Unit {0})
  record_retry_decision i e decision_id = do
    t ← draw (now sv)
    decide (retry_decision i e decision_id t)

  module _ (lib : Library) (a : ScopeAuthorizer) {W : Type 0} (t : Consumers (Platform W))
      (dispatch : CommandEnvelope → Exec (System W) ResultEnvelope) where
    -- the event is processed after that
    abbrev then_marked :
        Exec (System W) (Unit {0}) → WorkflowInstance → EventEnvelope → Exec (System W) (Unit {0})
    then_marked m i e = do m; on_engine (modify (mark_processed i.workflow_id e.event_id))

    -- the retry is dispatched, and its event is processed
    retry_with : WorkflowInstance → EventEnvelope → CommandEnvelope → Exec (System W) (Unit {0})
    retry_with i e c = then_marked (dispatch_in_context dispatch c) i e

    abbrev end_retry :
        WorkflowInstance → EventEnvelope → String → WorkflowInstance → Exec (System W) (Unit {0})
    end_retry i e code j = then_marked (reject_retry_admission sv t j e code) i e

    not_retried :
        WorkflowInstance → EventEnvelope → Exception → Option String → Exec (System W) (Unit {0})
    not_retried i e x none = raise x
    not_retried i e x (some code) = on_engine (gets (live i)) >>= end_retry i e code

    abbrev with_retry : EventEnvelope → CommandEnvelope → WorkflowInstance → WorkflowInstance
    with_retry e c j = record j { retry_commands = put e.event_id c j.retry_commands }

    retry_created :
        WorkflowInstance
        → EventEnvelope
        → String
        → Result CommandEnvelope
        → Exec (System W) (Unit {0})
    unfolding retry_with not_retried
    retry_created i e decision_id (err x) = not_retried i e x (admission_code x)
    retry_created i e decision_id (ok c) = do
      on_engine (record_retry_decision i e decision_id)
      on_engine (modify (change_instance (with_retry e c) i.workflow_id))
      retry_with i e c

    abbrev decided_retry : WorkflowInstance → EventEnvelope → String → Exec (System W) (Unit {0})
    decided_retry i e decision_id =
        on_engine (attempt (create_attempt_command lib sv a i decision_id))
        >>= retry_created i e decision_id

    -- the retry of an event, which is made once
    retry : WorkflowInstance → EventEnvelope → Option CommandEnvelope → Exec (System W) (Unit {0})
    unfolding retry_created retry_with
    retry i e (some c) = retry_with i e c
    retry i e none = on_engine (draw (new sv "decision")) >>= decided_retry i e

    may_retry : WorkflowInstance → EventEnvelope → Option CommandEnvelope → Engine → Bool
    unfolding retry_text
    may_retry i e (some c) s = true
    may_retry i e none s =
        retry_allowed i (retry_text lib (lookup "retry_classification" e.payload)) s

    -- the event of an attempt that did not succeed
    consume_failure : WorkflowInstance → EventEnvelope → Exec (System W) (Unit {0})
    unfolding retry may_retry
    consume_failure i e s =
        (if may_retry i e (get e.event_id i.retry_commands) (engine_of s)
            then retry i e (get e.event_id i.retry_commands)
            else then_marked (fail sv t i e) i e)
          s

    -- the event of an attempt, on an instance that is not final
    unfoldable pub consume_live : WorkflowInstance → EventEnvelope → Exec (System W) (Unit {0})
    unfolding consume_failure
    consume_live i e =
        if e.event_type == "ExecutionAttemptSucceeded"
        then then_marked (complete sv lib t i e) i e
        else if is_pre_acceptance e
        then then_marked (reject_pre_acceptance_attempt sv t i e) i e
        else consume_failure i e

    unfoldable pub consume_instance : EventEnvelope → WorkflowInstance → Exec (System W) (Unit {0})
    consume_instance e i =
        if is_processed e i
        then pure tt
        else if is_foreign e i
        then raise cross_scope
        else if is_final i.state
        then on_engine (modify (mark_processed i.workflow_id e.event_id))
        else consume_live i e

    or_missing : EventEnvelope → Option WorkflowInstance → Exec (System W) (Unit {0})
    or_missing e none = raise key_error
    or_missing e (some i) = consume_instance e i

    -- instances[workflow_id]
    consume_recovered : EventEnvelope → Option String → Exec (System W) (Unit {0})
    unfolding or_missing
    consume_recovered e none s = (err key_error, s)
    consume_recovered e (some id) s = or_missing e (get id (engine_of s).instances) s

    consume_found : EventEnvelope → Option WorkflowInstance → Exec (System W) (Unit {0})
    unfolding consume_recovered
    consume_found e (some i) s = consume_instance e i s
    consume_found e none s =
        consume_recovered e (pre_acceptance_rejection_workflow_id e (engine_of s)) s

    consume_named : EventEnvelope → Option String → Exec (System W) (Unit {0})
    unfolding consume_found
    consume_named e none s = (err (value_error "attempt Event must reference WorkflowId"), s)
    consume_named e (some id) s = consume_found e (get id (engine_of s).instances) s

    unfoldable pub consume : EventEnvelope → Exec (System W) (Unit {0})
    unfolding consume_named
    consume e = if is_attempt_event e.event_type then consume_named e e.workflow_id else pure tt
