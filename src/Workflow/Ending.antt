-- ===== src/Workflow/Ending.antt =====
-- engine.py: `_fail`, `_reject_pre_acceptance_attempt` and `_reject_retry_admission`
pub mod Ended
use aieos.Base.{
  String, Bool, true, false, ◌&&◌, Option, some, none, List, ◌∷◌, ◌==◌, string_eq, if◌then◌else◌,
  Value, Fields, str, empty_mapping, map,
}
use aieos.Base.Dict.{Dict}
use aieos.Base.Exec.{Exec, pure, modify, ◌>>=◌, ◌>>◌}
use aieos.Contracts.Events.{EventEnvelope}
use aieos.Contracts.Results.{
  ResultEnvelope, ErrorEnvelope, ResultStatus, ErrorCategory, ErrorSeverity, rejected, failed,
  validation, workflow_state, authorization, warning, never_retry,
}
use aieos.Domain.{Services, Supply}
use aieos.EventBus.{Consumers}
use aieos.Outcomes.{Lineage, Fault, Extras, unsuccessful}
use aieos.Workflow.Instance.{
  WorkflowState, CommandProcessingState, in_progress, processed, WorkflowInstance,
  WorkflowCommandReceipt, Engine,
}
use aieos.Workflow.Governance.{lookup}
use aieos.Workflow.Repository.{put_instance}
use aieos.Workflow.Cancel.{draw}
use aieos.Workflow.System.{Platform, System, on_engine, publish_workflow_event, observe}

-- the lineage of an outcome that an event brings about
abbrev pub event_lineage : WorkflowInstance → EventEnvelope → Lineage
event_lineage i e = record {
  subject = i.workflow_id;
  producer = "Workflow Engine";
  tenant_id = i.tenant_id;
  workspace_id = i.workspace_id;
  correlation_id = i.correlation_id;
  causation_id = e.event_id;
}

abbrev pub of_event : EventEnvelope → Option String → Fields → Extras
of_event e value_reference metadata = record {
  command_id = none;
  event_id = some e.event_id;
  value_reference = value_reference;
  metadata = metadata;
  predecessor_result_id = none;
}

abbrev pub exhausted : Fault
exhausted = record {
  error_code = "WORKFLOW_ATTEMPTS_EXHAUSTED";
  category = workflow_state;
  severity = ErrorSeverity.error;
  retry = never_retry;
  message = "Workflow failed after permitted attempts were exhausted.";
}

error_code_of : Option Value → String
error_code_of (some (str code)) = if code == "" then "WORKFLOW_PRE_AI_REJECTED" else code
error_code_of _ = "WORKFLOW_PRE_AI_REJECTED"

unfoldable pub pre_acceptance : EventEnvelope → Fault
unfolding error_code_of
pre_acceptance e = record {
  error_code = error_code_of (lookup "error_code" e.payload);
  category = validation;
  severity = warning;
  retry = never_retry;
  message = "Workflow execution was rejected before AI acceptance.";
}

abbrev pub admission_category : String → ErrorCategory
admission_category code =
    if code == "WORKFLOW_AI_AUTHORIZATION_REVOKED" then authorization else validation

abbrev pub not_admitted : String → Fault
not_admitted code = record {
  error_code = code;
  category = admission_category code;
  severity = warning;
  retry = never_retry;
  message =
      if code == "WORKFLOW_AI_AUTHORIZATION_REVOKED"
      then "Workflow AI authorization is unavailable before retry admission."
      else "Workflow AI budget is exhausted before retry Gateway dispatch.";
}

abbrev pub concluded :
    WorkflowInstance → WorkflowState → ResultEnvelope → ErrorEnvelope → WorkflowInstance
concluded i state r e = record i { state = state; outcome = some r; error = some e }

-- the receipt of a workflow takes the workflow's outcome while it is in progress
settle_receipt :
    ResultEnvelope
    → ErrorEnvelope
    → CommandProcessingState
    → WorkflowCommandReceipt
    → WorkflowCommandReceipt
settle_receipt result error processed r = r
settle_receipt result error in_progress r = record r { result = result; error = some error }

-- the loop over the receipts
unfoldable pub settle_receipts : String → ResultEnvelope → ErrorEnvelope → Engine → Engine
unfolding settle_receipt
settle_receipts workflow_id result error s = record s {
  command_receipts =
      map
        (λ p. (
          p.0,
          if p.1.workflow_id == workflow_id then settle_receipt result error p.1.state p.1 else p.1,
        ))
        s.command_receipts;
}

module _ (sv : Services) where
  abbrev failure_of :
      WorkflowInstance
      → EventEnvelope
      → ResultStatus
      → Fault
      → Exec Supply (ResultEnvelope × ErrorEnvelope)
  failure_of i e status fault =
      unsuccessful sv status (event_lineage i e) fault (of_event e none empty_mapping)

  -- the outcome is written
  abbrev conclude_failed :
      WorkflowInstance
      → ResultEnvelope × ErrorEnvelope
      → Exec Engine (ResultEnvelope × ErrorEnvelope)
  conclude_failed i (result, error) = do
    modify (put_instance (concluded i WorkflowState.failed result error))
    pure (result, error)

  -- The instance is failed before its outcome is built.
  unfoldable pub end_failed :
      WorkflowInstance
      → EventEnvelope
      → ResultStatus
      → Fault
      → Exec Engine (ResultEnvelope × ErrorEnvelope)
  end_failed i e status fault = do
    modify (put_instance (record i { state = WorkflowState.failed }))
    draw (failure_of i e status fault) >>= conclude_failed i

  module _ {W : Type 0} (t : Consumers (Platform W)) where
    -- what follows the outcome
    unfoldable pub announce : WorkflowInstance → String → EventEnvelope → Exec (System W) (Unit {0})
    announce i event_type e = do publish_workflow_event sv t i event_type e.event_id; observe sv t

    -- the failed instance is announced
    abbrev announce_failed :
        WorkflowInstance
        → EventEnvelope
        → ResultEnvelope × ErrorEnvelope
        → Exec (System W) (Unit {0})
    announce_failed i e (result, error) =
        announce (concluded i WorkflowState.failed result error) "WorkflowFailed" e

    -- _fail
    unfoldable pub fail : WorkflowInstance → EventEnvelope → Exec (System W) (Unit {0})
    fail i e = on_engine (end_failed i e ResultStatus.failed exhausted) >>= announce_failed i e

    abbrev announce_settled :
        WorkflowInstance
        → EventEnvelope
        → ResultEnvelope × ErrorEnvelope
        → Exec (System W) (Unit {0})
    announce_settled i e (result, error) = do
      on_engine (modify (settle_receipts i.workflow_id result error))
      announce_failed i e (result, error)

    unfoldable pub reject_pre_acceptance_attempt :
        WorkflowInstance → EventEnvelope → Exec (System W) (Unit {0})
    reject_pre_acceptance_attempt i e =
        on_engine (end_failed i e rejected (pre_acceptance e)) >>= announce_settled i e

    unfoldable pub reject_retry_admission :
        WorkflowInstance → EventEnvelope → String → Exec (System W) (Unit {0})
    reject_retry_admission i e code =
        on_engine (end_failed i e rejected (not_admitted code)) >>= announce_failed i e
