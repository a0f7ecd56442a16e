-- ===== src/Outcomes.antt =====
-- packages/result_error_support/src/aieos/result_error_support/factory.py: OutcomeFactory
pub mod Laws
use aieos.Base.{
  String, Bool, true, false, not, Option, some, none, [], ◌&&◌, Timestamp, Fields, empty_mapping,
  value_error, if◌then◌else◌,
}
use aieos.Base.Exec.{Exec, pure, lift, guard_not, ◌>>=◌, ◌>>◌}
use aieos.Domain.{Services, Supply, new, now}
use aieos.Contracts.Results.{
  ResultStatus, accepted, succeeded, rejected, failed, cancelled, timed_out, OutcomeCategory,
  acknowledgement, success, status_category, ErrorCategory, ErrorSeverity, RetryClassification,
  ErrorEnvelope, ResultEnvelope, checked_error, checked_result, is_unsuccessful,
}

-- the arguments that every constructor takes
pub record Lineage : Type 0 where
  pub subject : String
  pub producer : String
  pub tenant_id : String
  pub workspace_id : String
  pub correlation_id : String
  pub causation_id : String

-- the fields that no constructor of the factory sets, at their defaults
abbrev blank_result : String → ResultStatus → OutcomeCategory → Lineage → ResultEnvelope
blank_result id status category l = record {
  result_id = id;
  result_status = status;
  outcome_category = category;
  subject_reference = l.subject;
  tenant_id = l.tenant_id;
  workspace_id = l.workspace_id;
  correlation_id = l.correlation_id;
  causation_id = l.causation_id;
  producer_component = l.producer;
  contract_version = "1.0";
  command_id = none;
  event_id = none;
  started_at = none;
  completed_at = none;
  value_reference = none;
  error_id = none;
  warnings = [];
  metadata = empty_mapping;
  predecessor_result_id = none;
  parent_result_id = none;
  child_result_references = [];
  disposition_counts = [];
}

-- what `succeeded` and `unsuccessful` also take
pub record Extras : Type 0 where
  pub command_id : Option String
  pub event_id : Option String
  pub value_reference : Option String
  pub metadata : Fields
  pub predecessor_result_id : Option String

pub record Fault : Type 0 where
  pub error_code : String
  pub category : ErrorCategory
  pub severity : ErrorSeverity
  pub retry : RetryClassification
  pub message : String

is_rejected : ResultStatus → Bool
is_rejected rejected = true
is_rejected _ = false

module _ (sv : Services) where
  unfoldable pub accept : Lineage → String → Option String → Exec Supply ResultEnvelope
  accept l command_id value_reference = do
    id ← new sv "result"
    lift (
        checked_result (record (blank_result id accepted acknowledgement l) {
          command_id = some command_id;
          value_reference = value_reference;
        }))

  unfoldable pub succeed : Lineage → Extras → Exec Supply ResultEnvelope
  succeed l x = do
    t ← now sv
    id ← new sv "result"
    lift (
        checked_result (record (blank_result id succeeded success l) {
          command_id = x.command_id;
          event_id = x.event_id;
          started_at = some t;
          completed_at = some t;
          value_reference = x.value_reference;
          metadata = x.metadata;
          predecessor_result_id = x.predecessor_result_id;
        }))

  error_of : String → Timestamp → Lineage → Fault → ErrorEnvelope
  error_of id t l f = record {
    error_id = id;
    error_code = f.error_code;
    error_category = f.category;
    error_severity = f.severity;
    retry_classification = f.retry;
    message = f.message;
    originating_component = l.producer;
    affected_subject = l.subject;
    tenant_id = l.tenant_id;
    workspace_id = l.workspace_id;
    correlation_id = l.correlation_id;
    causation_id = l.causation_id;
    occurred_at = t;
    contract_version = "1.0";
    diagnostic_reference = none;
    external_error_reference = none;
    parent_error_id = none;
    root_error_id = none;
    metadata = empty_mapping;
  }

  -- `category_by_status` agrees with STATUS_CATEGORY on the four statuses that pass the guard.
  unfoldable pub unsuccessful :
      ResultStatus → Lineage → Fault → Extras → Exec Supply (ResultEnvelope × ErrorEnvelope)
  unfolding error_of is_rejected
  unsuccessful status l f x = do
    guard_not (not (is_unsuccessful status))
        (value_error "unsuccessful factory requires unsuccessful terminal status")
    t ← now sv
    error_id ← new sv "error"
    error ← lift (checked_error (error_of error_id t l f))
    id ← new sv "result"
    result ← lift (
        checked_result (record (blank_result id status (status_category status) l) {
          command_id = x.command_id;
          event_id = x.event_id;
          started_at = if is_rejected status then none else some t;
          completed_at = some t;
          error_id = some error.error_id;
          metadata = x.metadata;
          predecessor_result_id = x.predecessor_result_id;
        }))
    pure (result, error)
