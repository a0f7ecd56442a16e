-- ===== src/Contracts/Results.antt =====
-- packages/contracts/src/aieos/contracts/results.py
use native.Mathlib.Decide.{ℕ_discrete}
use aieos.Base.{
  ℕ, String, Bool, true, false, not, ◌&&◌, Option, some, none, List, [], ◌∷◌, is_some,
  String-discrete, Result, ok, value_error, raise_if, ◌>>◌, Timestamp, Timestamp-discrete, Fields,
  Fields-discrete, holds,
}
use aieos.Contracts.Common.{is_empty, any_empty}

pub data ResultStatus : Type 0 where
  accepted in_progress succeeded partially_succeeded rejected failed cancelled timed_out :
      ResultStatus

pub data OutcomeCategory : Type 0 where
  acknowledgement progress success partial_success rejection failure cancellation timeout :
      OutcomeCategory

OutcomeCategory-discrete : Discrete OutcomeCategory
OutcomeCategory-discrete = hlevel

ResultStatus-discrete : Discrete ResultStatus
ResultStatus-discrete = hlevel

-- STATUS_CATEGORY
abbrev pub status_category : ResultStatus → OutcomeCategory
status_category accepted = acknowledgement
status_category in_progress = progress
status_category succeeded = success
status_category partially_succeeded = partial_success
status_category rejected = rejection
status_category failed = failure
status_category cancelled = cancellation
status_category timed_out = timeout

pub data ErrorCategory : Type 0 where
  validation authentication authorization not_found conflict concurrency rate_limit quota :
      ErrorCategory
  dependency_unavailable dependency_failure timeout cancellation policy_violation : ErrorCategory
  unsupported_capability capability_compatibility memory_read memory_write : ErrorCategory
  ai_provider_unavailable ai_provider_rejected ai_content_policy ai_invalid_response : ErrorCategory
  workflow_state execution_failure internal_invariant unknown : ErrorCategory

pub data ErrorSeverity : Type 0 where
  informational warning error critical : ErrorSeverity

pub data RetryClassification : Type 0 where
  never_retry retryable retryable_after_delay retryable_after_condition : RetryClassification
  requires_policy_evaluation : RetryClassification

pub record ErrorEnvelope : Type 0 where
  pub error_id : String
  pub error_code : String
  pub error_category : ErrorCategory
  pub error_severity : ErrorSeverity
  pub retry_classification : RetryClassification
  pub message : String
  pub originating_component : String
  pub affected_subject : String
  pub tenant_id : String
  pub workspace_id : String
  pub correlation_id : String
  pub causation_id : String
  pub occurred_at : Timestamp
  pub contract_version : String
  pub diagnostic_reference : Option String
  pub external_error_reference : Option String
  pub parent_error_id : Option String
  pub root_error_id : Option String
  pub metadata : Fields

pub record ResultEnvelope : Type 0 where
  pub result_id : String
  pub result_status : ResultStatus
  pub outcome_category : OutcomeCategory
  pub subject_reference : String
  pub tenant_id : String
  pub workspace_id : String
  pub correlation_id : String
  pub causation_id : String
  pub producer_component : String
  pub contract_version : String
  pub command_id : Option String
  pub event_id : Option String
  pub started_at : Option Timestamp
  pub completed_at : Option Timestamp
  pub value_reference : Option String
  pub error_id : Option String
  pub warnings : List String
  pub metadata : Fields
  pub predecessor_result_id : Option String
  pub parent_result_id : Option String
  pub child_result_references : List String
  pub disposition_counts : List (String × ℕ)

pub ErrorEnvelope-discrete : Discrete ErrorEnvelope
ErrorEnvelope-discrete = hlevel (String-discrete, Fields-discrete, Timestamp-discrete)

pub ResultEnvelope-discrete : Discrete ResultEnvelope
ResultEnvelope-discrete = hlevel (String-discrete, Fields-discrete, Timestamp-discrete, ℕ_discrete)

-- ErrorEnvelope.__post_init__
unfoldable pub checked_error : ErrorEnvelope → Result ErrorEnvelope
checked_error e = do
  raise_if
      (any_empty (
        e.error_id ∷ e.error_code ∷ e.message ∷ e.originating_component ∷ e.affected_subject
        ∷ e.tenant_id ∷ e.workspace_id ∷ e.correlation_id ∷ e.causation_id ∷ []))
      (value_error "required Error fields must be non-empty")
  raise_if (not e.occurred_at.aware) (value_error "Error occurred_at must be timezone-aware")
  ok e

-- the statuses of a terminal Result that did not succeed
abbrev pub is_unsuccessful : ResultStatus → Bool
is_unsuccessful rejected = true
is_unsuccessful failed = true
is_unsuccessful cancelled = true
is_unsuccessful timed_out = true
is_unsuccessful _ = false

abbrev pub is_terminal : ResultStatus → Bool
is_terminal accepted = false
is_terminal in_progress = false
is_terminal _ = true

-- `not text` of an optional text
abbrev pub lacks : Option String → Bool
lacks none = true
lacks (some s) = is_empty s

abbrev naive : Option Timestamp → Bool
naive none = false
naive (some t) = not t.aware

-- ResultEnvelope.__post_init__
unfoldable pub checked_result : ResultEnvelope → Result ResultEnvelope
unfolding OutcomeCategory-discrete
checked_result r = do
  raise_if
      (not (holds (OutcomeCategory-discrete (status_category r.result_status) r.outcome_category)))
      (value_error "ResultStatus and OutcomeCategory are inconsistent")
  raise_if (is_unsuccessful r.result_status && lacks r.error_id)
      (value_error "unsuccessful terminal Results require ErrorId")
  raise_if (is_terminal r.result_status && not (is_some r.completed_at))
      (value_error "terminal Results require CompletedAt")
  raise_if (naive r.completed_at) (value_error "Result completed_at must be timezone-aware")
  ok r
