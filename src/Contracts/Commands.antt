-- ===== src/Contracts/Commands.antt =====
-- packages/contracts/src/aieos/contracts/commands/models.py
use aieos.Base.{
  String, Bool, true, false, not, ◌||◌, Option, some, none, [], ◌∷◌, ◌==◌, is_some, string_eq,
  String-discrete, Result, ok, value_error, raise_if, ◌>>◌, Timestamp, Timestamp-discrete, Fields,
  Fields-discrete, end, field, ℤ, pos, negsuc, ℤ-discrete, Eq, eq_of_discrete, is_blank,
  is_result_id, if◌then◌else◌, ◌&&◌, zero, suc,
}
use aieos.Contracts.Common.{
  AuthorizationContext, AuthorizationContext-discrete, is_empty, any_empty,
}

pub record CommandMetadata : Type 0 where
  pub request_id : String
  pub idempotency_key : String
  pub authorization : AuthorizationContext
  pub attempt_number : Option ℤ
  pub expires_at : Option Timestamp
  pub trace_id : Option String
  pub span_id : Option String
  pub skill_version_id : Option String
  pub authoritative_result_id : Option String
  pub workflow_ai_budget_admission : Option Fields

pub record CommandEnvelope : Type 0 where
  pub command_id : String
  pub command_type : String
  pub command_version : String
  pub correlation_id : String
  pub causation_id : String
  pub target_component : String
  pub initiator : String
  pub timestamp : Timestamp
  pub tenant_id : String
  pub workspace_id : String
  pub payload : Fields
  pub metadata : CommandMetadata
  pub workflow_id : Option String
  pub workflow_step_id : Option String
  pub execution_id : Option String

CommandMetadata-discrete : Discrete CommandMetadata
CommandMetadata-discrete = hlevel (
  String-discrete, Fields-discrete, Timestamp-discrete, ℤ-discrete, AuthorizationContext-discrete,
)

pub CommandEnvelope-discrete : Discrete CommandEnvelope
CommandEnvelope-discrete =
    hlevel (String-discrete, Fields-discrete, Timestamp-discrete, CommandMetadata-discrete)

instance abbrev pub command_eq : Eq CommandEnvelope
command_eq = eq_of_discrete CommandEnvelope-discrete

unfoldable pub is_positive : ℤ → Bool
is_positive (pos zero) = false
is_positive (pos (suc n)) = true
is_positive (negsuc n) = false

bad_attempt : Option ℤ → Bool
unfolding is_positive
bad_attempt none = false
bad_attempt (some n) = not (is_positive n)

blank_result_id : Option String → Bool
blank_result_id none = false
blank_result_id (some id) = is_blank id

malformed_result_id : Option String → Bool
malformed_result_id none = false
malformed_result_id (some id) = not (is_result_id id)

-- CommandMetadata.__post_init__
unfoldable pub checked_metadata : CommandMetadata → Result CommandMetadata
unfolding bad_attempt blank_result_id malformed_result_id
checked_metadata m = do
  raise_if (is_empty m.request_id || is_empty m.idempotency_key)
      (value_error "request and idempotency identities are required")
  raise_if (bad_attempt m.attempt_number) (value_error "attempt number must be positive")
  raise_if (blank_result_id m.authoritative_result_id)
      (value_error "AuthoritativeResultId must be a non-empty opaque ResultId")
  raise_if (malformed_result_id m.authoritative_result_id)
      (value_error "AuthoritativeResultId must be a well-formed opaque ResultId")
  ok m

only_statement_keys : Fields → Bool
only_statement_keys end = true
only_statement_keys (field k v rest) = k == "statement" && only_statement_keys rest

-- set(payload) == {"statement"}
has_exactly_statement : Fields → Bool
unfolding only_statement_keys
has_exactly_statement end = false
has_exactly_statement (field k v rest) = only_statement_keys (field k v rest)

-- the check of DispatchExecutionAttempt, by version
checked_dispatch : CommandEnvelope → Result (Unit {0})
unfolding has_exactly_statement
checked_dispatch c =
    if c.command_version == "2" || c.command_version == "2.0"
    then raise_if
        (not (is_some c.metadata.skill_version_id) || not (has_exactly_statement c.payload))
        (value_error "DispatchExecutionAttempt v2 requires exact governed metadata")
    else raise_if (is_some c.metadata.authoritative_result_id)
        (value_error "AuthoritativeResultId is supported only by command v2")

-- CommandEnvelope.__post_init__
unfoldable pub checked_command : CommandEnvelope → Result CommandEnvelope
unfolding checked_dispatch
checked_command c = do
  raise_if
      (any_empty (
        c.command_id ∷ c.command_type ∷ c.command_version ∷ c.correlation_id ∷ c.causation_id
        ∷ c.target_component ∷ c.initiator ∷ c.tenant_id ∷ c.workspace_id ∷ []))
      (value_error "required Command fields must be non-empty")
  raise_if (not c.timestamp.aware) (value_error "Command timestamp must be timezone-aware")
  raise_if
      (not (c.metadata.authorization.tenant_id == c.tenant_id)
        || not (c.metadata.authorization.workspace_id == c.workspace_id))
      (value_error "Command scope must match verified authorization scope")
  if c.command_type == "DispatchExecutionAttempt" then checked_dispatch c else ok tt
  ok c
