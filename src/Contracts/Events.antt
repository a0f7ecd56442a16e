-- ===== src/Contracts/Events.antt =====
-- packages/contracts/src/aieos/contracts/events/models.py
use aieos.Base.{
  String, not, ◌||◌, Option, [], ◌∷◌, is_some, String-discrete, Result, ok, value_error, raise_if,
  ◌>>◌, Timestamp, Timestamp-discrete, Fields, Fields-discrete, Eq, eq_of_discrete, if◌then◌else◌,
}
use aieos.Contracts.Common.{any_empty}

pub record EventMetadata : Type 0 where
  pub contract_version : String
  pub trace_id : Option String
  pub span_id : Option String
  pub attributes : Fields

pub record EventEnvelope : Type 0 where
  pub event_id : String
  pub event_type : String
  pub event_version : String
  pub occurred_at : Timestamp
  pub recorded_at : Timestamp
  pub producer : String
  pub correlation_id : String
  pub subject : String
  pub payload : Fields
  pub metadata : EventMetadata
  pub causation_id : Option String
  pub tenant_id : Option String
  pub workspace_id : Option String
  pub request_id : Option String
  pub workflow_id : Option String
  pub workflow_step_id : Option String
  pub execution_id : Option String
  pub ai_invocation_id : Option String

EventMetadata-discrete : Discrete EventMetadata
EventMetadata-discrete = hlevel (String-discrete, Fields-discrete)

pub EventEnvelope-discrete : Discrete EventEnvelope
EventEnvelope-discrete =
    hlevel (String-discrete, Fields-discrete, Timestamp-discrete, EventMetadata-discrete)

instance abbrev pub event_eq : Eq EventEnvelope
event_eq = eq_of_discrete EventEnvelope-discrete

-- EventEnvelope.__post_init__
unfoldable pub checked_event : EventEnvelope → Result EventEnvelope
checked_event e = do
  raise_if
      (any_empty (
        e.event_id ∷ e.event_type ∷ e.event_version ∷ e.producer ∷ e.correlation_id ∷ e.subject
        ∷ []))
      (value_error "required Event fields must be non-empty")
  raise_if (not e.occurred_at.aware || not e.recorded_at.aware)
      (value_error "Event timestamps must be timezone-aware")
  raise_if (if is_some e.tenant_id then not (is_some e.workspace_id) else is_some e.workspace_id)
      (value_error "Tenant and Workspace scope must be present together")
  ok e
