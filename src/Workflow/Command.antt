-- ===== src/Workflow/Command.antt =====
-- engine.py: the command of an attempt
pub mod Admission
use Prim.Native.String.{◌++◌ as ◌<>◌}
use aieos.Base.{
  ℕ, ◌+◌, String, Bool, true, false, not, ◌&&◌, ◌||◌, Option, some, none, List, [], ◌∷◌, ◌++◌, ◌==◌,
  string_eq, ltb, Exception, Result, ok, err, value_error, key_error, assertion_error,
  attribute_error, ◌>>=◌ as ◌bind◌, if◌then◌else◌, Value, Fields, null, int, float, str, mapping,
  array, end, field, pos, bool, Timestamp,
}
use aieos.Base.Dict.{Dict, get, put, values}
use aieos.Base.Exec.{Exec, pure, raise, lift, modify, ◌>>=◌, ◌>>◌}
use aieos.Contracts.Commands.{CommandEnvelope, CommandMetadata, checked_command, checked_metadata}
use aieos.Domain.{Services, new, now}
use aieos.Security.{ScopeAuthorizer, require}
use aieos.Workflow.Governance.{WorkflowAiBudgetEnvelope, lookup, scale6}
use aieos.Workflow.Governance.Admission.{Handoff, admission_binding}
use aieos.Workflow.Instance.{WorkflowDefinition, WorkflowInstance, Engine}
use aieos.Workflow.Repository.{put_instance}
use aieos.Workflow.Cancel.{draw, is_refused}
use aieos.Workflow.Payload.{Library, as_text, put_field, or_null, is_none, number_text, strip}

-- _is_approved_reference_workflow: the identity of the only structured-AI workflow
unfoldable pub is_approved : WorkflowDefinition → Bool
is_approved d =
    d.workflow_definition_id == "ClassifyAndRouteTask"
    && d.workflow_definition_version_id == "classify-and-route-task-v1"
    && d.workflow_kind == "ClassifyAndRouteTask"
    && d.skill_version_id == "structured-task-kind-skill-v1"

abbrev or_key_error : Option Value → Result Value
or_key_error none = err key_error
or_key_error (some v) = ok v

-- the optional text of CommandMetadata, whose check strips it
as_optional_text : Option Value → Result (Option String)
as_optional_text none = ok none
as_optional_text (some null) = ok none
as_optional_text (some (str s)) = ok (some s)
as_optional_text (some _) = err attribute_error

module _ (lib : Library) where
  attempt_payload : WorkflowInstance → Result Fields
  attempt_payload i =
      if is_approved i.definition
      then (or_key_error (lookup "statement" i.input_payload) bind λ v.
          ok (field "statement" (str (strip (as_text lib (some v)))) end))
      else ok (
          put_field "timeout_seconds" (float i.timeout_seconds)
            (put_field "skill_version_id" (str i.definition.skill_version_id) i.input_payload))

  metadata_of : WorkflowInstance → Option String → Option Fields → CommandMetadata
  metadata_of i result_id admission = record {
    request_id = i.request_id;
    idempotency_key = i.workflow_step_id <> (":" <> number_text i.attempt_number);
    authorization = i.authorization;
    attempt_number = some (pos i.attempt_number);
    expires_at = none;
    trace_id = none;
    span_id = none;
    skill_version_id =
        if is_approved i.definition then some i.definition.skill_version_id else none;
    authoritative_result_id = result_id;
    workflow_ai_budget_admission = admission;
  }

  envelope_of :
      WorkflowInstance
      → String
      → String
      → String
      → Timestamp
      → Fields
      → CommandMetadata
      → CommandEnvelope
  envelope_of i causation_id command_id execution_id t payload metadata = record {
    command_id = command_id;
    command_type = "DispatchExecutionAttempt";
    command_version = if is_approved i.definition then "2.0" else "1.0";
    correlation_id = i.correlation_id;
    causation_id = causation_id;
    target_component = "Skill Runtime";
    initiator = "Workflow Engine";
    timestamp = t;
    tenant_id = i.tenant_id;
    workspace_id = i.workspace_id;
    payload = payload;
    metadata = metadata;
    workflow_id = some i.workflow_id;
    workflow_step_id = some i.workflow_step_id;
    execution_id = some execution_id;
  }

  abbrev with_result :
      WorkflowInstance
      → String
      → String
      → String
      → Option Fields
      → Timestamp
      → Fields
      → Option String
      → Result CommandEnvelope
  with_result i causation_id command_id execution_id admission t payload result_id =
      checked_metadata (metadata_of i result_id admission) bind λ metadata.
      checked_command (envelope_of i causation_id command_id execution_id t payload metadata)

  abbrev with_payload :
      WorkflowInstance
      → String
      → String
      → String
      → Option Fields
      → Timestamp
      → Fields
      → Result CommandEnvelope
  with_payload i causation_id command_id execution_id admission t payload =
      as_optional_text (lookup "authoritative_result_id" i.input_payload)
      bind with_result i causation_id command_id execution_id admission t payload

  -- the command, at that instant
  unfoldable pub command_at :
      WorkflowInstance
      → String
      → String
      → String
      → Option Fields
      → Timestamp
      → Result CommandEnvelope
  unfolding attempt_payload as_optional_text metadata_of envelope_of
  command_at i causation_id command_id execution_id admission t =
      attempt_payload i bind with_payload i causation_id command_id execution_id admission t

  module _ (sv : Services) where
    -- the envelope of the command
    unfoldable pub attempt_command :
        WorkflowInstance → String → String → String → Option Fields → Exec Engine CommandEnvelope
    unfolding command_at
    attempt_command i causation_id command_id execution_id admission = do
      t ← draw (now sv)
      lift (command_at i causation_id command_id execution_id admission t)
