-- ===== src/Tests/Flows.antt =====
-- The Workflow Engine.
use aieos.Base.{
  true, some, none, [], ◌∷◌, string_eq, ok, ◌≡◌, refl, arith, string_beq_iff, pos, Fields, int, str,
  mapping, end, field, empty_mapping,
}
use aieos.Base.Dict.{get, put}
use aieos.Contracts.Commands.{CommandEnvelope}
use aieos.Contracts.Results.{
  ResultStatus, status_category, ResultEnvelope, ErrorEnvelope, checked_result, checked_error,
}
use aieos.Domain.{new, now}
use aieos.Outcomes.{unsuccessful}
use aieos.Security.{ScopeAuthorizer, require}
use aieos.Tests.Samples.{alice, services, supply, a_command, an_acknowledgement}
use aieos.Workflow.Governance.{
  lookup, is_number, is_text, scale6, partition_dot, is_amount, amount_value, is_whole, is_fraction,
  ends_nonzero, digits_value, fraction_value,
}
use aieos.Workflow.Governance.Binding.{Lineage, validate_binding, validate_binding_unique}
use aieos.Workflow.Instance.{WorkflowState, running, WorkflowInstance, Engine}
use aieos.Workflow.Repository.{
  authoritative_ai_admission, owns_ai_dispatch, fields_eq, put_instance, put_receipt,
  remember_completed_command,
}
use aieos.Workflow.Repository.Laws.{Authoritative, admission-Authoritative}
use aieos.Workflow.Cancel.{cancel}
use aieos.Workflow.Cancel.Laws.{Keyed}
use aieos.Workflow.Cancel.Again.{Asks, ended, cancel_again}

abbrev pub authorizer : ScopeAuthorizer
authorizer = record { active_policy_versions = none; revoked_policy_versions = [] }

abbrev pub owner : CommandEnvelope
owner = record a_command {
  command_type = "CancelWorkflow";
  workflow_id = some "workflow_1";
  metadata = record a_command.metadata {
    authorization = record alice { permissions = "workflow.cancel" ∷ [] };
  };
}

abbrev a_binding : Fields
a_binding =
    field "ExecutionId" (str "execution_1")
      (field "WorkflowAdmissionStateVersion" (int (pos 1)) end)

abbrev pub a_flow : WorkflowState → WorkflowInstance
a_flow state = record {
  workflow_id = "workflow_1";
  workflow_step_id = "step_1";
  definition = record {
    workflow_definition_id = "definition";
    workflow_definition_version_id = "definition-v1";
    skill_version_id = "skill-v1";
    max_attempts = pos 2;
    workflow_kind = "";
    ai_budget_envelope = none;
  };
  tenant_id = "tenant_a";
  workspace_id = "workspace_1";
  request_id = "request_1";
  correlation_id = "correlation_1";
  authorization = alice;
  input_payload = empty_mapping;
  timeout_seconds = 4607182418800017408;
  state = state;
  attempt_number = 1;
  execution_ids = "execution_1" ∷ [];
  processed_event_ids = [];
  workflow_events = [];
  initial_attempt_command = none;
  retry_commands = [];
  outcome = none;
  error = none;
  ai_budget_envelope = none;
  ai_admissions = ("command_1", a_binding) ∷ [];
  ai_admission_states =
      (
        "command_1",
        field "State" (str "Committed") (
            field "WorkflowAdmissionStateVersion" (int (pos 1))
              (field "Binding" (mapping a_binding) end)),
      )
      ∷ [];
  transition_version = 1;
}

abbrev pub engine : WorkflowState → Engine
engine state = record {
  instances = ("workflow_1", a_flow state) ∷ [];
  command_receipts = [];
  dispatch_context = none;
  supply = supply;
  decisions = [];
}

engine-Keyed : (state : WorkflowState) → Keyed (engine state)
unfolding get
engine-Keyed state k j h = ground (arith, string_beq_iff "workflow_1" k)

admission_given :
    authoritative_ai_admission "workflow_1" "command_1" "execution_1" (engine running)
    ≡ some a_binding
unfolding authoritative_ai_admission get is_text lookup is_number
admission_given = rw ((fields_eq.beq_iff a_binding a_binding).1 refl) refl

admission-Authoritative_example :
    Authoritative "workflow_1" "command_1" "execution_1" a_binding (engine running)
    × (owns_ai_dispatch (some "workflow_1") "command_1" (engine running) ≡ true)
admission-Authoritative_example =
    admission-Authoritative "workflow_1" "command_1" "execution_1" a_binding (engine running)
      admission_given

asks : (state : WorkflowState) → Asks services authorizer owner "workflow_1" (a_flow state)
unfolding require
asks state = record { names = refl; permitted = refl; in_scope = refl }

-- the result of the cancellation
abbrev pub cancelled_result : ResultEnvelope
cancelled_result = record an_acknowledgement {
  result_id = "result_0f";
  result_status = ResultStatus.cancelled;
  outcome_category = status_category ResultStatus.cancelled;
  subject_reference = "workflow_1";
  producer_component = "Workflow Engine";
  command_id = some "command_1";
  started_at = some (record { instant = 0; aware = true });
  completed_at = some (record { instant = 0; aware = true });
  error_id = some "error_0f";
}

cancel_again_example :
    let t = (cancel services authorizer owner (engine running)).1 in
    let u = (cancel services authorizer owner t).1 in
    (e : ErrorEnvelope) × (get "workflow_1" u.instances
      ≡ some (ended (a_flow running) cancelled_result e))
    × ((cancel services authorizer owner u).0 ≡ ok cancelled_result)
    × ((cancel services authorizer owner u).1.instances ≡ u.instances)
unfolding get cancel unsuccessful new now checked_result checked_error require put_instance
    put_receipt remember_completed_command put
cancel_again_example =
    let t = (cancel services authorizer owner (engine running)).1 in
    cancel_again services authorizer owner owner "workflow_1" (a_flow running) (engine running)
      (cancel services authorizer owner t).1 cancelled_result (asks running) (asks running) refl
      refl refl refl refl

abbrev a_lineage : Lineage
a_lineage = record {
  workflow_id = "workflow_1";
  workflow_step_id = "step_1";
  command_id = "command_1";
  execution_id = "execution_1";
  tenant_id = "tenant_a";
  workspace_id = "workspace_1";
  skill_version_id = "skill-v1";
  capability_id = "classify";
  capability_contract_version_id = "1";
}

abbrev a_full_binding : Fields
a_full_binding = field "BindingContractVersion" (int (pos 1)) (
    field "WorkflowId" (str "workflow_1") (
      field "WorkflowStepId" (str "step_1") (
        field "CommandId" (str "command_1") (
          field "ExecutionId" (str "execution_1") (
            field "TenantId" (str "tenant_a") (
              field "WorkspaceId" (str "workspace_1") (
                field "CommittedExposure"
                  (mapping
                    (field "Amount" (str "0.01") (field "CurrencyOrReferenceUnit" (str "USD") end)))
                  (field "CapabilityBinding"
                    (mapping (
                      field "SkillVersionId" (str "skill-v1") (
                        field "CapabilityId" (str "classify")
                          (field "CapabilityContractVersionId" (str "1") end))))
                    end))))))))

a_full_binding_valid : validate_binding a_full_binding a_lineage ≡ ok tt
unfolding validate_binding lookup is_number is_text scale6 partition_dot is_amount amount_value
    is_whole is_fraction ends_nonzero digits_value fraction_value
a_full_binding_valid = refl

validate_binding_unique_example : a_lineage ≡ a_lineage
validate_binding_unique_example =
    validate_binding_unique a_full_binding a_lineage a_lineage a_full_binding_valid
      a_full_binding_valid
