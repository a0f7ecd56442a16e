-- ===== src/Tests/Preflight.antt =====
-- A request of the Workflow Engine at the AI Gateway.
use aieos.Base.{some, [], ◌∷◌, string_eq, ok, ◌≡◌, refl, pos, Fields, int, str, mapping, field, end}
use aieos.Base.Dict.{get}
use aieos.Contracts.Commands.{is_positive}
use aieos.Gateway.Preflight.{preflight}
use aieos.Gateway.Preflight.Laws.{authority_of, Admitted, preflight-Admitted}
use aieos.Gateway.Types.{AiInvocationRequest}
use aieos.Security.{require}
use aieos.Tests.Flows.{authorizer, a_flow, engine}
use aieos.Tests.Samples.{a_request}
use aieos.Workflow.Governance.{
  lookup, is_number, is_text, partition_dot, is_amount, is_whole, is_fraction, ends_nonzero,
}
use aieos.Workflow.Instance.{running, Engine}
use aieos.Workflow.Payload.{strip, strip_left, strip_right}
use aieos.Workflow.Repository.{authoritative_ai_admission, owns_ai_dispatch, fields_eq, as_integer}

abbrev the_binding : Fields
the_binding = field "BindingContractVersion" (int (pos 1)) (
    field "TenantId" (str "tenant_a") (
      field "WorkspaceId" (str "workspace_1") (
        field "WorkflowId" (str "workflow_1") (
          field "WorkflowStepId" (str "step_1") (
            field "CommandId" (str "command_1") (
              field "ExecutionId" (str "execution_1") (
                field "WorkflowDefinitionVersionId" (str "definition-v1") (
                  field "PolicyId" (str "policy") (
                    field "PolicyVersionId" (str "policy-v1") (
                      field "WorkflowAdmissionStateVersion" (int (pos 1)) (
                        field "GatewayIdempotencyKey" (str "key_1") (
                          field "CommittedExposure"
                            (mapping (
                              field "Amount" (str "0.01")
                                (field "CurrencyOrReferenceUnit" (str "USD") end)))
                            (field "CapabilityBinding"
                              (mapping (
                                field "SkillVersionId" (str "skill-v1") (
                                  field "CapabilityId" (str "classify") (
                                    field "CapabilityContractVersionId" (str "capability-v1")
                                      end))))
                              end)))))))))))))

abbrev owning : Engine
owning = record (engine running) {
  instances =
      (
        "workflow_1",
        record (a_flow running) {
          ai_admissions = ("command_1", the_binding) ∷ [];
          ai_admission_states =
              (
                "command_1",
                field "State" (str "Committed") (
                    field "WorkflowAdmissionStateVersion" (int (pos 1))
                      (field "Binding" (mapping the_binding) end)),
              )
              ∷ [];
        },
      )
      ∷ [];
}

abbrev owned_request : AiInvocationRequest
owned_request = record a_request {
  workflow_ai_budget_admission = some the_binding;
  workflow_id = some "workflow_1";
  workflow_step_id = some "step_1";
  workflow_definition_version_id = some "definition-v1";
  skill_version_id = some "skill-v1";
}

stands_by :
    authoritative_ai_admission "workflow_1" "command_1" "execution_1" owning ≡ some the_binding
unfolding authoritative_ai_admission get is_text lookup is_number
stands_by = rw ((fields_eq.beq_iff the_binding the_binding).1 refl) refl

passes : preflight authorizer (some (authority_of owning)) owned_request ≡ ok tt
unfolding preflight require lookup is_text is_number partition_dot is_amount is_whole is_fraction
    ends_nonzero strip strip_left strip_right is_positive as_integer
passes = rw (stands_by, (fields_eq.beq_iff the_binding the_binding).1 refl) refl

preflight-Admitted_example : Admitted owning owned_request
unfolding owns_ai_dispatch get
preflight-Admitted_example = preflight-Admitted authorizer owning owned_request passes refl
