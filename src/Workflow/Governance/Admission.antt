-- ===== src/Workflow/Governance/Admission.antt =====
-- governance.py: `admission_binding`
pub mod Laws
use Prim.Native.String.{◌++◌ as ◌<>◌}
use aieos.Base.{
  ℕ, String, Bool, true, false, Result, ok, err, value_error, Fields, str, int, mapping, end, field,
  pos, nat_beq, if◌then◌else◌,
}
use aieos.Workflow.Governance.{WorkflowAiBudgetEnvelope}
use aieos.Workflow.Governance.Format.{micro_text}

-- the identities of the step that the exposure is committed for
pub record Handoff : Type 0 where
  pub workflow_id : String
  pub workflow_step_id : String
  pub command_id : String
  pub execution_id : String
  pub skill_version_id : String
  pub capability_id : String
  pub capability_contract_version_id : String

unfoldable pub binding_of : WorkflowAiBudgetEnvelope → Handoff → ℕ → ℕ → Fields
binding_of e h state_version committed = field "BindingContractVersion" (int (pos 1)) (
    field "TenantId" (str e.tenant_id) (
      field "WorkspaceId" (str e.workspace_id) (
        field "WorkflowId" (str h.workflow_id) (
          field "WorkflowStepId" (str h.workflow_step_id) (
            field "CommandId" (str h.command_id) (
              field "ExecutionId" (str h.execution_id) (
                field "WorkflowDefinitionVersionId" (str e.definition_version_id) (
                  field "PolicyId" (str e.policy_id) (
                    field "PolicyVersionId" (str e.policy_version_id) (
                      field "WorkflowAdmissionStateVersion" (int (pos state_version)) (
                        field "GatewayIdempotencyKey"
                          (str (
                            h.workflow_id
                            <> (":"
                                <> (h.workflow_step_id
                                    <> (":" <> (h.command_id <> (":" <> h.execution_id)))))))
                          (field "CommittedExposure"
                            (mapping (
                              field "Amount" (str (micro_text committed))
                                (field "CurrencyOrReferenceUnit" (str "USD") end)))
                            (field "CapabilityBinding"
                              (mapping (
                                field "SkillVersionId" (str h.skill_version_id) (
                                  field "CapabilityId" (str h.capability_id) (
                                    field "CapabilityContractVersionId"
                                      (str h.capability_contract_version_id) end))))
                              end)))))))))))))

unfoldable pub admission_binding : WorkflowAiBudgetEnvelope → Handoff → ℕ → ℕ → Result Fields
unfolding binding_of
admission_binding e h state_version committed =
    if nat_beq committed 0
    then err (value_error "committed exposure must be positive")
    else ok (binding_of e h state_version committed)
