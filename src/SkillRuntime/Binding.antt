-- ===== src/SkillRuntime/Binding.antt =====
-- runtime.py: `_validate_workflow_admission_binding`
pub mod Agreement
use aieos.Base.{
  ℕ, zero, suc, String, Bool, true, false, not, ◌&&◌, ◌||◌, Option, some, none, List, [], ◌∷◌, ◌==◌,
  string_eq, Result, ok, err, value_error, if◌then◌else◌, Value, Fields, str, mapping, ℤ, pos,
  negsuc, codes,
}
use aieos.Contracts.Commands.{is_positive}
use aieos.Workflow.Governance.{lookup, has_keys, is_text, is_number, is_amount, partition_dot}
use aieos.Workflow.Governance.Binding.{Lineage, same_capability}
use aieos.Workflow.Repository.{as_integer}

-- what the binding has to say
pub record Expected : Type 0 where
  pub lineage : Lineage
  pub policy_id : String
  pub policy_version_id : String
  pub workflow_definition_version_id : String
  pub gateway_idempotency_key : String

-- an integer that is at least 1
is_version : Option ℤ → Bool
unfolding is_positive
is_version none = false
is_version (some n) = is_positive n

is_capability : Lineage → Option Value → Bool
is_capability l (some (mapping fs)) = same_capability fs l
is_capability l _ = false

is_decimal : Option Value → Bool
is_decimal (some (str s)) = is_amount (partition_dot (codes s))
is_decimal _ = false

-- the identities and numbers
unfoldable pub identities_match : Fields → Expected → Bool
unfolding is_version
identities_match v x =
    is_number 1 (lookup "BindingContractVersion" v)
    && is_text x.lineage.workflow_id (lookup "WorkflowId" v)
    && is_text x.lineage.workflow_step_id (lookup "WorkflowStepId" v)
    && is_text x.lineage.command_id (lookup "CommandId" v)
    && is_text x.lineage.execution_id (lookup "ExecutionId" v)
    && is_text x.lineage.tenant_id (lookup "TenantId" v)
    && is_text x.lineage.workspace_id (lookup "WorkspaceId" v)
    && is_text x.policy_id (lookup "PolicyId" v)
    && is_text x.policy_version_id (lookup "PolicyVersionId" v)
    && is_text x.workflow_definition_version_id (lookup "WorkflowDefinitionVersionId" v)
    && is_text x.gateway_idempotency_key (lookup "GatewayIdempotencyKey" v)
    && is_version (as_integer (lookup "WorkflowAdmissionStateVersion" v))

-- the exposure: exactly an amount in USD
unfoldable pub exposure_matches : Fields → Bool
unfolding is_decimal
exposure_matches committed =
    has_keys ("Amount" ∷ "CurrencyOrReferenceUnit" ∷ []) committed
    && is_text "USD" (lookup "CurrencyOrReferenceUnit" committed)
    && is_decimal (lookup "Amount" committed)

mismatch : Result (Unit {0})
mismatch = err (value_error "workflow AI admission binding mismatch")

binding_matches : Fields → Expected → Option Value → Bool
unfolding identities_match exposure_matches is_capability
binding_matches v x (some (mapping committed)) =
    identities_match v x
    && is_capability x.lineage (lookup "CapabilityBinding" v)
    && exposure_matches committed
binding_matches v x _ = false

unfoldable pub validate_admission : Fields → Expected → Result (Unit {0})
unfolding binding_matches mismatch
validate_admission v x =
    if binding_matches v x (lookup "CommittedExposure" v) then ok tt else mismatch
