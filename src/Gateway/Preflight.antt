-- ===== src/Gateway/Preflight.antt =====
-- gateway.py: `_preflight` and `_validate_workflow_admission`
pub mod Laws
use aieos.Base.{
  String, Bool, true, false, not, ◌&&◌, ◌||◌, Option, some, none, [], ◌∷◌, ◌==◌, string_eq, nat_eq,
  Result, ok, err, value_error, assertion_error, raise_if, ◌>>◌, is_some, if◌then◌else◌, Value,
  Fields, null, str, mapping, ℤ, codes,
}
use aieos.Contracts.Commands.{is_positive}
use aieos.Gateway.Types.{AiInvocationRequest}
use aieos.Security.{ScopeAuthorizer, require}
use aieos.Workflow.Governance.{lookup, has_keys, is_text, is_number, is_amount, partition_dot}
use aieos.Workflow.Payload.{strip}
use aieos.Workflow.Repository.{as_integer, fields_eq}

-- WorkflowAdmissionAuthority
pub record AdmissionAuthority : Type 0 where
  pub owns_dispatch : Option String → String → String → Bool
  pub authoritative : String → String → String → Option Fields

-- `value == optional`, where a missing value is None too
equals : Option String → Option Value → Bool
equals (some s) o = is_text s o
equals none none = true
equals none (some null) = true
equals none (some _) = false

mismatch : Result (Unit {0})
mismatch = err (value_error "Workflow AI admission binding does not match Gateway request")

is_version : Option ℤ → Bool
is_version none = false
is_version (some n) = is_positive n

-- the identities, the idempotency key and the versions
unfoldable identities_agree : AiInvocationRequest → Fields → Bool
unfolding equals is_version
identities_agree r b =
    is_number 1 (lookup "BindingContractVersion" b)
    && is_text r.tenant_id (lookup "TenantId" b)
    && is_text r.workspace_id (lookup "WorkspaceId" b)
    && equals r.workflow_id (lookup "WorkflowId" b)
    && equals r.workflow_step_id (lookup "WorkflowStepId" b)
    && equals r.workflow_definition_version_id (lookup "WorkflowDefinitionVersionId" b)
    && is_text r.command_id (lookup "CommandId" b)
    && is_text r.execution_id (lookup "ExecutionId" b)
    && is_text r.authorization.policy_id (lookup "PolicyId" b)
    && is_text r.authorization.policy_version_id (lookup "PolicyVersionId" b)
    && is_text r.idempotency_key (lookup "GatewayIdempotencyKey" b)
    && is_version (as_integer (lookup "WorkflowAdmissionStateVersion" b))

-- `capability == {...}`
capability_agrees : AiInvocationRequest → Option Value → Bool
unfolding equals
capability_agrees r (some (mapping fs)) =
    has_keys ("SkillVersionId" ∷ "CapabilityId" ∷ "CapabilityContractVersionId" ∷ []) fs
    && equals r.skill_version_id (lookup "SkillVersionId" fs)
    && is_text r.capability_id (lookup "CapabilityId" fs)
    && is_text r.capability_contract_version_id (lookup "CapabilityContractVersionId" fs)
capability_agrees r _ = false

is_decimal : Option Value → Bool
is_decimal (some (str s)) = is_amount (partition_dot (codes s))
is_decimal _ = false

-- exactly an amount in USD
exposure_agrees : Option Value → Bool
unfolding is_decimal
exposure_agrees (some (mapping fs)) =
    has_keys ("Amount" ∷ "CurrencyOrReferenceUnit" ∷ []) fs
    && is_text "USD" (lookup "CurrencyOrReferenceUnit" fs)
    && is_decimal (lookup "Amount" fs)
exposure_agrees _ = false

is_given : Fields → Option Fields → Bool
is_given b none = false
is_given b (some given) = given == b

-- what the authority says about the binding
confirm :
    Option AdmissionAuthority → AiInvocationRequest → Fields → Option String → Result (Unit {0})
unfolding is_given
confirm none r b w = err (value_error "authoritative Workflow AI admission is unavailable")
confirm (some g) r b none = err assertion_error
confirm (some g) r b (some w) =
    raise_if (not (is_given b (g.authoritative w r.command_id r.execution_id)))
      (value_error "authoritative Workflow AI admission does not match Gateway request")

unfoldable validate_workflow_admission :
    Option AdmissionAuthority → AiInvocationRequest → Fields → Result (Unit {0})
unfolding identities_agree capability_agrees exposure_agrees confirm mismatch
validate_workflow_admission g r b = do
  raise_if
      (not (
        has_keys
          ("BindingContractVersion" ∷ "TenantId" ∷ "WorkspaceId" ∷ "WorkflowId" ∷ "WorkflowStepId"
            ∷ "CommandId" ∷ "ExecutionId" ∷ "WorkflowDefinitionVersionId" ∷ "PolicyId"
            ∷ "PolicyVersionId" ∷ "WorkflowAdmissionStateVersion" ∷ "GatewayIdempotencyKey"
            ∷ "CommittedExposure" ∷ "CapabilityBinding" ∷ [])
          b))
      (value_error "committed Workflow AI admission binding is required")
  if identities_agree r b
        && capability_agrees r (lookup "CapabilityBinding" b)
        && exposure_agrees (lookup "CommittedExposure" b)
      then confirm g r b r.workflow_id
      else mismatch

workflow_owned : Option AdmissionAuthority → AiInvocationRequest → Bool
workflow_owned none r = false
workflow_owned (some g) r = g.owns_dispatch r.workflow_id r.command_id r.execution_id

admission : Option AdmissionAuthority → AiInvocationRequest → Option Fields → Result (Unit {0})
unfolding workflow_owned validate_workflow_admission
admission g r none =
    raise_if (workflow_owned g r)
      (value_error "committed Workflow AI admission binding is required")
admission g r (some b) = validate_workflow_admission g r b

unfoldable pub preflight :
    ScopeAuthorizer → Option AdmissionAuthority → AiInvocationRequest → Result (Unit {0})
unfolding admission
preflight a g r = do
  require a r.authorization "ai.invoke" r.tenant_id r.workspace_id
  raise_if (r.command_id == "" || r.idempotency_key == "" || strip r.prompt == "")
      (value_error "invalid admission envelope")
  raise_if (r.max_input_tokens == 0 || r.max_output_tokens == 0)
      (value_error "token budgets must be positive")
  raise_if (r.max_total_cost == 0) (value_error "coarse budget feasibility failed")
  raise_if
      (if is_some r.output_schema
        then not (is_some r.output_schema_identity)
        else is_some r.output_schema_identity)
      (value_error "governed schema material and identity must be bound together")
  admission g r r.workflow_ai_budget_admission
