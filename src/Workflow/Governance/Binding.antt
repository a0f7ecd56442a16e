-- ===== src/Workflow/Governance/Binding.antt =====
-- governance.py: `validate_binding`
use aieos.Base.{
  String, Bool, true, not, ◌≡◌, sym, ◌∙◌, arith, string_eq, string_beq_iff, ◌&&◌, ◌||◌, Option,
  some, [], ◌∷◌, Result, ok, err, value_error, raise_if, ◌>>=◌, ◌>>◌, Value, Fields, str, mapping,
  Result-cases, inl, inr,
}
use aieos.Workflow.Governance.{lookup, has_keys, is_number, is_text, scale6}

-- what a binding is validated against
pub record Lineage : Type 0 where
  pub workflow_id : String
  pub workflow_step_id : String
  pub command_id : String
  pub execution_id : String
  pub tenant_id : String
  pub workspace_id : String
  pub skill_version_id : String
  pub capability_id : String
  pub capability_contract_version_id : String

-- the numbers and identities that the first test compares
unfoldable pub same_lineage : Fields → Lineage → Bool
same_lineage value l =
    is_number 1 (lookup "BindingContractVersion" value)
    && is_text l.workflow_id (lookup "WorkflowId" value)
    && is_text l.workflow_step_id (lookup "WorkflowStepId" value)
    && is_text l.command_id (lookup "CommandId" value)
    && is_text l.execution_id (lookup "ExecutionId" value)
    && is_text l.tenant_id (lookup "TenantId" value)
    && is_text l.workspace_id (lookup "WorkspaceId" value)

-- the mapping of exactly the three identities
unfoldable pub same_capability : Fields → Lineage → Bool
same_capability capability l =
    has_keys ("SkillVersionId" ∷ "CapabilityId" ∷ "CapabilityContractVersionId" ∷ []) capability
    && is_text l.skill_version_id (lookup "SkillVersionId" capability)
    && is_text l.capability_id (lookup "CapabilityId" capability)
    && is_text l.capability_contract_version_id (lookup "CapabilityContractVersionId" capability)

mismatch : {A : Type 0} → Result A
mismatch = err (value_error "workflow AI admission binding capability mismatch")

as_mapping : Option Value → Result Fields
unfolding mismatch
as_mapping (some (mapping fs)) = ok fs
as_mapping _ = mismatch

as_str : Option Value → Result String
unfolding mismatch
as_str (some (str s)) = ok s
as_str _ = mismatch

unfoldable pub validate_binding : Fields → Lineage → Result (Unit {0})
unfolding same_lineage same_capability as_mapping as_str
validate_binding value l = do
  raise_if (not (same_lineage value l))
      (value_error "workflow AI admission binding lineage mismatch")
  capability ← as_mapping (lookup "CapabilityBinding" value)
  committed ← as_mapping (lookup "CommittedExposure" value)
  raise_if
      (not (same_capability capability l)
        || not (is_text "USD" (lookup "CurrencyOrReferenceUnit" committed)))
      (value_error "workflow AI admission binding capability mismatch")
  amount ← as_str (lookup "Amount" committed)
  _ ← scale6 amount
  ok tt

text_unique : (s t : String) (o : Option Value) → is_text s o ≡ true → is_text t o ≡ true → s ≡ t
unfolding is_text
text_unique s t (some (str u)) h k = sym ((string_beq_iff u s).0 h) ∙ (string_beq_iff u t).0 k
text_unique s t _ h k = cc

validated :
    (v : Fields) (l : Lineage)
    → validate_binding v l ≡ ok tt
    → (same_lineage v l ≡ true)
      × (c : Fields) × (as_mapping (lookup "CapabilityBinding" v) ≡ ok c)
      × (same_capability c l ≡ true)
unfolding validate_binding
validated v l h = elim (Result-cases (as_mapping (lookup "CapabilityBinding" v))) [
  | inl (c, p) ↦ elim (Result-cases (as_mapping (lookup "CommittedExposure" v))) [
    | inl (d, q) ↦ (ground arith, c, p, ground arith)
    | inr (x, q) ↦ absurd (ground arith)
  ]
  | inr (x, p) ↦ absurd (ground arith)
]

-- A binding is valid for one lineage only: what it is validated against twice is the same workflow,
-- step, command, execution, scope, skill version and capability contract.
pub validate_binding_unique :
    (v : Fields) (l m : Lineage)
    → validate_binding v l ≡ ok tt
    → validate_binding v m ≡ ok tt
    → l ≡ m
unfolding same_lineage same_capability
validate_binding_unique v l m h k =
    let (a, c, p, b) = validated v l h in
    let (a', c', p', b') = validated v m k in
    let same : c' ≡ c = cc in
    let one : (s t key : String)
        → is_text s (lookup key v) ≡ true
        → is_text t (lookup key v) ≡ true
        → s ≡ t =
      λ s t key. text_unique s t (lookup key v) in
    let two : (s t key : String)
        → is_text s (lookup key c) ≡ true
        → is_text t (lookup key c) ≡ true
        → s ≡ t =
      λ s t key. text_unique s t (lookup key c) in
    let w : same_capability c m ≡ true = rw same at b' in
    λ i. record {
      workflow_id = one l.workflow_id m.workflow_id "WorkflowId" (ground arith) (ground arith) i;
      workflow_step_id =
          one l.workflow_step_id m.workflow_step_id "WorkflowStepId" (ground arith) (ground arith)
            i;
      command_id = one l.command_id m.command_id "CommandId" (ground arith) (ground arith) i;
      execution_id =
          one l.execution_id m.execution_id "ExecutionId" (ground arith) (ground arith) i;
      tenant_id = one l.tenant_id m.tenant_id "TenantId" (ground arith) (ground arith) i;
      workspace_id =
          one l.workspace_id m.workspace_id "WorkspaceId" (ground arith) (ground arith) i;
      skill_version_id =
          two l.skill_version_id m.skill_version_id "SkillVersionId" (ground arith) (ground arith)
            i;
      capability_id =
          two l.capability_id m.capability_id "CapabilityId" (ground arith) (ground arith) i;
      capability_contract_version_id =
          two l.capability_contract_version_id m.capability_contract_version_id
            "CapabilityContractVersionId" (ground arith) (ground arith) i;
    }
