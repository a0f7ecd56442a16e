-- ===== src/Workflow/Governance/Admission/Laws.antt =====
-- About the binding that `admission_binding` produces (governance.py).
use aieos.Base.{
  ℕ, ◌<◌, true, some, ok, Fields, str, mapping, end, field, String, ◌==◌, ◌≡◌, refl, arith,
  string_eq, string_beq_iff,
}
use aieos.Workflow.Governance.{WorkflowAiBudgetEnvelope, lookup, is_number, is_text, scale6}
use aieos.Workflow.Governance.Format.{micro_text}
use aieos.Workflow.Governance.Format.RoundTrip.{scale6-micro_text}
use aieos.Workflow.Governance.Binding.{Lineage, validate_binding}
use aieos.Workflow.Governance.Admission.{Handoff, binding_of, admission_binding}

-- the lineage that a handoff under an envelope has
abbrev pub lineage_of : WorkflowAiBudgetEnvelope → Handoff → Lineage
lineage_of e h = record {
  workflow_id = h.workflow_id;
  workflow_step_id = h.workflow_step_id;
  command_id = h.command_id;
  execution_id = h.execution_id;
  tenant_id = e.tenant_id;
  workspace_id = e.workspace_id;
  skill_version_id = h.skill_version_id;
  capability_id = h.capability_id;
  capability_contract_version_id = h.capability_contract_version_id;
}

same : (s : String) → (s == s) ≡ true
same s = (string_beq_iff s s).1 refl

-- The amount that a binding commits, as `scale6` reads it.
abbrev pub Commits : ℕ → Fields → Type 0
Commits amount v =
    (c : Fields) × (s : String) × (lookup "CommittedExposure" v ≡ some (mapping c))
    × (lookup "Amount" c ≡ some (str s))
    × (scale6 s ≡ ok amount)

module _ (e : WorkflowAiBudgetEnvelope) (h : Handoff) (version committed : ℕ) where
  abbrev committed_exposure : Fields
  committed_exposure =
      field "Amount" (str (micro_text committed)) (field "CurrencyOrReferenceUnit" (str "USD") end)

  valid :
      scale6 (micro_text committed) ≡ ok committed
      → validate_binding (binding_of e h version committed) (lineage_of e h) ≡ ok tt
  unfolding binding_of validate_binding lookup is_number is_text
  valid a =
      rw
        (
          same h.workflow_id,
          same h.workflow_step_id,
          same h.command_id,
          same h.execution_id,
          same e.tenant_id,
          same e.workspace_id,
          same h.skill_version_id,
          same h.capability_id,
          same h.capability_contract_version_id,
          a,
        )
        refl

  -- For a positive amount of less than 10^18 micro-dollars a binding is produced. It is valid for its
  -- step, under the envelope's scope, and the amount that it commits is read back as that amount.
  pub validate-admission_binding :
      0 < committed
      → committed < 1_000_000_000_000_000_000
      → (v : Fields) × (admission_binding e h version committed ≡ ok v)
        × (validate_binding v (lineage_of e h) ≡ ok tt)
        × Commits committed v
  unfolding admission_binding binding_of lookup
  validate-admission_binding p q =
      let read = scale6-micro_text committed p q in
      (
        binding_of e h version committed,
        ground arith,
        valid read,
        (committed_exposure, micro_text committed, refl, refl, read),
      )
