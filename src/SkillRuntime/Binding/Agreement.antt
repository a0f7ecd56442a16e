-- ===== src/SkillRuntime/Binding/Agreement.antt =====
-- About the bindings that the Workflow Engine produces (governance.py) and the Skill Runtime checks
-- (runtime.py).
use aieos.Base.{
  ℕ, zero, suc, ◌<◌, ◌≤◌, String, true, ◌==◌, string_eq, string_beq_iff, ok, ◌≡◌, refl, arith,
  Fields, pos, codes,
}
use Prim.Native.String.{◌++◌ as ◌<>◌}
use aieos.Contracts.Commands.{is_positive}
use aieos.Workflow.Governance.{
  WorkflowAiBudgetEnvelope, lookup, is_text, is_number, is_amount, partition_dot, scale6,
}
use aieos.Workflow.Governance.Format.{micro_text}
use aieos.Workflow.Governance.Format.RoundTrip.{scale6-micro_text}
use aieos.Workflow.Governance.Binding.{same_capability}
use aieos.Workflow.Governance.Admission.{Handoff, binding_of, admission_binding}
use aieos.Workflow.Governance.Admission.Laws.{lineage_of}
use aieos.Workflow.Repository.{as_integer}
use aieos.SkillRuntime.Binding.{
  Expected, is_version, is_capability, is_decimal, identities_match, exposure_matches,
  binding_matches, validate_admission,
}

-- what the runtime expects of a handoff under an envelope
abbrev pub expected_of : WorkflowAiBudgetEnvelope → Handoff → Expected
expected_of e h = record {
  lineage = lineage_of e h;
  policy_id = e.policy_id;
  policy_version_id = e.policy_version_id;
  workflow_definition_version_id = "classify-and-route-task-v1";
  gateway_idempotency_key =
      h.workflow_id
      <> (":" <> (h.workflow_step_id <> (":" <> (h.command_id <> (":" <> h.execution_id)))));
}

scale6-is_amount :
    (s : String) (n : ℕ) → scale6 s ≡ ok n → is_amount (partition_dot (codes s)) ≡ true
unfolding scale6
scale6-is_amount s n h = ground (arith, h)

version-is_positive : (n : ℕ) → 1 ≤ n → is_positive (pos n) ≡ true
unfolding is_positive
version-is_positive zero h = absurd (omega (arith, h))
version-is_positive (suc n) h = refl

same : (s : String) → (s == s) ≡ true
same s = (string_beq_iff s s).1 refl

-- A binding that is produced for a positive amount of less than 10^18 micro-dollars, at a state
-- version of at least 1 under an envelope of the definition version "classify-and-route-task-v1", is
-- accepted by the Skill Runtime for its own step and policy.
pub validate_admission-admission_binding :
    (e : WorkflowAiBudgetEnvelope) (h : Handoff) (version committed : ℕ)
    → 0 < committed
    → committed < 1_000_000_000_000_000_000
    → 1 ≤ version
    → e.definition_version_id ≡ "classify-and-route-task-v1"
    → (v : Fields) × (admission_binding e h version committed ≡ ok v)
      × (validate_admission v (expected_of e h) ≡ ok tt)
unfolding admission_binding binding_of validate_admission binding_matches identities_match
    exposure_matches is_capability is_decimal is_version as_integer is_positive same_capability
    lookup is_text is_number
validate_admission-admission_binding e h version committed p q r governed = (
  binding_of e h version committed,
  ground arith,
  rw
      (
        same h.workflow_id,
        same h.workflow_step_id,
        same h.command_id,
        same h.execution_id,
        same e.tenant_id,
        same e.workspace_id,
        same e.policy_id,
        same e.policy_version_id,
        governed,
        same h.skill_version_id,
        same h.capability_id,
        same h.capability_contract_version_id,
        same (expected_of e h).gateway_idempotency_key,
        version-is_positive version r,
        scale6-is_amount (micro_text committed) committed (scale6-micro_text committed p q),
      )
      refl,
)
