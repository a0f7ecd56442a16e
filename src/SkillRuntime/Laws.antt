-- ===== src/SkillRuntime/Laws.antt =====
-- About `resolve_authoritative_result` of InMemoryExecutionRepository (runtime.py).
use aieos.Base.{
  String, true, Option, some, none, List, [], ◌∷◌, string_eq, string_beq_iff, ok, ◌≡◌, refl, arith,
  is_some, inl, inr, str, Within, Bool-cases,
}
use aieos.Base.Dict.{values}
use aieos.Contracts.Results.{ResultEnvelope, ResultStatus}
use aieos.Workflow.Governance.{lookup}
use aieos.Workflow.Governance.Text.{is_text_lem}
use aieos.SkillRuntime.{
  ExecutionRecord, Executions, Reuse, has_id, find_result, is_succeeded, is_compatible, resolved,
  resolve_authoritative_result,
}

-- an attempt whose result has that identity
abbrev pub Produced : String → ResultEnvelope → List ExecutionRecord → Type 0
Produced id r records =
    (x : ExecutionRecord) × (Within x records) × (x.result ≡ some r) × (r.result_id ≡ id)

has_id-result_id :
    (id : String) (o : Option ResultEnvelope) (r : ResultEnvelope)
    → has_id id o ≡ true
    → o ≡ some r
    → r.result_id ≡ id
unfolding has_id
has_id-result_id id none r h e = cc
has_id-result_id id (some q) r h e = ground (arith, string_beq_iff q.result_id id, h, e)

find_result-Produced :
    (id : String) (r : ResultEnvelope) (xs : List ExecutionRecord)
    → find_result id xs ≡ some r
    → Produced id r xs
unfolding find_result
find_result-Produced id r [] h = cc
find_result-Produced id r (x ∷ xs) h = elim (Bool-cases (has_id id x.result)) [
  | inl p ↦
      let e : x.result ≡ some r = ground (arith, p, h) in
      (x, inl refl, e, has_id-result_id id x.result r p e)
  | inr p ↦
      let (y, w, e, q) = find_result-Produced id r xs (ground (arith, p, h)) in (y, inr w, e, q)
]

-- the result may be reused for that
pub record Reusable (u : Reuse) (r : ResultEnvelope) : Type 0 where
  pub ended_well : r.result_status ≡ ResultStatus.succeeded
  pub tenant : r.tenant_id ≡ u.tenant_id
  pub workspace : r.workspace_id ≡ u.workspace_id
  pub capability : lookup "capability_id" r.metadata ≡ some (str u.capability_id)
  pub contract :
      lookup "capability_contract_version_id" r.metadata
      ≡ some (str u.capability_contract_version_id)
  pub input : lookup "normalized_input_digest" r.metadata ≡ some (str u.normalized_input_digest)
  pub has_value : is_some r.value_reference ≡ true

is_succeeded_lem : (s : ResultStatus) → is_succeeded s ≡ true → s ≡ ResultStatus.succeeded
unfolding is_succeeded
is_succeeded_lem ResultStatus.succeeded h = refl
is_succeeded_lem _ h = cc

compatible-Reusable : (u : Reuse) (r : ResultEnvelope) → is_compatible u r ≡ true → Reusable u r
unfolding is_compatible
compatible-Reusable u r h = record {
  ended_well = is_succeeded_lem r.result_status (ground (arith, h));
  tenant = ground (arith, h, string_beq_iff r.tenant_id u.tenant_id);
  workspace = ground (arith, h, string_beq_iff r.workspace_id u.workspace_id);
  capability = is_text_lem _ (lookup "capability_id" r.metadata) (ground (arith, h));
  contract = is_text_lem _ (lookup "capability_contract_version_id" r.metadata) (ground (arith, h));
  input = is_text_lem _ (lookup "normalized_input_digest" r.metadata) (ground (arith, h));
  has_value = ground (arith, h);
}

resolved-ok :
    (u : Reuse) (o : Option ResultEnvelope) (r : ResultEnvelope)
    → resolved u o ≡ ok r
    → (o ≡ some r) × (is_compatible u r ≡ true)
unfolding resolved
resolved-ok u none r h = cc
resolved-ok u (some q) r h = elim (Bool-cases (is_compatible u q)) [
  | inl p ↦ let e : q ≡ r = ground (arith, p, h) in (ground (arith, e), rw e at p)
  | inr p ↦ absurd (ground (arith, p, h))
]

-- What is reused is the result of a recorded attempt with the identity that was asked for; it
-- succeeded in the scope that was asked for, for the same capability, contract version and input,
-- and has a value.
pub resolve-Reusable :
    (id : String) (u : Reuse) (s : Executions) (r : ResultEnvelope)
    → resolve_authoritative_result id u s ≡ ok r
    → Produced id r (values s.records) × Reusable u r
unfolding resolve_authoritative_result
resolve-Reusable id u s r h =
    let (p, q) = resolved-ok u (find_result id (values s.records)) r h in
    (find_result-Produced id r (values s.records) p, compatible-Reusable u r q)
