-- ===== src/Outcomes/Laws.antt =====
-- About `unsuccessful` of OutcomeFactory (factory.py).
use Prim.Native.String.{◌++◌ as ◌<>◌}
use text.Mathlib.TextEquality.{eq_iff}
use text.Mathlib.TextLemmas.{cons-append, cons-ne-nil}
use aieos.Base.{
  String, true, false, some, ◌≡◌, refl, [], ◌∷◌, Result, ok, err, arith, inl, inr, Bool-cases, sym,
  ◌∙◌,
}
use aieos.Contracts.Common.{is_empty, any_empty}
use aieos.Contracts.Results.{
  ResultStatus, ErrorEnvelope, ResultEnvelope, checked_error, checked_result, is_unsuccessful,
  rejected, failed, cancelled, timed_out,
}
use aieos.Domain.{Services, Supply, new, now}
use aieos.Outcomes.{Lineage, Fault, Extras, unsuccessful}

is_empty-append : (p q : String) → is_empty p ≡ false → is_empty (p <> q) ≡ false
is_empty-append String.[] q h = cc
is_empty-append (String.◌∷◌ c p) q h = elim (Bool-cases (is_empty (String.◌∷◌ c p <> q))) [
  | inl e ↦
      absurd
        (cons-ne-nil c (p <> q) (sym (cons-append c p q) ∙ (eq_iff (String.◌∷◌ c p <> q) "").0 e))
  | inr e ↦ e
]

-- the texts of an outcome, which its caller supplies
abbrev pub Named : Lineage → Fault → Type 0
Named l f =
    any_empty (
      f.error_code ∷ f.message ∷ l.producer ∷ l.subject ∷ l.tenant_id ∷ l.workspace_id
      ∷ l.correlation_id ∷ l.causation_id ∷ [])
    ≡ false

-- A pair that is well formed, tells the same story and has the status that was asked for.
abbrev pub Reports : ResultStatus → Result (ResultEnvelope × ErrorEnvelope) → Type 0
Reports status (err x) = ⊥
Reports status (ok (r, e)) =
    (checked_result r ≡ ok r)
    × (checked_error e ≡ ok e)
    × (r.result_status ≡ status)
    × (r.error_id ≡ some e.error_id)
    × (r.completed_at ≡ some e.occurred_at)
    × (r.causation_id ≡ e.causation_id)
    × (r.tenant_id ≡ e.tenant_id)
    × (r.workspace_id ≡ e.workspace_id)

-- With every text given, each status of an unsuccessful terminal Result gives such a pair: the
-- factory raises nothing.
pub unsuccessful-Reports :
    (sv : Services) (status : ResultStatus) (l : Lineage) (f : Fault) (x : Extras) (s : Supply)
    → is_unsuccessful status ≡ true
    → Named l f
    → Reports status (unsuccessful sv status l f x s).0
unfolding unsuccessful new now checked_error checked_result
unsuccessful-Reports sv rejected l f x s u h =
    ground (arith, is_empty-append "error" ("_" <> sv.hex s.drawn) refl)
unsuccessful-Reports sv failed l f x s u h =
    ground (arith, is_empty-append "error" ("_" <> sv.hex s.drawn) refl)
unsuccessful-Reports sv cancelled l f x s u h =
    ground (arith, is_empty-append "error" ("_" <> sv.hex s.drawn) refl)
unsuccessful-Reports sv timed_out l f x s u h =
    ground (arith, is_empty-append "error" ("_" <> sv.hex s.drawn) refl)
unsuccessful-Reports sv _ l f x s u h = cc
