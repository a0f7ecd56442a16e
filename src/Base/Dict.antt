-- ===== src/Base/Dict.antt =====
-- Python's `dict`: an association list in insertion order. An assignment to a key that is there
-- keeps its place.
pub mod FromList
use mathlib.Core.Path.{◌≡◌, refl, ap}
use mathlib.Core.Logic.{inl, inr}
use mathlib.Core.Bool.{Bool}
use mathlib.Core.Option.{Option, none, some}
use mathlib.Core.List.{List, [], ◌∷◌, map}
use native.Mathlib.Omega.{arith}
use aieos.Base.Numbers.{if◌then◌else◌, is_some, Bool-cases}
use aieos.Base.Equality.{Eq, ◌==◌}

abbrev pub Dict {ℓ κ} : Type ℓ → Type κ → Type (ℓ ⊔ κ)
Dict K V = List (K × V)

abbrev pub values {ℓ κ} : {K : Type ℓ} {V : Type κ} → Dict K V → List V
values d = map (λ e. e.1) d

module _ {ℓ κ} {K : Type ℓ} {V : Type κ} ⦃e : Eq K⦄ where
  -- d.get(k)
  unfoldable pub get : K → Dict K V → Option V
  get k [] = none
  get k ((j, v) ∷ d) = if j == k then some v else get k d

  -- k in d
  abbrev pub contains : K → Dict K V → Bool
  contains k d = is_some (get k d)

  -- d[k] = v
  unfoldable pub put : K → V → Dict K V → Dict K V
  put k v [] = (k, v) ∷ []
  put k v ((j, w) ∷ d) = if j == k then (j, v) ∷ d else (j, w) ∷ put k v d

  pub get-put :
      (k j : K) (v : V) (d : Dict K V) → get j (put k v d) ≡ (if k == j then some v else get j d)
  unfolding get put
  get-put k j v [] = refl
  get-put k j v ((i, w) ∷ d) =
      ground (arith, e.beq_iff k j, e.beq_iff i k, e.beq_iff i j, get-put k j v d)

  pub get-put_self : (k : K) (v : V) (d : Dict K V) → get k (put k v d) ≡ some v
  get-put_self k v d = ground (arith, get-put k k v d, e.beq_iff k k)

  -- d.setdefault(k, v) as a statement
  unfoldable pub set_default : K → V → Dict K V → Dict K V
  set_default k v d = if contains k d then d else put k v d

  -- `del d[k]` of every key that passes the test
  unfoldable pub without : (K → Bool) → Dict K V → Dict K V
  without p [] = []
  without p ((k, v) ∷ d) = let rest = without p d in if p k then rest else (k, v) ∷ rest

  pub get-without :
      (p : K → Bool) (k : K) (d : Dict K V) → get k (without p d) ≡ (if p k then none else get k d)
  unfolding get without
  get-without p k [] = ground arith
  get-without p k ((j, v) ∷ d) = elim (Bool-cases (e.beq j k)) [
    | inl q ↦
        rw ((e.beq_iff j k).0 q, (e.beq_iff k k).1 refl)
          (ground (arith, get-without p k d, (e.beq_iff k k).1 refl))
    | inr q ↦ ground (arith, get-without p k d)
  ]
