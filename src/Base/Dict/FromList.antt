-- ===== src/Base/Dict/FromList.antt =====
-- A dict comprehension `{key(x): x for x in xs}`, and the test `len(d) != len(xs)` for duplicates.
use Prim.Native.Nat.{◌+◌, ◌≤◌, suc}
use mathlib.Core.Path.{◌≡◌, refl}
use mathlib.Core.Option.{none, some}
use mathlib.Core.List.{List, [], ◌∷◌}
use mathlib.Core.Logic.{◌⊎◌, inl, inr}
use native.Mathlib.Omega.{arith}
use aieos.Base.Numbers.{if◌then◌else◌, is_some, length, Within, Bool-cases}
use aieos.Base.Equality.{Eq, ◌==◌}
use aieos.Base.Dict.{Dict, get, put, get-put, get-put_self}

module _ {K V : Type 0} ⦃e : Eq K⦄ where
  length-put :
      (k : K) (v : V) (d : Dict K V)
      → length (put k v d) ≡ (if is_some (get k d) then length d else suc (length d))
  unfolding get put
  length-put k v [] = refl
  length-put k v ((j, w) ∷ d) = ground (arith, length-put k v d)

  module _ (key : V → K) where
    unfoldable pub add_all : List V → Dict K V → Dict K V
    add_all [] d = d
    add_all (x ∷ xs) d = add_all xs (put (key x) x d)

    pub length-add_all-le :
        (xs : List V) (d : Dict K V) → length (add_all xs d) ≤ length xs + length d
    unfolding add_all
    length-add_all-le [] d = omega arith
    length-add_all-le (x ∷ xs) d =
        ground (arith, length-add_all-le xs (put (key x) x d), length-put (key x) x d)

    -- With no key added twice each value is found under its key.
    pub get-add_all_first :
        (k : K) (x : V) (xs : List V) (d : Dict K V)
        → length (add_all (x ∷ xs) d) ≡ length (x ∷ xs) + length d
        → get (key x) d ≡ none
    unfolding add_all
    get-add_all_first k x xs d h =
        ground (arith, length-add_all-le xs (put (key x) x d), length-put (key x) x d)

    -- and no later value overwrites what the dict holds
    pub get-add_all_keeps :
        (k : K) (v : V) (xs : List V) (d : Dict K V)
        → length (add_all xs d) ≡ length xs + length d
        → get k d ≡ some v
        → get k (add_all xs d) ≡ some v
    unfolding add_all
    get-add_all_keeps k v [] d h g = g
    get-add_all_keeps k v (x ∷ xs) d h g =
        get-add_all_keeps k v xs (put (key x) x d)
          (ground (arith, length-add_all-le xs (put (key x) x d), length-put (key x) x d))
          (ground (arith, get-put (key x) k x d, e.beq_iff (key x) k, get-add_all_first k x xs d))

    pub get-add_all-Within :
        (x : V) (xs : List V) (d : Dict K V)
        → length (add_all xs d) ≡ length xs + length d
        → Within x xs
        → get (key x) (add_all xs d) ≡ some x
    unfolding add_all
    get-add_all-Within x [] d h m = absurd m
    get-add_all-Within x (y ∷ ys) d h (inl p) =
        get-add_all_keeps (key x) x ys (put (key y) y d)
          (ground (arith, length-add_all-le ys (put (key y) y d), length-put (key y) y d))
          (ground (arith, get-put_self (key x) x d))
    get-add_all-Within x (y ∷ ys) d h (inr m) =
        get-add_all-Within x ys (put (key y) y d)
          (ground (arith, length-add_all-le ys (put (key y) y d), length-put (key y) y d)) m

    -- What is found was added under its key, or was there before.
    pub Within-get-add_all :
        (k : K) (x : V) (xs : List V) (d : Dict K V)
        → get k (add_all xs d) ≡ some x
        → (Within x xs × (key x ≡ k)) ⊎ (get k d ≡ some x)
    unfolding add_all
    Within-get-add_all k x [] d h = inr h
    Within-get-add_all k x (y ∷ ys) d h = elim (Within-get-add_all k x ys (put (key y) y d) h) [
      | inl (m, p) ↦ inl (inr m, p)
      | inr g ↦ elim (Bool-cases (key y == k)) [
        | inl q ↦ inl (
          ground (arith, get-put (key y) k y d),
          ground (arith, get-put (key y) k y d, e.beq_iff (key y) k),
        )
        | inr q ↦ inr (ground (arith, get-put (key y) k y d))
      ]
    ]
