-- ===== src/Base/Exec/Keeps.antt =====
-- Rules for what a method keeps of its state, whether it returns or raises.
use mathlib.Core.Path.{◌≡◌, refl}
use mathlib.Core.Bool.{Bool, true, false}
use aieos.Base.Numbers.{if◌then◌else◌}
use aieos.Base.Python.{Result, ok, err}
use aieos.Base.Exec.{Exec, ◌>>=◌}

module _ {S : Type 0} (P : S → Type 0) where
  abbrev pub Keeps : {A : Type 0} → Exec S A → Type 0
  Keeps m = (s : S) → P s → P (m s).1

  -- what holds of the value, if one is returned
  abbrev pub Returns : {A : Type 0} → (A → Type 0) → Exec S A → Type 0
  Returns {A} Q m = (s : S) (a : A) → (m s).0 ≡ ok a → Q a

  then-Keeps :
      {A B : Type 0} (r : Result A) (t : S) (f : A → Exec S B)
      → P t
      → ((a : A) → r ≡ ok a → Keeps (f a))
      → P (((λ u. (r, u)) >>= f) t).1
  then-Keeps (ok a) t f h k = k a refl t h
  then-Keeps (err x) t f h k = h

  pub bind-Keeps :
      {A B : Type 0} (m : Exec S A) (f : A → Exec S B)
      → Keeps m
      → ((a : A) → Keeps (f a))
      → Keeps (m >>= f)
  bind-Keeps m f h k s p = let (r, t) = m s in then-Keeps r t f (h s p) (λ a e. k a)

  pub bind-Keeps_if :
      {A B : Type 0} (Q : A → Type 0) (m : Exec S A) (f : A → Exec S B)
      → Keeps m
      → Returns Q m
      → ((a : A) → Q a → Keeps (f a))
      → Keeps (m >>= f)
  bind-Keeps_if Q m f h l k s p =
      let (r, t) = m s in then-Keeps r t f (h s p) (λ a e. k a (l s a e))

  pub if_Keeps :
      {A : Type 0} (b : Bool) (m n : Exec S A)
      → (b ≡ true → Keeps m)
      → (b ≡ false → Keeps n)
      → Keeps (if b then m else n)
  if_Keeps true m n h k = h refl
  if_Keeps false m n h k = k refl

  pub value-Keeps : {A : Type 0} (r : Result A) → Keeps (λ s. (r, s))
  value-Keeps r s p = p
