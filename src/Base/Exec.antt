-- ===== src/Base/Exec.antt =====
-- Methods that change state and may raise. What was written before a raise stays written, so the
-- state comes back beside the exception too.
pub mod Keeps
use mathlib.Core.Path.{◌≡◌, refl}
use mathlib.Core.Bool.{Bool, true, false}
use mathlib.Core.Option.{Option, none, some}
use aieos.Base.Python.{Exception, Result, ok, err}

abbrev pub Exec {ℓ κ} : Type ℓ → Type κ → Type (ℓ ⊔ κ)
Exec S A = S → Result A × S

module _ {ℓ κ} {S : Type ℓ} {A : Type κ} where
  abbrev pub pure : A → Exec S A
  pure a s = (ok a, s)

  abbrev pub raise : Exception → Exec S A
  raise x s = (err x, s)

  abbrev pub lift : Result A → Exec S A
  lift r s = (r, s)

  abbrev pub gets : (S → A) → Exec S A
  gets f s = (ok (f s), s)

  -- d[k], once looked up: a missing key raises
  abbrev pub or_raise : Exception → Option A → Exec S A
  or_raise x none s = (err x, s)
  or_raise x (some a) s = (ok a, s)

infixl 5 ◌>>=◌ ◌>>◌
abbrev pub ◌>>=◌ {ℓ κ μ} :
    {S : Type ℓ} {A : Type κ} {B : Type μ} → Exec S A → (A → Exec S B) → Exec S B
◌>>=◌ m f s = let (r, t) = m s in elim r [ ok a ↦ f a t | err x ↦ (err x, t) ]

abbrev pub ◌>>◌ {ℓ κ μ} : {S : Type ℓ} {A : Type κ} {B : Type μ} → Exec S A → Exec S B → Exec S B
m >> k = m >>= λ _. k

module _ {ℓ} {S : Type ℓ} where
  abbrev pub modify : (S → S) → Exec S (Unit {0})
  modify f s = (ok tt, f s)

  -- `if test: raise x`
  abbrev pub guard_not : Bool → Exception → Exec S (Unit {0})
  guard_not true x s = (err x, s)
  guard_not false x s = (ok tt, s)

-- Inversion: a sequence that returns has returned at its first step, and is then the rest.
module _ {ℓ κ μ} {S : Type ℓ} {A : Type κ} {B : Type μ} where
  bind-ok_at :
      (r : Result A) (t : S) (f : A → Exec S B) {b : B}
      → (((λ u. (r, u)) >>= f) t).0 ≡ ok b
      → (a : A) × (r ≡ ok a) × ((((λ u. (r, u)) >>= f) t) ≡ f a t)
  bind-ok_at (ok a) t f h = (a, refl, refl)
  bind-ok_at (err x) t f h = cc

  pub bind-ok :
      (m : Exec S A) (f : A → Exec S B) (s : S) {b : B}
      → ((m >>= f) s).0 ≡ ok b
      → (a : A) × ((m s).0 ≡ ok a) × ((m >>= f) s ≡ f a (m s).1)
  bind-ok m f s h = let (r, t) = m s in bind-ok_at r t f h
