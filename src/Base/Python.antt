-- ===== src/Base/Python.antt =====
-- Python's exceptions and the values that a mapping of the program holds.
use Prim.Native.Nat.{ℕ}
use Prim.Native.String.{String}
use mathlib.Core.Path.{◌≡◌, refl}
use mathlib.Core.Logic.{◌⊎◌, inl, inr}
use mathlib.Core.Bool.{Bool, true, false}
use native.Mathlib.Decide.{ℕ_discrete}
use aieos.Base.Equality.{String-discrete}

-- The exception classes that the program raises or lets through, with the fixed part of their text.
pub data Exception : Type 0 where
  value_error : String → Exception
  key_error : Exception
  lookup_error : String → Exception
  permission_error : String → Exception
  runtime_error : String → Exception
  assertion_error : Exception
  attribute_error : Exception
  type_error : Exception
  -- security_support: AuthorizationFailure(ValueError)
  authorization_failure : String → Exception
  -- ai_gateway: ExecutionOwnershipLost(RuntimeError)
  ownership_lost : String → Exception
  -- command_dispatch_in_process
  duplicate_target : String → Exception
  unknown_target : String → Exception

-- A call that may raise.
pub data Result {ℓ} (A : Type ℓ) : Type ℓ where
  ok : A → Result A
  err : Exception → Result A

pub Result-cases {ℓ} :
    {A : Type ℓ} (r : Result A) → ((a : A) × (r ≡ ok a)) ⊎ ((x : Exception) × (r ≡ err x))
Result-cases (ok a) = inl (a, refl)
Result-cases (err x) = inr (x, refl)

infixl 5 ◌>>=◌ ◌>>◌
abbrev pub ◌>>=◌ {ℓ κ} : {A : Type ℓ} {B : Type κ} → Result A → (A → Result B) → Result B
ok a >>= f = f a
err x >>= f = err x

abbrev pub ◌>>◌ {ℓ} : {B : Type ℓ} → Result (Unit {0}) → Result B → Result B
m >> k = m >>= λ _. k

-- `if test: raise x`
abbrev pub raise_if : Bool → Exception → Result (Unit {0})
raise_if true x = err x
raise_if false x = ok tt

pub data ℤ : Type 0 where
  pos : ℕ → ℤ
  negsuc : ℕ → ℤ  -- -(n + 1)

-- An `object` of a payload: JSON data. A float is its 64-bit pattern: the program only passes it on.
mutual
  pub data Value : Type 0 where
    null : Value
    bool : Bool → Value
    int : ℤ → Value
    float : ℕ → Value
    str : String → Value
    array : Values → Value
    mapping : Fields → Value

  pub data Values : Type 0 where
    nil : Values
    cons : Value → Values → Values

  pub data Fields : Type 0 where
    end : Fields
    field : String → Value → Fields → Fields

pub ℤ-discrete : Discrete ℤ
ℤ-discrete = hlevel ℕ_discrete

pub Value-discrete : Discrete Value
Value-discrete = hlevel (ℕ_discrete, String-discrete)

pub Fields-discrete : Discrete Fields
Fields-discrete = hlevel (ℕ_discrete, String-discrete)

abbrev pub empty_mapping : Fields
empty_mapping = end

-- datetime: `aware` when `tzinfo is not None`
pub record Timestamp : Type 0 where
  pub instant : ℕ
  pub aware : Bool

pub Timestamp-discrete : Discrete Timestamp
Timestamp-discrete = hlevel ℕ_discrete
