-- ===== src/Workflow/Governance.antt =====
-- governance.py: exact amounts, opaque identifiers and the budget envelope
pub mod Amounts
pub mod Binding
pub mod Text
pub mod Format
pub mod Admission
use Prim.Native.String.{◌++◌ as ◌<>◌}
use aieos.Base.{
  ℕ, zero, suc, ◌+◌, ◌-◌, ◌*◌, ◌/◌, ◌%◌, ◌^◌, String, Bool, true, false, not, ◌&&◌, ◌||◌, Option,
  some, none, List, [], ◌∷◌, ◌++◌, ◌==◌, string_eq, nat_eq, Result, ok, err, value_error, raise_if,
  ◌>>=◌, ◌>>◌, all, any, length, leb, ltb, if◌then◌else◌, Value, Fields, null, bool, int, float,
  str, array, mapping, end, field, pos, negsuc, codes, is_digit, between,
}

-- value.get(key)
unfoldable pub lookup : String → Fields → Option Value
lookup key end = none
lookup key (field k v fs) = if k == key then some v else lookup key fs

abbrev pub keys : Fields → List String
keys end = []
keys (field k v fs) = k ∷ keys fs

-- set(value) == set(required)
abbrev pub has_keys : List String → Fields → Bool
has_keys required fs =
    all (λ k. any (λ r. r == k) required) (keys fs)
    && all (λ r. any (λ k. k == r) (keys fs)) required

-- a float, by its bits, against an integer that is not negative
float_is : ℕ → ℕ → Bool
float_is n bits =
    let exponent = bits / 4503599627370496 in
    let significand = 4503599627370496 + bits % 4503599627370496 in
    if n == 0
    then bits == 0 || bits == 9223372036854775808
    else if ltb exponent 1075
    then significand == n * 2 ^ (1075 - exponent)
    else ltb exponent 2047 && significand * 2 ^ (exponent - 1075) == n

-- `value == n` for an integer that is not negative: True is 1 and False is 0
unfoldable pub is_number : ℕ → Option Value → Bool
unfolding float_is
is_number n (some (int (pos m))) = m == n
is_number n (some (bool true)) = n == 1
is_number n (some (bool false)) = n == 0
is_number n (some (float bits)) = float_is n bits
is_number n _ = false

unfoldable pub is_text : String → Option Value → Bool
is_text t (some (str s)) = s == t
is_text t _ = false

-- value.partition(".")
unfoldable pub partition_dot : List ℕ → List ℕ × Option (List ℕ)
partition_dot [] = ([], none)
partition_dot (c ∷ cs) =
    let (whole, fraction) = partition_dot cs in
    if c == b'.' then ([], some cs) else (c ∷ whole, fraction)

abbrev is_nonzero_digit : ℕ → Bool
is_nonzero_digit = between b'1' b'9'

-- [1-9][0-9]*
unfoldable pub is_whole : List ℕ → Bool
is_whole [] = false
is_whole (c ∷ cs) = is_nonzero_digit c && all is_digit cs

-- [0-9]*[1-9]
unfoldable pub ends_nonzero : List ℕ → Bool
ends_nonzero [] = false
ends_nonzero (c ∷ []) = is_nonzero_digit c
ends_nonzero (c ∷ d ∷ cs) = is_digit c && ends_nonzero (d ∷ cs)

-- [0-9]{0,5}[1-9]
unfoldable pub is_fraction : List ℕ → Bool
is_fraction cs = leb (length cs) 6 && ends_nonzero cs

is_zero : List ℕ → Bool
is_zero (c ∷ []) = c == b'0'
is_zero _ = false

-- the pattern of an amount
unfoldable pub is_amount : List ℕ × Option (List ℕ) → Bool
unfolding is_zero
is_amount (whole, none) = is_whole whole
is_amount (whole, some fraction) = (is_zero whole || is_whole whole) && is_fraction fraction

-- int of a text of digits, after the digits of `n`
unfoldable pub digits_value : ℕ → List ℕ → ℕ
digits_value n [] = n
digits_value n (c ∷ cs) = digits_value (n * 10 + (c - b'0')) cs

-- (fraction + "000000")[:6] of at most six digits, as an integer
unfoldable pub fraction_value : ℕ → ℕ → List ℕ → ℕ
fraction_value zero n cs = n
fraction_value (suc places) n [] = fraction_value places (n * 10) []
fraction_value (suc places) n (c ∷ cs) = fraction_value places (n * 10 + (c - b'0')) cs

amount_digits : List ℕ × Option (List ℕ) → ℕ
amount_digits (whole, none) = length whole
amount_digits (whole, some fraction) = length whole + length fraction

unfoldable pub amount_value : List ℕ × Option (List ℕ) → ℕ
amount_value (whole, none) = digits_value 0 whole * 1_000_000
amount_value (whole, some fraction) = digits_value 0 whole * 1_000_000 + fraction_value 6 0 fraction

unfoldable pub scale6 : String → Result ℕ
unfolding amount_digits
scale6 value = do
  let parts = partition_dot (codes value)
  raise_if (not (is_amount parts))
      (value_error "Amount must be a canonical positive scale-6 decimal")
  raise_if (ltb 18 (amount_digits parts))
      (value_error "Amount must contain at most 18 total digits")
  ok (amount_value parts)

-- [!-~]{1,256}
unfoldable pub is_opaque_id : String → Bool
is_opaque_id s =
    let cs = codes s in leb 1 (length cs) && leb (length cs) 256 && all (between 33 126) cs

bad_id : String → Result String
bad_id name = err (value_error (name <> " must be a printable opaque identifier"))

unfoldable pub require_opaque_id : String → Option Value → Result String
unfolding bad_id
require_opaque_id name (some (str s)) = if is_opaque_id s then ok s else bad_id name
require_opaque_id name _ = bad_id name

pub record WorkflowAiBudgetEnvelope : Type 0 where
  pub definition_version_id : String
  pub policy_id : String
  pub policy_version_id : String
  pub tenant_id : String
  pub workspace_id : String
  pub ceiling_microusd : ℕ

abbrev envelope_keys : List String
envelope_keys =
    "ContractVersion" ∷ "GatewayNormalizedCostUnitRegistryVersion" ∷ "WorkflowDefinitionVersionId"
    ∷ "PolicyId" ∷ "PolicyVersionId" ∷ "TenantId" ∷ "WorkspaceId" ∷ "BudgetCeiling" ∷ []

as_budget : Option Value → Result Fields
as_budget (some (mapping budget)) =
    if not (has_keys ("Amount" ∷ "CurrencyOrReferenceUnit" ∷ []) budget)
      || not (is_text "USD" (lookup "CurrencyOrReferenceUnit" budget))
    then err (value_error "unknown normalized cost unit")
    else ok budget
as_budget _ = err (value_error "unknown normalized cost unit")

as_amount : Option Value → Result String
as_amount (some (str s)) = ok s
as_amount _ = err (value_error "BudgetCeiling.Amount must be a string")

-- WorkflowAIBudgetEnvelope.parse
unfoldable pub parse : Fields → Result WorkflowAiBudgetEnvelope
unfolding as_budget as_amount
parse value = do
  raise_if
      (not (has_keys envelope_keys value)
        || not (is_number 1 (lookup "ContractVersion" value))
        || not (is_number 1 (lookup "GatewayNormalizedCostUnitRegistryVersion" value)))
      (value_error "unsupported WorkflowAIBudgetEnvelope")
  budget ← as_budget (lookup "BudgetCeiling" value)
  amount ← as_amount (lookup "Amount" budget)
  definition_version_id ←
      require_opaque_id "WorkflowDefinitionVersionId" (lookup "WorkflowDefinitionVersionId" value)
  policy_id ← require_opaque_id "PolicyId" (lookup "PolicyId" value)
  policy_version_id ← require_opaque_id "PolicyVersionId" (lookup "PolicyVersionId" value)
  tenant_id ← require_opaque_id "TenantId" (lookup "TenantId" value)
  workspace_id ← require_opaque_id "WorkspaceId" (lookup "WorkspaceId" value)
  ceiling ← scale6 amount
  ok (record {
    definition_version_id = definition_version_id;
    policy_id = policy_id;
    policy_version_id = policy_version_id;
    tenant_id = tenant_id;
    workspace_id = workspace_id;
    ceiling_microusd = ceiling;
  })
