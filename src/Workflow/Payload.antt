-- ===== src/Workflow/Payload.antt =====
-- engine.py: how payloads are read and written, and what of Python's library the engine calls
use aieos.Base.{
  ℕ, ◌+◌, ◌-◌, ◌/◌, ◌%◌, String, Bool, true, false, Option, some, none, List, [], ◌∷◌, ◌==◌,
  string_eq, Result, ok, err, value_error, if◌then◌else◌, Value, Values, Fields, null, int, float,
  str, end, field, nil, cons, ℤ, is_space, ◌++◌, ltb,
}
use Prim.Native.Char.{Char, code}
use Prim.Native.String.{◌++◌ as ◌<>◌}
use aieos.Workflow.Governance.{lookup, is_text}
use aieos.Workflow.Governance.Format.{amount_text, show, pad6, rstrip, micro_text}

-- str of a value that is no text, float of an integer, and json
pub record Library : Type 0 where
  pub text_of : Value → String
  pub float_of : ℤ → Result ℕ
  pub loads : String → Result Value
  pub dumps : Fields → Result String

-- str(value)
abbrev pub as_text : Library → Option Value → String
as_text lib none = lib.text_of null
as_text lib (some (str s)) = s
as_text lib (some v) = lib.text_of v

-- d[key] = value, on a mapping
unfoldable pub put_field : String → Value → Fields → Fields
put_field key v end = field key v end
put_field key v (field k w fs) = if k == key then field k v fs else field k w (put_field key v fs)

abbrev pub or_null : Option Value → Value
or_null none = null
or_null (some v) = v

abbrev pub or_default : Value → Option Value → Value
or_default d none = d
or_default d (some v) = v

-- payload.get(key) is None
abbrev pub is_none : Option Value → Bool
is_none none = true
is_none (some null) = true
is_none (some _) = false

abbrev pub optional_text : Option String → Value
optional_text none = null
optional_text (some s) = str s

-- value == optional text
unfoldable pub is_optional_text : Option String → Option Value → Bool
is_optional_text none o = is_none o
is_optional_text (some s) o = is_text s o

abbrev pub texts : List String → Values
texts [] = nil
texts (s ∷ ss) = cons (str s) (texts ss)

-- str(number)
unfoldable pub number_text : ℕ → String
number_text n = amount_text (show n)

text_or_error : Option Value → Result String
text_or_error (some (str s)) =
    if s == "" then err (value_error "must be a non-empty string") else ok s
text_or_error _ = err (value_error "must be a non-empty string")

-- _payload_string
unfoldable pub payload_string : Fields → String → Result String
unfolding text_or_error
payload_string payload key = text_or_error (lookup key payload)

optional_or_error : Option Value → Result String
optional_or_error none = ok ""
optional_or_error (some (str s)) = ok s
optional_or_error (some _) = err (value_error "must be a string")

-- _payload_optional_string
unfoldable pub payload_optional_string : Fields → String → Result String
unfolding optional_or_error
payload_optional_string payload key = optional_or_error (lookup key payload)

integer_or_error : ℤ → Option Value → Result ℤ
integer_or_error d none = ok d
integer_or_error d (some (int i)) = ok i
integer_or_error d (some _) = err (value_error "must be an integer")

-- _payload_int
unfoldable pub payload_int : Fields → String → ℤ → Result ℤ
unfolding integer_or_error
payload_int payload key d = integer_or_error d (lookup key payload)

float_or_error : Library → ℕ → Option Value → Result ℕ
float_or_error lib d none = ok d
float_or_error lib d (some (float bits)) = ok bits
float_or_error lib d (some (int i)) = lib.float_of i
float_or_error lib d (some _) = err (value_error "must be numeric")

-- _payload_float
unfoldable pub payload_float : Library → Fields → String → ℕ → Result ℕ
unfolding float_or_error
payload_float lib payload key d = float_or_error lib d (lookup key payload)

-- str.lstrip and str.rstrip
unfoldable pub strip_left : String → String
strip_left String.[] = String.[]
strip_left (String.◌∷◌ c s) =
    let rest = strip_left s in if is_space (code c) then rest else String.◌∷◌ c s

abbrev cons_stripped : Char → String → String
cons_stripped c String.[] = if is_space (code c) then String.[] else String.◌∷◌ c String.[]
cons_stripped c (String.◌∷◌ d s) = String.◌∷◌ c (String.◌∷◌ d s)

unfoldable pub strip_right : String → String
strip_right String.[] = String.[]
strip_right (String.◌∷◌ c s) = cons_stripped c (strip_right s)

unfoldable pub strip : String → String
strip s = strip_right (strip_left s)

-- the text of minus n micro-dollars: `//` rounds down and `%` is not negative
negative_text : ℕ → String
negative_text n =
    "-"
    <> amount_text (
        rstrip b'.' (
          rstrip b'0' (
            show ((n + 999_999) / 1_000_000)
            ++ b'.' ∷ pad6 ((1_000_000 - n % 1_000_000) % 1_000_000))))

-- the text of total - used
unfoldable pub remaining_text : ℕ → ℕ → String
unfolding negative_text
remaining_text total used =
    if ltb total used then negative_text (used - total) else micro_text (total - used)
