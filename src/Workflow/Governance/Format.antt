-- ===== src/Workflow/Governance/Format.antt =====
-- governance.py: the text of an amount of micro-dollars, and `admission_binding`. Texts are code
-- points until they are complete.
pub mod Digits
pub mod RoundTrip
use aieos.Base.{
  ℕ, zero, suc, ◌+◌, ◌/◌, ◌%◌, String, Bool, true, false, ◌&&◌, List, [], ◌∷◌, ◌++◌, ◌==◌, nat_eq,
  ltb, nat_beq, if◌then◌else◌,
}
use Prim.Native.Char.{Char}

abbrev pub digit : ℕ → ℕ
digit n = 48 + n % 10

-- the decimal digits of a number; `fuel` is at least the number
unfoldable pub show_fuel : ℕ → ℕ → List ℕ
show_fuel zero n = digit n ∷ []
show_fuel (suc fuel) n =
    let rest = show_fuel fuel (n / 10) in if ltb n 10 then digit n ∷ [] else rest ++ digit n ∷ []

unfoldable pub show : ℕ → List ℕ
show n = show_fuel n n

-- f"{n:06d}" of a number below a million
unfoldable pub pad6 : ℕ → List ℕ
pad6 n =
    digit (n / 100_000)
    ∷ digit (n / 10_000)
    ∷ digit (n / 1_000)
    ∷ digit (n / 100)
    ∷ digit (n / 10)
    ∷ digit n
    ∷ []

abbrev pub no_codes : List ℕ → Bool
no_codes [] = true
no_codes (_ ∷ _) = false

-- text.rstrip(c)
unfoldable pub rstrip : ℕ → List ℕ → List ℕ
rstrip c [] = []
rstrip c (x ∷ xs) = let rest = rstrip c xs in if nat_beq x c && no_codes rest then [] else x ∷ rest

-- f"{c // 1_000_000}.{c % 1_000_000:06d}".rstrip("0").rstrip(".")
unfoldable pub micro_codes : ℕ → List ℕ
micro_codes c = rstrip b'.' (rstrip b'0' (show (c / 1_000_000) ++ b'.' ∷ pad6 (c % 1_000_000)))

-- the character of a digit; any other code is the point's
amount_char : ℕ → Char
amount_char c =
    if nat_beq c 48
    then "0"
    else if nat_beq c 49
    then "1"
    else if nat_beq c 50
    then "2"
    else if nat_beq c 51
    then "3"
    else if nat_beq c 52
    then "4"
    else if nat_beq c 53
    then "5"
    else if nat_beq c 54
    then "6"
    else if nat_beq c 55
    then "7"
    else if nat_beq c 56
    then "8"
    else if nat_beq c 57
    then "9"
    else "."

unfoldable pub amount_text : List ℕ → String
unfolding amount_char
amount_text [] = String.[]
amount_text (c ∷ cs) = String.◌∷◌ (amount_char c) (amount_text cs)

unfoldable pub micro_text : ℕ → String
micro_text c = amount_text (micro_codes c)
