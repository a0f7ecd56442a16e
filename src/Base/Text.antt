-- ===== src/Base/Text.antt =====
-- The parts of Python's `str` and `re` that the program uses, over code points.
use Prim.Native.Nat.{ℕ}
use Prim.Native.Char.{code}
use Prim.Native.String.{String}
use mathlib.Core.Bool.{Bool, false, ◌&&◌, ◌||◌}
use mathlib.Core.List.{List, [], ◌∷◌}
use aieos.Base.Numbers.{leb, nat_beq, all, length}

-- The code points of a text. `String` has its own `[]` and `∷`.
abbrev pub codes : String → List ℕ
codes String.[] = []
codes (String.◌∷◌ c s) = code c ∷ codes s

abbrev pub between : ℕ → ℕ → ℕ → Bool
between lo hi c = leb lo c && leb c hi

-- [0-9]
abbrev pub is_digit : ℕ → Bool
is_digit = between b'0' b'9'

-- [A-Za-z0-9]
abbrev pub is_alphanumeric : ℕ → Bool
is_alphanumeric c = between b'A' b'Z' c || between b'a' b'z' c || is_digit c

-- str.isspace of one character
abbrev pub is_space : ℕ → Bool
is_space c =
    between 9 13 c
    || between 28 32 c
    || nat_beq c 133
    || nat_beq c 160
    || nat_beq c 5760
    || between 8192 8202 c
    || between 8232 8233 c
    || nat_beq c 8239
    || nat_beq c 8287
    || nat_beq c 12288

-- `not text.strip()`
unfoldable pub is_blank : String → Bool
is_blank s = all is_space (codes s)

result_id_tail : List ℕ → Bool
result_id_tail rest =
    leb (length rest) 127 && all (λ c. is_alphanumeric c || nat_beq c b'_' || nat_beq c b'-') rest

-- re.fullmatch(r"[A-Za-z0-9][A-Za-z0-9_-]{0,127}", text)
matches_result_id : List ℕ → Bool
unfolding result_id_tail
matches_result_id [] = false
matches_result_id (c ∷ rest) = is_alphanumeric c && result_id_tail rest

unfoldable pub is_result_id : String → Bool
unfolding matches_result_id
is_result_id s = matches_result_id (codes s)
