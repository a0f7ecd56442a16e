-- ===== src/Workflow/Governance/Format/RoundTrip.antt =====
-- About the text of an amount, read back by `scale6` (governance.py).
use Prim.Native.Char.{Char, code}
use aieos.Base.{
  ℕ, zero, suc, ◌/◌, ◌%◌, ◌≤◌, ◌<◌, Bool, true, false, ◌||◌, Option, some, none, List, [], ◌∷◌,
  ◌++◌, ◌≡◌, refl, ap, sym, ◌∙◌, ◌⊎◌, inl, inr, arith, length, all, is_digit, nat_beq, nat_eq,
  if◌then◌else◌, codes, ok,
}
use aieos.Workflow.Governance.{
  partition_dot, digits_value, fraction_value, is_whole, ends_nonzero, is_fraction, is_amount,
  is_zero, amount_value, amount_digits, scale6,
}
use aieos.Workflow.Governance.Format.{
  show_fuel, show, pad6, rstrip, no_codes, micro_codes, micro_text, amount_text, amount_char,
}
use aieos.Workflow.Governance.Format.Digits.{
  show_value, show_digits, show_whole, show_length, fraction-rstrip, ends-rstrip, length-rstrip,
  pad6_value, pad6_digits,
}

-- the codes that an amount's text is made of
abbrev is_amount_code : ℕ → Bool
is_amount_code c = is_digit c || nat_beq c b'.'

code-if : (b : Bool) (x y : Char) → code (if b then x else y) ≡ (if b then code x else code y)
code-if true x y = refl
code-if false x y = refl

code-amount_char : (c : ℕ) → is_amount_code c ≡ true → code (amount_char c) ≡ c
unfolding amount_char
code-amount_char c h = simp (code-if) (ground arith)

codes-amount_text : (cs : List ℕ) → all is_amount_code cs ≡ true → codes (amount_text cs) ≡ cs
unfolding amount_text
codes-amount_text [] h = refl
codes-amount_text (c ∷ cs) h = ground (arith, code-amount_char c, codes-amount_text cs)

-- The text before the point has no zeros to strip once something stays behind it.
cons_codes : (xs : List ℕ) (d : ℕ) (ys : List ℕ) → no_codes (xs ++ d ∷ ys) ≡ false
cons_codes [] d ys = refl
cons_codes (x ∷ xs) d ys = refl

strip_front :
    (c : ℕ) (xs : List ℕ) (d : ℕ) (ys : List ℕ)
    → nat_beq d c ≡ false
    → rstrip c (xs ++ d ∷ ys) ≡ xs ++ d ∷ rstrip c ys
unfolding rstrip
strip_front c [] d ys h = ground arith
strip_front c (x ∷ xs) d ys h =
    ground (arith, strip_front c xs d ys h, cons_codes xs d (rstrip c ys))

strip_digits : (xs : List ℕ) → all is_digit xs ≡ true → rstrip b'.' xs ≡ xs
unfolding rstrip
strip_digits [] h = refl
strip_digits (x ∷ xs) h = ground (arith, strip_digits xs)

strip_point : (xs : List ℕ) → all is_digit xs ≡ true → rstrip b'.' (xs ++ b'.' ∷ []) ≡ xs
unfolding rstrip
strip_point [] h = refl
strip_point (x ∷ xs) h = ground (arith, strip_point xs)

partition_whole : (xs : List ℕ) → all is_digit xs ≡ true → partition_dot xs ≡ (xs, none)
unfolding partition_dot
partition_whole [] h = refl
partition_whole (x ∷ xs) h = ground (arith, partition_whole xs)

partition_point :
    (xs ys : List ℕ) → all is_digit xs ≡ true → partition_dot (xs ++ b'.' ∷ ys) ≡ (xs, some ys)
unfolding partition_dot
partition_point [] ys h = refl
partition_point (x ∷ xs) ys h = ground (arith, partition_point xs ys)

-- what is left of the six digits
abbrev fraction_codes : ℕ → List ℕ
fraction_codes c = rstrip b'0' (pad6 (c % 1_000_000))

all-rstrip : (p : ℕ → Bool) (c : ℕ) (xs : List ℕ) → all p xs ≡ true → all p (rstrip c xs) ≡ true
unfolding rstrip
all-rstrip p c [] h = refl
all-rstrip p c (x ∷ xs) h = ground (arith, all-rstrip p c xs)

rstrip_keeps :
    (c : ℕ) (xs ys : List ℕ)
    → rstrip c ys ≡ ys
    → no_codes ys ≡ false
    → (rstrip c (xs ++ ys) ≡ xs ++ ys) × (no_codes (xs ++ ys) ≡ false)
unfolding rstrip
rstrip_keeps c [] ys h k = (h, k)
rstrip_keeps c (x ∷ xs) ys h k = ground (arith, rstrip_keeps c xs ys h k)

point_keeps :
    (xs ys : List ℕ)
    → all is_digit ys ≡ true
    → ends_nonzero ys ≡ true
    → rstrip b'.' (xs ++ b'.' ∷ ys) ≡ xs ++ b'.' ∷ ys
unfolding ends_nonzero rstrip
point_keeps xs [] h e = cc
point_keeps xs (d ∷ ys) h e =
    (rstrip_keeps b'.' xs (b'.' ∷ d ∷ ys) (ground (arith, strip_digits (d ∷ ys) h)) refl).0

-- The text is a whole number, or a whole number, the point and a fraction that ends in no zero.
micro_shape :
    (c : ℕ)
    → ((micro_codes c ≡ show (c / 1_000_000)) × (fraction_codes c ≡ []))
      ⊎ ((micro_codes c ≡ show (c / 1_000_000) ++ b'.' ∷ fraction_codes c)
          × (ends_nonzero (fraction_codes c) ≡ true))
unfolding micro_codes show
micro_shape c =
    let w : List ℕ = show (c / 1_000_000) in
    let f : List ℕ = pad6 (c % 1_000_000) in
    let front : rstrip b'0' (w ++ b'.' ∷ f) ≡ w ++ b'.' ∷ fraction_codes c =
      strip_front b'0' w b'.' f refl in
    let digits : all is_digit w ≡ true = show_digits (c / 1_000_000) (c / 1_000_000) in
    elim (ends-rstrip f (pad6_digits (c % 1_000_000))) [
      | inl e ↦ inl (ap (rstrip b'.') (front ∙ ap (λ r. w ++ b'.' ∷ r) e) ∙ strip_point w digits, e)
      | inr e ↦ inr (
        ap (rstrip b'.') front
            ∙ point_keeps w (fraction_codes c)
                (all-rstrip is_digit b'0' f (pad6_digits (c % 1_000_000))) e,
        e,
      )
    ]

digits_codes : (xs : List ℕ) → all is_digit xs ≡ true → all is_amount_code xs ≡ true
digits_codes [] h = refl
digits_codes (x ∷ xs) h = ground (arith, digits_codes xs)

point_codes :
    (xs ys : List ℕ)
    → all is_digit xs ≡ true
    → all is_digit ys ≡ true
    → all is_amount_code (xs ++ b'.' ∷ ys) ≡ true
point_codes [] ys h k = digits_codes ys k
point_codes (x ∷ xs) ys h k = ground (arith, point_codes xs ys)

scale6_parts :
    (cs : List ℕ) (parts : List ℕ × Option (List ℕ)) (n : ℕ)
    → all is_amount_code cs ≡ true
    → partition_dot cs ≡ parts
    → is_amount parts ≡ true
    → amount_digits parts ≤ 18
    → amount_value parts ≡ n
    → scale6 (amount_text cs) ≡ ok n
unfolding scale6
scale6_parts cs parts n a p i d v = rw (codes-amount_text cs a, p, i) (ground arith)

show_amount : (w : ℕ) → (is_zero (show w) || is_whole (show w)) ≡ true
unfolding is_zero show show_fuel
show_amount zero = refl
show_amount (suc w) = ground (arith, show_whole (suc w) (suc w))

-- The text that an amount of micro-dollars is written as is read back as that amount.
pub scale6-micro_text :
    (c : ℕ) → 0 < c → c < 1_000_000_000_000_000_000 → scale6 (micro_text c) ≡ ok c
unfolding micro_text show is_amount amount_digits amount_value is_fraction fraction_value pad6
scale6-micro_text c p q =
    let w : ℕ = c / 1_000_000 in
    let f : ℕ = c % 1_000_000 in
    let digits : all is_digit (show w) ≡ true = show_digits w w in
    let value : digits_value 0 (show w) ≡ w = show_value w w (omega arith) in
    let short : length (show w) ≤ 12 = show_length w w 11 (omega arith) in
    let part : fraction_value 6 0 (fraction_codes c) ≡ f =
      fraction-rstrip 6 0 (pad6 f) ∙ pad6_value f (omega arith) in
    let fits : length (fraction_codes c) ≤ 6 = omega (arith, length-rstrip b'0' (pad6 f)) in
    let none_left : fraction_codes c ≡ [] → f ≡ 0 = λ n. sym part ∙ ap (fraction_value 6 0) n in
    elim (micro_shape c) [
      | inl (e, n) ↦ rw e (
          scale6_parts (show w) (show w, none) c (digits_codes (show w) digits)
            (partition_whole (show w) digits)
            (show_whole w w (omega arith) (omega (arith, none_left n))) (omega (arith, short))
            (omega (arith, value, none_left n)))
      | inr (e, n) ↦ rw e (
          scale6_parts (show w ++ b'.' ∷ fraction_codes c) (show w, some (fraction_codes c)) c
            (point_codes (show w) (fraction_codes c) digits
              (all-rstrip is_digit b'0' (pad6 f) (pad6_digits f)))
            (partition_point (show w) (fraction_codes c) digits)
            (ground (arith, show_amount w, n, fits)) (omega (arith, short, fits))
            (omega (arith, value, part)))
    ]
