-- ===== src/Workflow/Governance/Format/Digits.antt =====
-- About the digits of an amount's text.
use aieos.Base.{
  ℕ, zero, suc, ◌+◌, ◌*◌, ◌/◌, ◌-◌, ◌≤◌, ◌<◌, Bool, true, false, ◌&&◌, List, [], ◌∷◌, ◌++◌, ◌≡◌,
  refl, ◌⊎◌, inl, inr, arith, length, length-append, all, is_digit, nat_beq, Bool-cases,
}
use aieos.Workflow.Governance.{digits_value, fraction_value, is_whole, ends_nonzero}
use aieos.Workflow.Governance.Format.{digit, show_fuel, pad6, rstrip, no_codes}

abbrev pub pow10 : ℕ → ℕ
pow10 zero = 1
pow10 (suc k) = 10 * pow10 k

digits_value-append :
    (n d : ℕ) (xs : List ℕ) → digits_value n (xs ++ d ∷ []) ≡ digits_value n xs * 10 + (d - 48)
unfolding digits_value
digits_value-append n d [] = refl
digits_value-append n d (x ∷ xs) = digits_value-append (n * 10 + (x - 48)) d xs

pub show_value : (fuel n : ℕ) → n ≤ fuel → digits_value 0 (show_fuel fuel n) ≡ n
unfolding show_fuel digits_value
show_value zero n h = omega arith
show_value (suc fuel) n h =
    ground
      (arith, show_value fuel (n / 10), digits_value-append 0 (digit n) (show_fuel fuel (n / 10)))

all-append :
    (p : ℕ → Bool) (xs ys : List ℕ) → all p xs ≡ true → all p ys ≡ true → all p (xs ++ ys) ≡ true
all-append p [] ys h k = k
all-append p (x ∷ xs) ys h k = ground (arith, all-append p xs ys)

pub show_digits : (fuel n : ℕ) → all is_digit (show_fuel fuel n) ≡ true
unfolding show_fuel
show_digits zero n = ground arith
show_digits (suc fuel) n =
    ground (
      arith,
      all-append is_digit (show_fuel fuel (n / 10)) (digit n ∷ []),
      show_digits fuel (n / 10),
    )

whole-append :
    (xs : List ℕ) (d : ℕ) → is_whole xs ≡ true → is_digit d ≡ true → is_whole (xs ++ d ∷ []) ≡ true
unfolding is_whole
whole-append [] d h k = cc
whole-append (x ∷ xs) d h k = ground (arith, all-append is_digit xs (d ∷ []))

pub show_whole : (fuel n : ℕ) → n ≤ fuel → 0 < n → is_whole (show_fuel fuel n) ≡ true
unfolding show_fuel is_whole
show_whole zero n h k = absurd (omega arith)
show_whole (suc fuel) n h k =
    ground (arith, show_whole fuel (n / 10), whole-append (show_fuel fuel (n / 10)) (digit n))

pub show_length : (fuel n k : ℕ) → n < pow10 (suc k) → length (show_fuel fuel n) ≤ k + 1
unfolding show_fuel
show_length zero n k h = omega arith
show_length (suc fuel) n zero h = ground arith
show_length (suc fuel) n (suc k) h =
    ground
      (arith, show_length fuel (n / 10) k, length-append (show_fuel fuel (n / 10)) (digit n ∷ []))

pub no_codes-nil : (cs : List ℕ) → no_codes cs ≡ true → cs ≡ []
no_codes-nil [] h = refl
no_codes-nil (c ∷ cs) h = cc

-- Zeros at the end of a fraction do not count.
pub fraction-rstrip :
    (places n : ℕ) (cs : List ℕ)
    → fraction_value places n (rstrip b'0' cs) ≡ fraction_value places n cs
unfolding fraction_value rstrip
fraction-rstrip places n [] = refl
fraction-rstrip zero n (c ∷ cs) = refl
fraction-rstrip (suc places) n (c ∷ cs) =
    elim (Bool-cases (nat_beq c b'0' && no_codes (rstrip b'0' cs))) [
      | inl p ↦
          rw p (ground (arith, fraction-rstrip places (n * 10) cs, no_codes-nil (rstrip b'0' cs)))
      | inr p ↦ rw p (fraction-rstrip places (n * 10 + (c - b'0')) cs)
    ]

cons_ends :
    (c : ℕ) (r : List ℕ)
    → is_digit c ≡ true
    → (nat_beq c b'0' && no_codes r) ≡ false
    → (r ≡ []) ⊎ (ends_nonzero r ≡ true)
    → ends_nonzero (c ∷ r) ≡ true
unfolding ends_nonzero
cons_ends c [] d p e = ground arith
cons_ends c (x ∷ r) d p (inl e) = cc
cons_ends c (x ∷ r) d p (inr e) = ground arith

pub ends-rstrip :
    (cs : List ℕ)
    → all is_digit cs ≡ true
    → (rstrip b'0' cs ≡ []) ⊎ (ends_nonzero (rstrip b'0' cs) ≡ true)
unfolding ends_nonzero rstrip
ends-rstrip [] h = inl refl
ends-rstrip (c ∷ cs) h = elim (Bool-cases (nat_beq c b'0' && no_codes (rstrip b'0' cs))) [
  | inl p ↦ inl (rw p refl)
  | inr p ↦
      inr (rw p (cons_ends c (rstrip b'0' cs) (ground arith) p (ends-rstrip cs (ground arith))))
]

pub length-rstrip : (c : ℕ) (cs : List ℕ) → length (rstrip c cs) ≤ length cs
unfolding rstrip
length-rstrip c [] = omega arith
length-rstrip c (x ∷ xs) = ground (arith, length-rstrip c xs)

pub pad6_value : (n : ℕ) → n < 1_000_000 → fraction_value 6 0 (pad6 n) ≡ n
unfolding fraction_value pad6
pad6_value n h = omega arith

pub pad6_digits : (n : ℕ) → all is_digit (pad6 n) ≡ true
unfolding pad6
pad6_digits n = ground arith
