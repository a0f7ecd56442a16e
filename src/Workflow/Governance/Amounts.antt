-- ===== src/Workflow/Governance/Amounts.antt =====
-- About `scale6` (governance.py).
use aieos.Base.{
  ℕ, zero, suc, ◌+◌, ◌-◌, ◌*◌, ◌≤◌, String, true, Option, some, none, List, [], ◌∷◌, nat_eq, ok,
  ◌≡◌, arith, length, leb, codes,
}
use aieos.Workflow.Governance.{
  partition_dot, is_whole, ends_nonzero, is_fraction, is_amount, digits_value, fraction_value,
  amount_value, scale6,
}

digits_value-le : (n : ℕ) (cs : List ℕ) → n ≤ digits_value n cs
unfolding digits_value
digits_value-le n [] = omega arith
digits_value-le n (c ∷ cs) = omega (arith, digits_value-le (n * 10 + (c - b'0')) cs)

whole_positive : (cs : List ℕ) → is_whole cs ≡ true → 1 ≤ digits_value 0 cs
unfolding is_whole digits_value
whole_positive [] h = cc
whole_positive (c ∷ cs) h = ground (arith, digits_value-le (0 * 10 + (c - b'0')) cs)

fraction_value-le : (places n : ℕ) (cs : List ℕ) → n ≤ fraction_value places n cs
unfolding fraction_value
fraction_value-le zero n cs = omega arith
fraction_value-le (suc p) n [] = omega (arith, fraction_value-le p (n * 10) [])
fraction_value-le (suc p) n (c ∷ cs) = omega (arith, fraction_value-le p (n * 10 + (c - b'0')) cs)

fraction_positive :
    (places n : ℕ) (cs : List ℕ)
    → ends_nonzero cs ≡ true
    → length cs ≤ places
    → 1 ≤ fraction_value places n cs
unfolding ends_nonzero fraction_value
fraction_positive places n [] h l = cc
fraction_positive zero n (c ∷ cs) h l = absurd (omega arith)
fraction_positive (suc p) n (c ∷ []) h l =
    ground (arith, fraction_value-le p (n * 10 + (c - b'0')) [])
fraction_positive (suc p) n (c ∷ d ∷ cs) h l =
    ground (arith, fraction_positive p (n * 10 + (c - b'0')) (d ∷ cs))

amount_positive :
    (parts : List ℕ × Option (List ℕ)) → is_amount parts ≡ true → 1 ≤ amount_value parts
unfolding is_amount amount_value is_fraction
amount_positive (whole, none) h = omega (arith, whole_positive whole h)
amount_positive (whole, some fraction) h =
    let f : (leb (length fraction) 6 ≡ true) × (ends_nonzero fraction ≡ true) = ground arith in
    omega (arith, fraction_positive 6 0 fraction f.1 (ground (arith, f.0)))

-- An amount that is accepted is at least a millionth: no spelling of zero passes.
pub scale6_positive : (s : String) (n : ℕ) → scale6 s ≡ ok n → 1 ≤ n
unfolding scale6
scale6_positive s n h = ground (arith, amount_positive (partition_dot (codes s)))
