-- ===== src/Card/Decimal.antt =====
-- `itoa` against the value of a decimal numeral.
use agentlens.Common.{
  ℕ, zero, suc, ◌+◌, ◌-◌, ◌*◌, ◌/◌, ◌%◌, ◌≤◌, ◌≡◌, sym, ap, subst, ◌∙◌, inl, inr, true, false, [],
  ◌∷◌, All, Bool-cases, ltb, eqb, Text, arith,
}
use agentlens.Card.{itoa_loop, itoa}

-- The number that a numeral stands for, after the number `acc`.
abbrev pub value_from : ℕ → Text → ℕ
value_from acc [] = acc
value_from acc (c ∷ cs) = value_from (acc * 10 + (c - 48)) cs

abbrev pub IsDigit : ℕ → Type 0
IsDigit c = (48 ≤ c) × (c ≤ 57)

loop_more :
    (fuel n : ℕ) (digits : Text)
    → ltb 0 n ≡ true
    → itoa_loop (suc fuel) n digits ≡ itoa_loop fuel (n / 10) ((48 + n % 10) ∷ digits)
unfolding itoa_loop
loop_more fuel n digits h = ground arith

loop_ends : (fuel n : ℕ) (digits : Text) → ltb 0 n ≡ false → itoa_loop (suc fuel) n digits ≡ digits
unfolding itoa_loop
loop_ends fuel n digits h = ground arith

itoa_loop_value :
    (fuel n : ℕ) (digits : Text)
    → n ≤ fuel
    → value_from 0 (itoa_loop fuel n digits) ≡ value_from n digits
unfolding itoa_loop
itoa_loop_value zero n digits h = ap (λ k. value_from k digits) (omega arith)
itoa_loop_value (suc fuel) n digits h = elim (Bool-cases (ltb 0 n)) [
  | inl more ↦
      ap (value_from 0) (loop_more fuel n digits more)
      ∙ itoa_loop_value fuel (n / 10) ((48 + n % 10) ∷ digits) (ground arith)
      ∙ ap (λ k. value_from k digits) (omega arith)
  | inr none_left ↦
      ap (value_from 0) (loop_ends fuel n digits none_left)
      ∙ ap (λ k. value_from k digits) (ground arith)
]

itoa_loop_digits :
    (fuel n : ℕ) (digits : Text) → All IsDigit digits → All IsDigit (itoa_loop fuel n digits)
unfolding itoa_loop
itoa_loop_digits zero n digits d = d
itoa_loop_digits (suc fuel) n digits d = elim (Bool-cases (ltb 0 n)) [
  | inl more ↦
      subst (All IsDigit) (sym (loop_more fuel n digits more))
        (itoa_loop_digits fuel (n / 10) ((48 + n % 10) ∷ digits) ((omega arith, omega arith), d))
  | inr none_left ↦ subst (All IsDigit) (sym (loop_ends fuel n digits none_left)) d
]

-- `itoa` writes decimal digits only, and the numeral that it writes stands for its argument.
pub itoa_value : (n : ℕ) → All IsDigit (itoa n) × (value_from 0 (itoa n) ≡ n)
unfolding itoa
itoa_value n = elim (Bool-cases (eqb n 0)) [
  | inl is_zero ↦ rw is_zero (((omega arith, omega arith), tt), ground arith)
  | inr positive ↦ rw positive (itoa_loop_digits n n [] tt, itoa_loop_value n n [] (omega arith))
]

pub itoa_inj : (m n : ℕ) → itoa m ≡ itoa n → m ≡ n
itoa_inj m n e = sym (itoa_value m).1 ∙ ap (value_from 0) e ∙ (itoa_value n).1
