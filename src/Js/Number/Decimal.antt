-- ===== src/Js/Number/Decimal.antt =====
-- The digits that `String(n)` writes are those of n; the fuel of `decimal` is enough.
use mathlib.Core.List.{reverse, reverse-reverse}
use vpn_register_kit.Prelude.{
  ℕ, zero, suc, ◌+◌, ◌-◌, ◌*◌, ◌/◌, ◌%◌, ◌<◌, ◌≡◌, refl, ap, ◌∙◌, Bool, true, [], ◌∷◌, Text, ltb,
  arith, Bool-cases, inl, inr, all, all-reverse,
}
use vpn_register_kit.Js.Number.{decimal_from, decimal}

-- The value of decimal digits, the last first.
abbrev pub digits_value : Text → ℕ
digits_value [] = 0
digits_value (c ∷ s) = (c - b'0') + 10 * digits_value s

-- The value of a decimal text.
abbrev pub read_decimal : Text → ℕ
read_decimal t = digits_value (reverse t)

digits_value-decimal_from : (fuel n : ℕ) → n < fuel → digits_value (decimal_from fuel n) ≡ n
unfolding decimal_from
digits_value-decimal_from zero n h = omega arith
digits_value-decimal_from (suc fuel) n h = elim (Bool-cases (ltb n 10)) [
  | inl small ↦ rw small (ground arith)
  | inr large ↦
      let rest = digits_value-decimal_from fuel (n / 10) (ground arith) in
      rw large (omega (arith, rest))
]

-- A reader of decimals reads the text of a number back.
pub read_decimal-decimal : (n : ℕ) → read_decimal (decimal n) ≡ n
unfolding decimal
read_decimal-decimal n =
    ap digits_value (reverse-reverse (decimal_from (suc n) n))
    ∙ digits_value-decimal_from (suc n) n (omega arith)

-- A test that holds of the ten digits holds of every unit of a decimal.
module _ (p : ℕ → Bool) (digits : (d : ℕ) → d < 10 → p (d + b'0') ≡ true) where
  all-decimal_from : (fuel n : ℕ) → all p (decimal_from fuel n) ≡ true
  unfolding decimal_from
  all-decimal_from zero n = refl
  all-decimal_from (suc fuel) n =
      ground (arith, digits (n % 10) (omega arith), all-decimal_from fuel (n / 10))

  pub all-decimal : (n : ℕ) → all p (decimal n) ≡ true
  unfolding decimal
  all-decimal n = all-reverse p (decimal_from (suc n) n) (all-decimal_from (suc n) n)
