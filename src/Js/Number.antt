-- ===== src/Js/Number.antt =====
-- Numbers as decimals: a sign, a whole part and the digits behind the point. Rounding to doubles,
-- infinities and exponents are left out.
pub mod Decimal
use mathlib.Core.List.{reverse}
use vpn_register_kit.Prelude.{
  ℕ, zero, suc, ◌+◌, ◌/◌, ◌%◌, ◌<◌, ◌≡◌, refl, Bool, true, false, not, ◌&&◌, ◌||◌, List, [], ◌∷◌,
  ◌++◌, Text, is_empty, ltb, leb, ◌==◌, if◌then◌else◌, arith, codes,
}

pub record Number : Type 0 where
  pub negative : Bool
  pub whole : ℕ
  -- the digits, as units; none ends in '0'
  pub fraction : Text

abbrev pub natural : ℕ → Number
natural n = record { negative = false; whole = n; fraction = [] }

unfoldable pub is_zero : Number → Bool
is_zero n = (n.whole == 0) && is_empty n.fraction

-- `Number.isInteger(n)`
unfoldable pub is_integer : Number → Bool
is_integer n = is_empty n.fraction

-- `n === k` and `n > k`, of a natural number k
unfoldable pub equals_natural : Number → ℕ → Bool
unfolding is_zero
equals_natural n k = is_empty n.fraction && (n.whole == k) && (not n.negative || is_zero n)

unfoldable pub exceeds_natural : Number → ℕ → Bool
exceeds_natural n k =
    not n.negative && (ltb k n.whole || ((n.whole == k) && not (is_empty n.fraction)))

-- `n < k`, of a positive k
unfoldable pub below_natural : Number → ℕ → Bool
below_natural n k = n.negative || ltb n.whole k

-- The decimal digits of n, the last first; fuel above n is enough.
decimal_from : ℕ → ℕ → Text
decimal_from zero n = []
decimal_from (suc fuel) n =
    let rest = decimal_from fuel (n / 10) in
    let digit = n % 10 + b'0' in if ltb n 10 then digit ∷ [] else digit ∷ rest

unfoldable pub decimal : ℕ → Text
unfolding decimal_from
decimal n = reverse (decimal_from (suc n) n)

-- `String(n)`: zero has no sign
unfoldable pub number_text : Number → Text
unfolding is_zero
number_text n =
    let sign : Text = if n.negative && not (is_zero n) then codes "-" else [] in
    let point : Text = if is_empty n.fraction then [] else codes "." ++ n.fraction in
    sign ++ (decimal n.whole ++ point)
