-- ===== src/Js/Base64.antt =====
-- `btoa`: a unit above 255 is an InvalidCharacterError, none.
use vpn_register_kit.Prelude.{
  ℕ, ◌+◌, ◌-◌, ◌*◌, ◌/◌, ◌%◌, Bool, List, [], ◌∷◌, Option, none, some, Text, ltb, all, ◌==◌,
  if◌then◌else◌,
}

unfoldable pub base64_digit : ℕ → ℕ
base64_digit d =
    if ltb d 26
    then d + b'A'
    else if ltb d 52
    then d + 71
    else if ltb d 62
    then d - 52 + b'0'
    else if d == 62
    then b'+'
    else b'/'

unfoldable pub base64_bytes : List ℕ → Text
unfolding base64_digit
base64_bytes [] = []
base64_bytes (a ∷ []) = base64_digit (a / 4) ∷ base64_digit (a % 4 * 16) ∷ b'=' ∷ b'=' ∷ []
base64_bytes (a ∷ b ∷ []) =
    base64_digit (a / 4)
    ∷ base64_digit (a % 4 * 16 + b / 16)
    ∷ base64_digit (b % 16 * 4)
    ∷ b'='
    ∷ []
base64_bytes (a ∷ b ∷ c ∷ bs) =
    base64_digit (a / 4)
    ∷ base64_digit (a % 4 * 16 + b / 16)
    ∷ base64_digit (b % 16 * 4 + c / 64)
    ∷ base64_digit (c % 64)
    ∷ base64_bytes bs

abbrev pub is_latin1 : Text → Bool
is_latin1 s = all (λ c. ltb c 256) s

unfoldable pub btoa : Text → Option Text
unfolding base64_bytes
btoa s = if is_latin1 s then some (base64_bytes s) else none
