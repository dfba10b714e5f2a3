-- ===== src/Js/Utf8.antt =====
-- `new TextEncoder().encode(s)`: UTF-8, where half a surrogate pair becomes U+FFFD.
use vpn_register_kit.Prelude.{
  ℕ, ◌+◌, ◌-◌, ◌*◌, ◌/◌, ◌%◌, ◌&&◌, List, [], ◌∷◌, ◌++◌, ◌||◌, Text, ltb, if◌then◌else◌,
}
use vpn_register_kit.Js.Json.{is_high, is_low}

-- The bytes of one code point.
unfoldable pub encode_point : ℕ → List ℕ
encode_point c =
    if ltb c 0x80
    then c ∷ []
    else if ltb c 0x800
    then (0xc0 + c / 64) ∷ (0x80 + c % 64) ∷ []
    else if ltb c 0x10000
    then (0xe0 + c / 4096) ∷ (0x80 + c / 64 % 64) ∷ (0x80 + c % 64) ∷ []
    else (0xf0 + c / 262144) ∷ (0x80 + c / 4096 % 64) ∷ (0x80 + c / 64 % 64) ∷ (0x80 + c % 64) ∷ []

abbrev pub pair_point : ℕ → ℕ → ℕ
pair_point high low = 0x10000 + (high - 0xd800) * 1024 + (low - 0xdc00)

abbrev lone_point : ℕ → ℕ
lone_point c = if is_high c || is_low c then 0xfffd else c

unfoldable pub utf8 : Text → List ℕ
unfolding encode_point is_high is_low
utf8 [] = []
utf8 (c ∷ []) = encode_point (lone_point c)
utf8 (c ∷ d ∷ s) =
    let pair = encode_point (pair_point c d) ++ utf8 s in
    let single = encode_point (lone_point c) ++ utf8 (d ∷ s) in
    if is_high c && is_low d then pair else single
