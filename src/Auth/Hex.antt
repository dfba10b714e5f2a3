-- ===== src/Auth/Hex.antt =====
-- The texts of `hashToken` and `randomToken`: two hexadecimal digits for each byte.
use vpn_register_kit.Prelude.{
  ℕ, ◌*◌, ◌/◌, ◌%◌, ◌<◌, ◌≡◌, refl, sym, ap, ◌∙◌, Bool, true, ◌&&◌, ◌||◌, List, [], ◌∷◌, ◌++◌, Text,
  length, All, all, ltb, leb, arith, Bool-cases, inl, inr,
}
use vpn_register_kit.Js.Json.{hex_digit}
use vpn_register_kit.Js.Utf8.{utf8}
use vpn_register_kit.Runtime.{Runtime, IsRuntime}
use vpn_register_kit.Auth.{hex_byte, hex, hash_token, random_token}

abbrev pub Bytes : List ℕ → Type 0
Bytes bs = All (λ b. b < 256) bs

-- 0-9 and a-f
abbrev pub is_hex_unit : ℕ → Bool
is_hex_unit c = (leb b'0' c && leb c b'9') || (leb b'a' c && leb c b'f')

zero_digit : (b : ℕ) → b'0' ∷ hex_digit b ∷ [] ≡ hex_digit 0 ∷ hex_digit b ∷ []
unfolding hex_digit
zero_digit b = refl

hex_byte-two : (b : ℕ) → hex_byte b ≡ hex_digit (b / 16) ∷ hex_digit (b % 16) ∷ []
unfolding hex_byte
hex_byte-two b = elim (Bool-cases (ltb b 16)) [
  | inl low ↦
      let q : b / 16 ≡ 0 = ground arith in
      let r : b % 16 ≡ b = ground arith in rw (q, r, low) (zero_digit b)
  | inr high ↦ rw high
]

hex-cons : (b : ℕ) (bs : List ℕ) → hex (b ∷ bs) ≡ hex_digit (b / 16) ∷ hex_digit (b % 16) ∷ hex bs
unfolding hex
hex-cons b bs = ap (λ t. t ++ hex bs) (hex_byte-two b)

hex_digit-unit : (d : ℕ) → d < 16 → is_hex_unit (hex_digit d) ≡ true
unfolding hex_digit
hex_digit-unit d h = ground arith

hex_digit-injective : (a b : ℕ) → a < 16 → b < 16 → hex_digit a ≡ hex_digit b → a ≡ b
unfolding hex_digit
hex_digit-injective a b ha hb e = ground arith

-- Bytes are told apart by their hexadecimal text, which has two digits for each.
pub hex-injective : (as_ bs : List ℕ) → Bytes as_ → Bytes bs → hex as_ ≡ hex bs → as_ ≡ bs
unfolding hex
hex-injective [] [] ha hb e = refl
hex-injective [] (b ∷ bs) ha hb e = let e' = e ∙ hex-cons b bs in ground arith
hex-injective (a ∷ as_) [] ha hb e = let e' = sym (hex-cons a as_) ∙ e in ground arith
hex-injective (a ∷ as_) (b ∷ bs) (sa, ha) (sb, hb) e =
    let e' : hex_digit (a / 16) ∷ hex_digit (a % 16) ∷ hex as_
        ≡ hex_digit (b / 16) ∷ hex_digit (b % 16) ∷ hex bs =
      sym (hex-cons a as_) ∙ e ∙ hex-cons b bs in
    let high = hex_digit-injective (a / 16) (b / 16) (omega arith) (omega arith) (ground arith) in
    let low = hex_digit-injective (a % 16) (b % 16) (omega arith) (omega arith) (ground arith) in
    let same : a ≡ b = omega arith in
    let rest : as_ ≡ bs = hex-injective as_ bs ha hb (ground arith) in λ i. same i ∷ rest i

-- The hexadecimal text of bytes: its length, and its alphabet.
abbrev pub IsHexOf : ℕ → Text → Type 0
IsHexOf n t = (length t ≡ n) × (all is_hex_unit t ≡ true)

hex-IsHexOf : (bs : List ℕ) → Bytes bs → IsHexOf (2 * length bs) (hex bs)
unfolding hex
hex-IsHexOf [] h = (refl, refl)
hex-IsHexOf (b ∷ bs) (small, h) =
    let (len, units) = hex-IsHexOf bs h in
    let high = hex_digit-unit (b / 16) (omega arith) in
    let low = hex_digit-unit (b % 16) (omega arith) in
    rw (hex-cons b bs) (omega arith, ground arith)

-- A stored hash has 64 hexadecimal digits, and a drawn token has 48.
pub hash_token-IsHexOf :
    (rt : Runtime) (token : Text) (call : ℕ)
    → IsRuntime rt
    → IsHexOf 64 (hash_token rt token) × IsHexOf 48 (random_token rt call)
unfolding hash_token random_token
hash_token-IsHexOf rt token call r =
    let hash = hex-IsHexOf (rt.digest (utf8 token)) (r.digest_bytes (utf8 token)) in
    let drawn = hex-IsHexOf (rt.random_bytes call) (r.random_are_bytes call) in
    (rw (r.digest_length (utf8 token)) at hash, rw (r.random_length call) at drawn)
