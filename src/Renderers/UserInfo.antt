-- ===== src/Renderers/UserInfo.antt =====
-- The user info of a Shadowsocks link: base64 in the alphabet of URLs, without padding.
use vpn_register_kit.Prelude.{
  ℕ, ◌+◌, ◌-◌, ◌*◌, ◌/◌, ◌%◌, ◌<◌, ◌≡◌, refl, sym, ap, ◌∙◌, true, false, List, [], ◌∷◌, Text,
  replace_all, all, ltb, ◌==◌, leb, arith, if◌then◌else◌, Bool-cases, inl, inr,
}
use vpn_register_kit.Js.Base64.{base64_digit, base64_bytes, is_latin1, btoa}
use vpn_register_kit.Js.Result.{Thrown, Result, ok, err, fault, bad_character}
use vpn_register_kit.Renderers.Common.{base64_encode, base64_url_encode}

-- The value of a digit of the alphabet of URLs.
abbrev pub digit_value : ℕ → ℕ
digit_value c =
    if c == b'-'
    then 62
    else if c == b'_'
    then 63
    else if leb b'a' c
    then c - 71
    else if leb b'A' c
    then c - b'A'
    else c + 4

-- A reader of base64 in the alphabet of URLs, without padding.
pub read_base64_url : Text → List ℕ
read_base64_url [] = []
read_base64_url (p ∷ []) = []
read_base64_url (p ∷ q ∷ []) = (digit_value p * 4 + digit_value q / 16) ∷ []
read_base64_url (p ∷ q ∷ r ∷ []) =
    (digit_value p * 4 + digit_value q / 16) ∷ (digit_value q % 16 * 16 + digit_value r / 4) ∷ []
read_base64_url (p ∷ q ∷ r ∷ s ∷ t) =
    (digit_value p * 4 + digit_value q / 16)
    ∷ (digit_value q % 16 * 16 + digit_value r / 4)
    ∷ (digit_value r % 4 * 64 + digit_value s)
    ∷ read_base64_url t

abbrev url_text : Text → Text
url_text t = replace_all b'=' [] (replace_all b'/' (b'_' ∷ []) (replace_all b'+' (b'-' ∷ []) t))

abbrev url_digit : ℕ → ℕ
url_digit d = let c = base64_digit d in if c == b'+' then b'-' else if c == b'/' then b'_' else c

url_text-digit :
    (d : ℕ) (t : Text) → d < 64 → url_text (base64_digit d ∷ t) ≡ url_digit d ∷ url_text t
unfolding replace_all base64_digit
url_text-digit d t h = ground arith

digit_value-url_digit : (d : ℕ) → d < 64 → digit_value (url_digit d) ≡ d
unfolding base64_digit
digit_value-url_digit d h = ground arith

-- Three bytes as four digits, and back.
first_byte : (a b : ℕ) → b < 256 → a / 4 * 4 + (a % 4 * 16 + b / 16) / 16 ≡ a
first_byte a b h = omega arith

second_byte :
    (a b c : ℕ)
    → b < 256
    → c < 256
    → (a % 4 * 16 + b / 16) % 16 * 16 + (b % 16 * 4 + c / 64) / 4 ≡ b
second_byte a b c hb hc = omega arith

third_byte : (b c : ℕ) → c < 256 → (b % 16 * 4 + c / 64) % 4 * 64 + c % 64 ≡ c
third_byte b c h = omega arith

abbrev Bytes : List ℕ → Type 0
Bytes bs = all (λ b. ltb b 256) bs ≡ true

-- The digits of three bytes in front of a text.
url_text-four :
    (p q r s : ℕ) (t : Text)
    → p < 64
    → q < 64
    → r < 64
    → s < 64
    → url_text (base64_digit p ∷ base64_digit q ∷ base64_digit r ∷ base64_digit s ∷ t)
      ≡ url_digit p ∷ url_digit q ∷ url_digit r ∷ url_digit s ∷ url_text t
url_text-four p q r s t hp hq hr hs =
    url_text-digit p _ hp
    ∙ ap (λ x. url_digit p ∷ x)
        (url_text-digit q _ hq
          ∙ ap (λ x. url_digit q ∷ x)
              (url_text-digit r _ hr ∙ ap (λ x. url_digit r ∷ x) (url_text-digit s _ hs)))

read_base64_url-four :
    (p q r s : ℕ) (t : Text)
    → p < 64
    → q < 64
    → r < 64
    → s < 64
    → read_base64_url (url_digit p ∷ url_digit q ∷ url_digit r ∷ url_digit s ∷ t)
      ≡ (p * 4 + q / 16) ∷ (q % 16 * 16 + r / 4) ∷ (r % 4 * 64 + s) ∷ read_base64_url t
unfolding read_base64_url
read_base64_url-four p q r s t hp hq hr hs =
    let ep = digit_value-url_digit p hp in
    let eq = digit_value-url_digit q hq in
    let er = digit_value-url_digit r hr in
    let es = digit_value-url_digit s hs in
    λ i.
      (ep i * 4 + eq i / 16)
      ∷ (eq i % 16 * 16 + er i / 4)
      ∷ (er i % 4 * 64 + es i)
      ∷ read_base64_url t

nothing : read_base64_url (url_text []) ≡ []
unfolding replace_all read_base64_url
nothing = refl

padding : (url_text (b'=' ∷ []) ≡ []) × (url_text (b'=' ∷ b'=' ∷ []) ≡ [])
unfolding replace_all
padding = (refl, refl)

-- One byte, padded.
one_byte : (a : ℕ) → a < 256 → read_base64_url (url_text (base64_bytes (a ∷ []))) ≡ a ∷ []
unfolding base64_bytes read_base64_url
one_byte a h =
    let p : a / 4 < 64 = omega arith in
    let q : a % 4 * 16 < 64 = omega arith in
    let ep = digit_value-url_digit (a / 4) p in
    let eq = digit_value-url_digit (a % 4 * 16) q in
    let whole : a / 4 * 4 + a % 4 * 16 / 16 ≡ a = omega arith in
    ap read_base64_url (
      url_text-digit (a / 4) _ p
      ∙ ap (λ x. url_digit (a / 4) ∷ x)
          (url_text-digit (a % 4 * 16) _ q ∙ ap (λ x. url_digit (a % 4 * 16) ∷ x) padding.1))
    ∙ (λ i. (ep i * 4 + eq i / 16) ∷ [])
    ∙ (λ i. whole i ∷ [])

-- Two bytes, padded.
two_bytes :
    (a b : ℕ)
    → a < 256
    → b < 256
    → read_base64_url (url_text (base64_bytes (a ∷ b ∷ []))) ≡ a ∷ b ∷ []
unfolding base64_bytes read_base64_url
two_bytes a b ha hb =
    let p : a / 4 < 64 = omega arith in
    let q : a % 4 * 16 + b / 16 < 64 = omega arith in
    let r : b % 16 * 4 < 64 = omega arith in
    let ep = digit_value-url_digit (a / 4) p in
    let eq = digit_value-url_digit (a % 4 * 16 + b / 16) q in
    let er = digit_value-url_digit (b % 16 * 4) r in
    let second : (a % 4 * 16 + b / 16) % 16 * 16 + b % 16 * 4 / 4 ≡ b = omega arith in
    ap read_base64_url (
      url_text-digit (a / 4) _ p
      ∙ ap (λ x. url_digit (a / 4) ∷ x)
          (url_text-digit (a % 4 * 16 + b / 16) _ q
            ∙ ap (λ x. url_digit (a % 4 * 16 + b / 16) ∷ x)
                (url_text-digit (b % 16 * 4) _ r ∙ ap (λ x. url_digit (b % 16 * 4) ∷ x) padding.0)))
    ∙ (λ i. (ep i * 4 + eq i / 16) ∷ (eq i % 16 * 16 + er i / 4) ∷ [])
    ∙ (λ i. first_byte a b hb i ∷ second i ∷ [])

-- What the reader makes of the digits of some bytes is the bytes.
read_base64_url-base64_bytes :
    (bs : List ℕ) → Bytes bs → read_base64_url (url_text (base64_bytes bs)) ≡ bs
unfolding base64_bytes
read_base64_url-base64_bytes [] h = nothing
read_base64_url-base64_bytes (a ∷ []) h = one_byte a (ground arith)
read_base64_url-base64_bytes (a ∷ b ∷ []) h = two_bytes a b (ground arith) (ground arith)
read_base64_url-base64_bytes (a ∷ b ∷ c ∷ bs) h =
    let ha : a < 256 = ground arith in
    let hb : b < 256 = ground arith in
    let hc : c < 256 = ground arith in
    let rest = read_base64_url-base64_bytes bs (ground arith) in
    let p : a / 4 < 64 = omega arith in
    let q : a % 4 * 16 + b / 16 < 64 = omega arith in
    let r : b % 16 * 4 + c / 64 < 64 = omega arith in
    let s : c % 64 < 64 = omega arith in
    ap read_base64_url (url_text-four _ _ _ _ (base64_bytes bs) p q r s)
    ∙ read_base64_url-four _ _ _ _ (url_text (base64_bytes bs)) p q r s
    ∙ (λ i. first_byte a b hb i ∷ second_byte a b c hb hc i ∷ third_byte b c hc i ∷ rest i)

encoded_latin1 :
    (t : Text) → is_latin1 t ≡ true → base64_url_encode t ≡ ok (url_text (base64_bytes t))
unfolding base64_url_encode base64_encode btoa
encoded_latin1 t h = rw h

encoded_wide : (t : Text) → is_latin1 t ≡ false → base64_url_encode t ≡ err (fault bad_character)
unfolding base64_url_encode base64_encode btoa
encoded_wide t h = rw h

ok_text : {a b : Text} → ◌≡◌ {A = Result Text} (ok a) (ok b) → a ≡ b
ok_text h = cc

not_ok : {e : Thrown} {a : Text} → ◌≡◌ {A = Result Text} (err e) (ok a) → ⊥
not_ok h = cc

-- `base64UrlEncode` returns exactly on the texts whose units are all below 256, and a reader of
-- base64 in the alphabet of URLs, without padding, reads the text back from what it returns.
pub base64_url_encode_lem :
    (t : Text)
    → ((u : Text) → base64_url_encode t ≡ ok u → (is_latin1 t ≡ true) × (read_base64_url u ≡ t))
      × (is_latin1 t ≡ true → (u : Text) × (base64_url_encode t ≡ ok u))
base64_url_encode_lem t = (
  λ u e. elim (Bool-cases (is_latin1 t)) [
    | inl latin ↦ (
      latin,
      ap read_base64_url (ok_text (sym e ∙ encoded_latin1 t latin))
          ∙ read_base64_url-base64_bytes t latin,
    )
    | inr wide ↦ absurd (not_ok (sym (encoded_wide t wide) ∙ e))
  ],
  λ latin. (_, encoded_latin1 t latin),
)
