-- ===== src/Js/Decode/RoundTrip.antt =====
-- `decodeURIComponent` reads back what `encodeURIComponent` writes.
use vpn_register_kit.Prelude.{
  ℕ, ◌+◌, ◌-◌, ◌*◌, ◌/◌, ◌%◌, ◌<◌, ◌≤◌, ◌≡◌, refl, sym, ap, ◌∙◌, Bool, true, false, ◌&&◌, ◌||◌,
  List, [], ◌∷◌, ◌++◌, Option, none, some, Text, codes, includes_unit, ltb, ◌==◌, all, arith,
  if◌then◌else◌, Bool-cases, inl, inr,
}
use mathlib.Core.List.{append-nil, append_assoc}
use vpn_register_kit.Js.Json.{is_high, is_low}
use vpn_register_kit.Js.Utf8.{encode_point, pair_point}
use vpn_register_kit.Js.Uri.{
  is_word_unit, is_unreserved, upper_digit, percent, percent_all, encode_uri_component,
}
use vpn_register_kit.Js.Decode.{
  digit_value, Token, plain, octet, cons_token, tokens, units, next, prepend, read_points,
  points_of, decode_uri_component,
}
use vpn_register_kit.Js.Decode.Points.{
  is_scalar, prepend_octets, encode_point-bytes, points_of-point,
}

digit_value-upper_digit : (d : ℕ) → d < 16 → digit_value (upper_digit d) ≡ some d
unfolding digit_value upper_digit
digit_value-upper_digit d h = ground arith

abbrev are_bytes : List ℕ → Bool
are_bytes = all (λ b. ltb b 256)

tokens-percent :
    (b : ℕ) (s : Text)
    → ltb b 256 ≡ true
    → tokens (percent b ++ s) ≡ cons_token (octet b) (tokens s)
unfolding tokens percent
tokens-percent b s h =
    let high = digit_value-upper_digit (b / 16) (ground arith) in
    let low = digit_value-upper_digit (b % 16) (ground arith) in
    let whole : b / 16 * 16 + b % 16 ≡ b = omega arith in rw (high, low, whole)

tokens-percent_all :
    (bs : List ℕ) (s : Text)
    → are_bytes bs ≡ true
    → tokens (percent_all bs ++ s) ≡ prepend_octets bs (tokens s)
unfolding percent_all
tokens-percent_all [] s h = refl
tokens-percent_all (b ∷ bs) s h =
    ap tokens (append_assoc (percent b) (percent_all bs) s)
    ∙ tokens-percent b (percent_all bs ++ s) (ground arith)
    ∙ ap (cons_token (octet b)) (tokens-percent_all bs s (ground arith))

tokens-plain :
    (c : ℕ) (s : Text) → c == b'%' ≡ false → tokens (c ∷ s) ≡ cons_token (plain c) (tokens s)
unfolding tokens
tokens-plain c [] h = rw h
tokens-plain c (d ∷ []) h = rw h
tokens-plain c (d ∷ e ∷ s) h = rw h

unreserved_unit : (c : ℕ) → is_unreserved c ≡ true → c == b'%' ≡ false
unfolding is_unreserved is_word_unit includes_unit codes
unreserved_unit c h = ground arith

prepend-some :
    (x : Text) (o : Option Text) (t : Text)
    → prepend x o ≡ some t
    → (t' : Text) × (o ≡ some t') × (x ++ t' ≡ t)
prepend-some x none t h = absurd (cc)
prepend-some x (some t') t h = (t', refl, cc)

abbrev are_units : Text → Bool
are_units = all (λ c. ltb c 0x10000)

-- What is written for a code point is read as its units.
point_step :
    (v : ℕ) (t s : Text)
    → is_scalar v ≡ true
    → decode_uri_component t ≡ some s
    → decode_uri_component (percent_all (encode_point v) ++ t) ≡ some (units v ++ s)
unfolding decode_uri_component
point_step v t s scalar h =
    ap points_of (tokens-percent_all (encode_point v) t (encode_point-bytes v (ground arith)))
    ∙ points_of-point v (tokens t) scalar
    ∙ ap (prepend (units v)) h

points_of-plain :
    (c : ℕ) (o : Option (List Token))
    → points_of (cons_token (plain c) o) ≡ prepend (c ∷ []) (points_of o)
unfolding read_points next
points_of-plain c none = refl
points_of-plain c (some ts) = refl

plain_step :
    (c : ℕ) (t s : Text)
    → is_unreserved c ≡ true
    → decode_uri_component t ≡ some s
    → decode_uri_component (c ∷ t) ≡ some (c ∷ s)
unfolding decode_uri_component
plain_step c t s h d =
    ap points_of (tokens-plain c t (unreserved_unit c h))
    ∙ points_of-plain c (tokens t)
    ∙ ap (prepend (c ∷ [])) d

one_unit : (c : ℕ) → ltb c 0x10000 ≡ true → units c ≡ c ∷ []
unfolding units
one_unit c h = rw h

whole_point : (c : ℕ) → ltb c 0x10000 ≡ true → is_high c || is_low c ≡ false → is_scalar c ≡ true
unfolding is_high is_low
whole_point c small whole = ground arith

pair_units :
    (c d : ℕ)
    → is_high c && is_low d ≡ true
    → (is_scalar (pair_point c d) ≡ true) × (units (pair_point c d) ≡ c ∷ d ∷ [])
unfolding is_high is_low units
pair_units c d h =
    let c_low : 0xd800 ≤ c = ground arith in
    let c_high : c ≤ 0xdbff = ground arith in
    let d_low : 0xdc00 ≤ d = ground arith in
    let d_high : d ≤ 0xdfff = ground arith in
    let wide : ltb (pair_point c d) 0x10000 ≡ false = ground arith in
    let first : 0xd800 + (pair_point c d - 0x10000) / 1024 ≡ c = omega arith in
    let second : 0xdc00 + (pair_point c d - 0x10000) % 1024 ≡ d = omega arith in
    (ground arith, rw (wide, first, second))

-- A unit that is no half of a pair.
unit_step :
    (c : ℕ) (t s : Text)
    → ltb c 0x10000 ≡ true
    → is_high c || is_low c ≡ false
    → decode_uri_component t ≡ some s
    → decode_uri_component ((if is_unreserved c then c ∷ [] else percent_all (encode_point c)) ++ t)
      ≡ some (c ∷ s)
unit_step c t s small whole d = elim (Bool-cases (is_unreserved c)) [
  | inl free ↦ rw (free) (plain_step c t s free d)
  | inr escaped ↦
      rw (escaped) (
        point_step c t s (whole_point c small whole) d ∙ ap (λ u. some (u ++ s)) (one_unit c small))
]

decode_nil : decode_uri_component [] ≡ some []
unfolding decode_uri_component tokens read_points
decode_nil = refl

is_written : (x t : Text) → ◌≡◌ {A = Option Text} (some x) (some t) → x ≡ t
is_written x t e = cc

nothing_written : {t : Text} → ◌≡◌ {A = Option Text} none (some t) → ⊥
nothing_written e = cc

-- What `encodeURIComponent` writes for a text of UTF-16 units, `decodeURIComponent` reads back.
pub decode_uri_component-encode :
    (s t : Text)
    → all (λ c. ltb c 0x10000) s ≡ true
    → encode_uri_component s ≡ some t
    → decode_uri_component t ≡ some s
unfolding encode_uri_component
decode_uri_component-encode [] t u h =
    ap decode_uri_component (sym (is_written [] t h)) ∙ decode_nil
decode_uri_component-encode (c ∷ []) t u h = elim (Bool-cases (is_high c || is_low c)) [
  | inl half ↦ absurd (nothing_written {t = t} (rw half at h))
  | inr whole ↦
      ap decode_uri_component (sym (is_written _ t (rw whole at h)) ∙ sym (append-nil _))
      ∙ unit_step c [] [] (ground arith) whole decode_nil
]
decode_uri_component-encode (c ∷ d ∷ s) t u h = elim (Bool-cases (is_high c && is_low d)) [
  | inl pair ↦
      let (t', rest, parts) = prepend-some _ (encode_uri_component s) t (rw pair at h) in
      let (scalar, is_pair) = pair_units c d pair in
      ap decode_uri_component (sym parts)
      ∙ point_step (pair_point c d) t' s scalar
          (decode_uri_component-encode s t' (ground arith) rest)
      ∙ ap (λ x. some (x ++ s)) is_pair
  | inr single ↦ elim (Bool-cases (is_high c || is_low c)) [
    | inl half ↦ absurd (nothing_written {t = t} (rw (single, half) at h))
    | inr whole ↦
        let (t', rest, parts) =
          prepend-some _ (encode_uri_component (d ∷ s)) t (rw (single, whole) at h) in
        ap decode_uri_component (sym parts)
        ∙ unit_step c t' (d ∷ s) (ground arith) whole
            (decode_uri_component-encode (d ∷ s) t' (ground arith) rest)
  ]
]
