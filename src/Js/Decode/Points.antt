-- ===== src/Js/Decode/Points.antt =====
-- `decodeURIComponent` reads the bytes of a code point as its units.
use vpn_register_kit.Prelude.{
  ℕ, ◌+◌, ◌-◌, ◌*◌, ◌/◌, ◌%◌, ◌≡◌, refl, ap, ◌∙◌, Bool, true, false, not, ◌&&◌, List, [], ◌∷◌,
  Option, none, some, Text, ltb, leb, all, arith, Bool-cases, inl, inr,
}
use vpn_register_kit.Js.Utf8.{encode_point}
use vpn_register_kit.Js.Decode.{
  Token, octet, cons_token, State, ready, pending, units, is_point, more, lead, next, prepend, emit,
  read_points, points_of,
}

-- The code points that UTF-8 has: no halves of surrogate pairs.
abbrev pub is_scalar : ℕ → Bool
is_scalar v = leb v 0x10ffff && not (leb 0xd800 v && leb v 0xdfff)

pub encode_point-bytes :
    (v : ℕ) → leb v 0x10ffff ≡ true → all (λ b. ltb b 256) (encode_point v) ≡ true
unfolding encode_point
encode_point-bytes v h = ground arith

read_step :
    (state : State) (t : Token) (ts : List Token) (out : Text) (state' : State)
    → next state t ≡ some (out, state')
    → read_points state (t ∷ ts) ≡ prepend out (read_points state' ts)
unfolding read_points
read_step ready t ts out state' h = ap (λ o. emit o (λ x. read_points x ts)) h
read_step (pending left v least) t ts out state' h = ap (λ o. emit o (λ x. read_points x ts)) h

prepend-nil : (o : Option Text) → prepend [] o ≡ o
prepend-nil none = refl
prepend-nil (some t) = refl

-- A byte that only moves on.
silent_step :
    (state : State) (t : Token) (ts : List Token) (state' : State)
    → next state t ≡ some ([], state')
    → read_points state (t ∷ ts) ≡ read_points state' ts
silent_step state t ts state' h = read_step state t ts [] state' h ∙ prepend-nil _

abbrev tail_byte : ℕ → ℕ
tail_byte v = 0x80 + v % 64

-- A byte behind the first adds its six bits.
tail_step :
    (left high v least : ℕ)
    → high * 64 + v % 64 ≡ v
    → next (pending left high least) (octet (tail_byte v)) ≡ more left v least
unfolding next
tail_step left high v least h =
    let low : leb 0x80 (tail_byte v) ≡ true = ground arith in
    let top : leb (tail_byte v) 0xbf ≡ true = ground arith in
    let bits : high * 64 + (tail_byte v - 128) ≡ v = omega arith in rw (low, top, bits)

more_last : (v least : ℕ) → is_point least v ≡ true → more 0 v least ≡ some (units v, ready)
unfolding more
more_last v least h = rw h

-- The bytes of one code point, by their number.
one_byte :
    (v : ℕ) (ts : List Token)
    → ltb v 0x80 ≡ true
    → read_points ready (octet v ∷ ts) ≡ prepend (units v) (read_points ready ts)
unfolding next lead units
one_byte v ts h =
    let low : ltb v 0x10000 ≡ true = ground arith in
    read_step ready (octet v) ts (units v) ready (rw (h, low))

lead_two :
    (v : ℕ)
    → ltb v 0x80 ≡ false
    → ltb v 0x800 ≡ true
    → next ready (octet (0xc0 + v / 64)) ≡ some ([], pending 0 (v / 64) 0x80)
unfolding next lead
lead_two v h i =
    let a : ltb (0xc0 + v / 64) 0x80 ≡ false = ground arith in
    let b : leb 0xc0 (0xc0 + v / 64) && leb (0xc0 + v / 64) 0xdf ≡ true = ground arith in
    let c : 0xc0 + v / 64 - 0xc0 ≡ v / 64 = omega arith in rw (a, b, c)

lead_three :
    (v : ℕ)
    → ltb v 0x800 ≡ false
    → ltb v 0x10000 ≡ true
    → next ready (octet (0xe0 + v / 4096)) ≡ some ([], pending 1 (v / 4096) 0x800)
unfolding next lead
lead_three v h i =
    let a : ltb (0xe0 + v / 4096) 0x80 ≡ false = ground arith in
    let b : leb 0xc0 (0xe0 + v / 4096) && leb (0xe0 + v / 4096) 0xdf ≡ false = ground arith in
    let c : leb 0xe0 (0xe0 + v / 4096) && leb (0xe0 + v / 4096) 0xef ≡ true = ground arith in
    let d : 0xe0 + v / 4096 - 0xe0 ≡ v / 4096 = omega arith in rw (a, b, c, d)

lead_four :
    (v : ℕ)
    → ltb v 0x10000 ≡ false
    → leb v 0x10ffff ≡ true
    → next ready (octet (0xf0 + v / 262144)) ≡ some ([], pending 2 (v / 262144) 0x10000)
unfolding next lead
lead_four v h i =
    let a : ltb (0xf0 + v / 262144) 0x80 ≡ false = ground arith in
    let b : leb 0xc0 (0xf0 + v / 262144) && leb (0xf0 + v / 262144) 0xdf ≡ false = ground arith in
    let c : leb 0xe0 (0xf0 + v / 262144) && leb (0xf0 + v / 262144) 0xef ≡ false = ground arith in
    let d : leb 0xf0 (0xf0 + v / 262144) && leb (0xf0 + v / 262144) 0xf7 ≡ true = ground arith in
    let e : 0xf0 + v / 262144 - 0xf0 ≡ v / 262144 = omega arith in rw (a, b, c, d, e)

two_bytes :
    (v : ℕ) (ts : List Token)
    → ltb v 0x80 ≡ false
    → ltb v 0x800 ≡ true
    → read_points ready (octet (0xc0 + v / 64) ∷ octet (tail_byte v) ∷ ts)
      ≡ prepend (units v) (read_points ready ts)
unfolding is_point
two_bytes v ts h i =
    silent_step ready _ _ (pending 0 (v / 64) 0x80) (lead_two v h i)
    ∙ read_step _ _ ts (units v) ready
        (tail_step 0 (v / 64) v 0x80 (omega arith) ∙ more_last v 0x80 (ground arith))

three_bytes :
    (v : ℕ) (ts : List Token)
    → ltb v 0x800 ≡ false
    → ltb v 0x10000 ≡ true
    → is_scalar v ≡ true
    → read_points ready
        (octet (0xe0 + v / 4096) ∷ octet (tail_byte (v / 64)) ∷ octet (tail_byte v) ∷ ts)
      ≡ prepend (units v) (read_points ready ts)
unfolding is_point more
three_bytes v ts h i scalar =
    silent_step ready _ _ (pending 1 (v / 4096) 0x800) (lead_three v h i)
    ∙ silent_step _ _ _ (pending 0 (v / 64) 0x800)
        (tail_step 1 (v / 4096) (v / 64) 0x800 (omega arith))
    ∙ read_step _ _ ts (units v) ready
        (tail_step 0 (v / 64) v 0x800 (omega arith) ∙ more_last v 0x800 (ground arith))

four_bytes :
    (v : ℕ) (ts : List Token)
    → ltb v 0x10000 ≡ false
    → is_scalar v ≡ true
    → read_points ready (
        octet (0xf0 + v / 262144)
        ∷ octet (tail_byte (v / 4096))
        ∷ octet (tail_byte (v / 64))
        ∷ octet (tail_byte v)
        ∷ ts)
      ≡ prepend (units v) (read_points ready ts)
unfolding is_point more
four_bytes v ts h scalar =
    silent_step ready _ _ (pending 2 (v / 262144) 0x10000) (lead_four v h (ground arith))
    ∙ silent_step _ _ _ (pending 1 (v / 4096) 0x10000)
        (tail_step 2 (v / 262144) (v / 4096) 0x10000 (omega arith))
    ∙ silent_step _ _ _ (pending 0 (v / 64) 0x10000)
        (tail_step 1 (v / 4096) (v / 64) 0x10000 (omega arith))
    ∙ read_step _ _ ts (units v) ready
        (tail_step 0 (v / 64) v 0x10000 (omega arith) ∙ more_last v 0x10000 (ground arith))

abbrev pub prepend_octets : List ℕ → Option (List Token) → Option (List Token)
prepend_octets [] ts = ts
prepend_octets (b ∷ bs) ts = cons_token (octet b) (prepend_octets bs ts)

read_point :
    (v : ℕ) (ts : List Token)
    → is_scalar v ≡ true
    → points_of (prepend_octets (encode_point v) (some ts))
      ≡ prepend (units v) (read_points ready ts)
unfolding encode_point
read_point v ts scalar = elim (Bool-cases (ltb v 0x80)) [
  | inl one ↦ rw (one) (one_byte v ts one)
  | inr above ↦ elim (Bool-cases (ltb v 0x800)) [
    | inl two ↦ rw (above, two) (two_bytes v ts above two)
    | inr above' ↦ elim (Bool-cases (ltb v 0x10000)) [
      | inl three ↦ rw (above, above', three) (three_bytes v ts above' three scalar)
      | inr four ↦ rw (above, above', four) (four_bytes v ts four scalar)
    ]
  ]
]

prepend_octets-none : (bs : List ℕ) → prepend_octets bs none ≡ none
prepend_octets-none [] = refl
prepend_octets-none (b ∷ bs) = ap (cons_token (octet b)) (prepend_octets-none bs)

-- The bytes of a code point are read as its units.
pub points_of-point :
    (v : ℕ) (o : Option (List Token))
    → is_scalar v ≡ true
    → points_of (prepend_octets (encode_point v) o) ≡ prepend (units v) (points_of o)
points_of-point v none scalar = ap points_of (prepend_octets-none (encode_point v))
points_of-point v (some ts) scalar = read_point v ts scalar
