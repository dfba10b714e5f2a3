-- ===== src/Js/Decode.antt =====
-- `decodeURIComponent`: the escapes are read as bytes, and the bytes as UTF-8.
pub mod Points
pub mod RoundTrip
use vpn_register_kit.Prelude.{
  ℕ, zero, suc, ◌+◌, ◌-◌, ◌*◌, ◌/◌, ◌%◌, Bool, not, ◌&&◌, List, [], ◌∷◌, ◌++◌, Option, none, some,
  Text, ltb, leb, ◌==◌, if◌then◌else◌,
}

-- The value of a hexadecimal digit, in either case.
unfoldable pub digit_value : ℕ → Option ℕ
digit_value c =
    if leb b'0' c && leb c b'9'
    then some (c - b'0')
    else if leb b'A' c && leb c b'F'
    then some (c - 55)
    else if leb b'a' c && leb c b'f'
    then some (c - 87)
    else none

-- A unit that stands for itself, or the byte of an escape.
pub data Token : Type 0 where
  plain : ℕ → Token
  octet : ℕ → Token

abbrev pub cons_token : Token → Option (List Token) → Option (List Token)
cons_token t none = none
cons_token t (some ts) = some (t ∷ ts)

abbrev pub octet_of : Option ℕ → Option ℕ → Option (List Token) → Option (List Token)
octet_of (some high) (some low) rest = cons_token (octet (high * 16 + low)) rest
octet_of _ _ rest = none

-- `%` without two digits is a URIError: none.
unfoldable pub tokens : Text → Option (List Token)
tokens [] = some []
tokens (c ∷ []) = if c == b'%' then none else some (plain c ∷ [])
tokens (c ∷ d ∷ []) =
    let rest = tokens (d ∷ []) in if c == b'%' then none else cons_token (plain c) rest
tokens (c ∷ d ∷ e ∷ s) =
    let escaped = octet_of (digit_value d) (digit_value e) (tokens s) in
    let rest = tokens (d ∷ e ∷ s) in if c == b'%' then escaped else cons_token (plain c) rest

-- Between two code points, or in one: how many bytes are left behind the next one, the bits so far,
-- and the least code point of this length.
pub data State : Type 0 where
  ready : State
  pending : ℕ → ℕ → ℕ → State

-- The units of a code point.
unfoldable pub units : ℕ → Text
units v =
    if ltb v 0x10000
    then v ∷ []
    else (0xd800 + (v - 0x10000) / 1024) ∷ (0xdc00 + (v - 0x10000) % 1024) ∷ []

unfoldable pub is_point : ℕ → ℕ → Bool
is_point least v = leb least v && (leb v 0x10ffff && not (leb 0xd800 v && leb v 0xdfff))

unfoldable pub more : ℕ → ℕ → ℕ → Option (Text × State)
more zero v least = if is_point least v then some (units v, ready) else none
more (suc left) v least = some ([], pending left v least)

-- the first byte of a code point
unfoldable pub lead : ℕ → Option (Text × State)
lead b =
    if ltb b 0x80
    then some (b ∷ [], ready)
    else if leb 0xc0 b && leb b 0xdf
    then some ([], pending 0 (b - 0xc0) 0x80)
    else if leb 0xe0 b && leb b 0xef
    then some ([], pending 1 (b - 0xe0) 0x800)
    else if leb 0xf0 b && leb b 0xf7
    then some ([], pending 2 (b - 0xf0) 0x10000)
    else none

unfoldable pub next : State → Token → Option (Text × State)
next ready (plain c) = some (c ∷ [], ready)
next ready (octet b) = lead b
next (pending left v least) (plain c) = none
next (pending left v least) (octet b) =
    if leb 0x80 b && leb b 0xbf then more left (v * 64 + (b - 0x80)) least else none

abbrev pub prepend : Text → Option Text → Option Text
prepend t none = none
prepend t (some s) = some (t ++ s)

abbrev pub emit : Option (Text × State) → (State → Option Text) → Option Text
emit none rest = none
emit (some (out, state)) rest = prepend out (rest state)

unfoldable pub read_points : State → List Token → Option Text
read_points ready [] = some []
read_points (pending left v least) [] = none
read_points state (t ∷ ts) = emit (next state t) (λ state'. read_points state' ts)

abbrev pub points_of : Option (List Token) → Option Text
points_of none = none
points_of (some ts) = read_points ready ts

unfoldable pub decode_uri_component : Text → Option Text
decode_uri_component t = points_of (tokens t)
