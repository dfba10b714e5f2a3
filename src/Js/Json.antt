-- ===== src/Js/Json.antt =====
-- `JSON.stringify`, the compact form. (`JSON.parse` is an operation of the runtime.)
use vpn_register_kit.Prelude.{
  ℕ, ◌+◌, ◌/◌, ◌%◌, Bool, true, false, ◌&&◌, ◌||◌, [], ◌∷◌, ◌++◌, Text, codes, ltb, leb, ◌==◌,
  if◌then◌else◌,
}
use vpn_register_kit.Js.Number.{number_text}
use vpn_register_kit.Js.Value.{
  Value, undefined, null, bool, num, str, arr, obj, Items, nil, cons, Fields, end, field,
}

-- One hexadecimal digit, as `toString(16)` writes it.
unfoldable pub hex_digit : ℕ → ℕ
hex_digit d = if ltb d 10 then d + b'0' else d + 87

unicode_escape : ℕ → Text
unfolding hex_digit codes
unicode_escape c =
    codes "\\u"
    ++ (hex_digit (c / 4096 % 16)
        ∷ hex_digit (c / 256 % 16)
        ∷ hex_digit (c / 16 % 16)
        ∷ hex_digit (c % 16)
        ∷ [])

-- The halves of a surrogate pair.
unfoldable pub is_high : ℕ → Bool
is_high c = leb 0xd800 c && leb c 0xdbff

unfoldable pub is_low : ℕ → Bool
is_low c = leb 0xdc00 c && leb c 0xdfff

-- A unit that is no half of a pair.
quote_unit : ℕ → Text
unfolding unicode_escape is_high is_low
quote_unit c =
    if c == b'"'
    then codes "\\\""
    else if c == b'\\'
    then codes "\\\\"
    else if c == 8
    then codes "\\b"
    else if c == 9
    then codes "\\t"
    else if c == 10
    then codes "\\n"
    else if c == 12
    then codes "\\f"
    else if c == 13
    then codes "\\r"
    else if ltb c 32 || is_high c || is_low c
    then unicode_escape c
    else c ∷ []

quote_units : Text → Text
unfolding quote_unit
quote_units [] = []
quote_units (c ∷ []) = quote_unit c
quote_units (c ∷ d ∷ s) =
    let pair = c ∷ d ∷ quote_units s in
    let single = quote_unit c ++ quote_units (d ∷ s) in
    if is_high c && is_low d then pair else single

unfoldable pub quote : Text → Text
unfolding quote_units
quote s = (b'"' ∷ []) ++ (quote_units s ++ (b'"' ∷ []))

unfoldable mutual
  unfolding quote number_text codes

  -- `undefined` stands in an array alone, as `null`
  pub stringify : Value → Text
  stringify undefined = codes "null"
  stringify null = codes "null"
  stringify (bool true) = codes "true"
  stringify (bool false) = codes "false"
  stringify (num n) = number_text n
  stringify (str s) = quote s
  stringify (arr vs) = codes "[" ++ (stringify_items vs ++ codes "]")
  stringify (obj fs) = codes "{" ++ (stringify_fields true fs ++ codes "}")

  pub stringify_items : Items → Text
  stringify_items nil = []
  stringify_items (cons v nil) = stringify v
  stringify_items (cons v vs) = stringify v ++ (codes "," ++ stringify_items vs)

  -- The flag says that no field has been written; a field that is `undefined` is left out.
  pub stringify_fields : Bool → Fields → Text
  stringify_fields start end = []
  stringify_fields start (field k undefined fs) = stringify_fields start fs
  stringify_fields start (field k v fs) =
      (if start then [] else codes ",")
      ++ (quote k ++ (codes ":" ++ (stringify v ++ stringify_fields false fs)))

-- `JSON.stringify(v)`
unfoldable pub json_stringify : Value → Value
unfolding stringify
json_stringify undefined = undefined
json_stringify v = str (stringify v)
