-- ===== src/Js/Pretty.antt =====
-- `JSON.stringify(v, null, 2)`
use vpn_register_kit.Prelude.{
  ℕ, ◌+◌, Bool, true, false, [], ◌++◌, Text, codes, replicate, is_empty, if◌then◌else◌,
}
use vpn_register_kit.Js.Json.{stringify, quote}
use vpn_register_kit.Js.Value.{Value, undefined, arr, obj, Items, nil, cons, Fields, end, field}

abbrev indent : ℕ → Text
indent n = replicate n 32

abbrev new_line : ℕ → Text
new_line n = codes "\n" ++ indent n

-- The members between their brackets; none of them is an empty pair.
abbrev enclose : ℕ → Text → Text → Text → Text
enclose n left right members =
    if is_empty members then left ++ right else left ++ (members ++ (new_line n ++ right))

unfoldable mutual
  unfolding stringify quote codes

  -- n is the indentation of the line on which the value begins
  pub stringify_pretty : Value → ℕ → Text
  stringify_pretty (arr vs) n = enclose n (codes "[") (codes "]") (pretty_items vs n true)
  stringify_pretty (obj fs) n = enclose n (codes "{") (codes "}") (pretty_fields fs n true)
  stringify_pretty v n = stringify v

  pub pretty_items : Items → ℕ → Bool → Text
  pretty_items nil n start = []
  pretty_items (cons v vs) n start =
      (if start then [] else codes ",")
      ++ (new_line (n + 2) ++ (stringify_pretty v (n + 2) ++ pretty_items vs n false))

  pub pretty_fields : Fields → ℕ → Bool → Text
  pretty_fields end n start = []
  pretty_fields (field k undefined fs) n start = pretty_fields fs n start
  pretty_fields (field k v fs) n start =
      (if start then [] else codes ",")
      ++ (new_line (n + 2)
          ++ (quote k ++ (codes ": " ++ (stringify_pretty v (n + 2) ++ pretty_fields fs n false))))
