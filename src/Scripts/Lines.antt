-- ===== src/Scripts/Lines.antt =====
-- The lines that list-nodes.js and list-tokens.js print for what the Worker answers.
use vpn_register_kit.Prelude.{ℕ, ◌-◌, List, [], ◌∷◌, ◌++◌, Text, codes, length, replicate, join}
use vpn_register_kit.Js.Value.{
  Value, undefined, null, str, arr, nil, elements, or_else, get, to_string,
}
use vpn_register_kit.Js.Result.{Result, ok, err, fault, no_property, not_a_function, ◌>>=◌}

abbrev pub padded : ℕ → Text → Text
padded n t = t ++ replicate (n - length t) b' '

-- `v.padEnd(n)`
unfoldable pub pad_end : ℕ → Value → Result Text
pad_end n (str t) = ok (padded n t)
pad_end n undefined = err (fault (no_property (codes "padEnd")))
pad_end n null = err (fault (no_property (codes "padEnd")))
pad_end n _ = err (fault (not_a_function (codes "padEnd")))

-- `${v || "-"}`
abbrev shown_or_dash : Value → Result Text
shown_or_dash v = to_string (or_else v (str (codes "-")))

-- `${item.type}:${item.port}`
unfoldable pub protocol_text : Value → Result Text
protocol_text item = do
  type ← get item (codes "type")
  shown_type ← to_string type
  port ← get item (codes "port")
  shown_port ← to_string port
  ok (shown_type ++ (codes ":" ++ shown_port))

unfoldable pub protocol_texts : List Value → Result (List Text)
protocol_texts [] = ok []
protocol_texts (v ∷ vs) = do t ← protocol_text v; ts ← protocol_texts vs; ok (t ∷ ts)

-- `v.map(…).join(",")`
unfoldable pub joined_protocols : Value → Result Text
joined_protocols (arr vs) = do ts ← protocol_texts (elements vs); ok (join (codes ",") ts)
joined_protocols undefined = err (fault (no_property (codes "map")))
joined_protocols null = err (fault (no_property (codes "map")))
joined_protocols _ = err (fault (not_a_function (codes "map")))

-- the column of a property
abbrev column : ℕ → Value → Text → Result Text
column n v k = do cell ← get v k; pad_end n cell

unfoldable pub node_line : Value → Result Text
node_line node = do
  listed ← get node (codes "protocols")
  protocols ← joined_protocols (or_else listed (arr nil))
  node_id ← column 16 node (codes "node_id")
  name ← column 16 node (codes "name")
  region ← column 6 node (codes "region")
  host ← column 32 node (codes "host")
  updated ← get node (codes "updated_at")
  updated_at ← shown_or_dash updated
  ok (
      codes "- "
      ++ join (codes " ")
          (node_id ∷ name ∷ region ∷ host ∷ protocols ∷ (codes "updated=" ++ updated_at) ∷ []))

abbrev shown : Value → Text → Result Text
shown v k = do cell ← get v k; to_string cell

unfoldable pub token_line : Value → Result Text
token_line token = do
  kind ← column 9 token (codes "kind")
  token_hint ← shown token (codes "token_hint")
  enabled ← shown token (codes "enabled")
  created_at ← shown token (codes "created_at")
  used ← get token (codes "last_used_at")
  last_used ← shown_or_dash used
  ok (
      codes "- "
      ++ join (codes " ") (
          kind
          ∷ token_hint
          ∷ (codes "enabled=" ++ enabled)
          ∷ (codes "created=" ++ created_at)
          ∷ (codes "last_used=" ++ last_used)
          ∷ []))
