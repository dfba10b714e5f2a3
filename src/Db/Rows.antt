-- ===== src/Db/Rows.antt =====
-- The objects of db.js, the values that `upsertNode` binds, and `rowToNode`.
use vpn_register_kit.Prelude.{ℕ, Option, none, some, Text, codes, is_empty, if◌then◌else◌}
use vpn_register_kit.Js.Number.{Number}
use vpn_register_kit.Js.Value.{Value}
use vpn_register_kit.Js.Result.{Thrown, Result, ok, err, error, fault, bad_json, ◌>>=◌}
use vpn_register_kit.Runtime.{Runtime}
use vpn_register_kit.Db.Tables.{TokenRow, NodeRow}

-- A node as `rowToNode` makes it.
pub record Node : Type 0 where
  pub schema_version : Number
  pub node_id : Text
  pub name : Text
  pub region : Text
  pub host : Text
  pub ip : Text
  pub protocols : Value
  pub created_at : Text
  pub updated_at : Text

-- The columns that `listTokens` selects.
pub record TokenInfo : Type 0 where
  pub id : Text
  pub kind : Text
  pub token_hint : Text
  pub enabled : ℕ
  pub created_at : Text
  pub last_used_at : Option Text

pub record AuditEvent : Type 0 where
  pub event_type : Text
  pub remote_ip : Text
  pub user_agent : Text
  pub token_hint : Text
  pub node_id : Value
  pub format : Text
  pub status : ℕ

-- An `Option` chain: a value that `bind` refuses refuses the statement.
abbrev pub and_then {ℓ κ} : {A : Type ℓ} {B : Type κ} → Option A → (A → Option B) → Option B
and_then none f = none
and_then (some a) f = f a

abbrev pub token_info : TokenRow → TokenInfo
token_info row = record {
  id = row.id;
  kind = row.kind;
  token_hint = row.token_hint;
  enabled = row.enabled;
  created_at = row.created_at;
  last_used_at = row.last_used_at;
}

-- `error.message`
unfoldable pub message : Runtime → Thrown → Text
message rt (error m) = m
message rt (fault f) = rt.describe f

module _ (rt : Runtime) where
  -- The row that `upsertNode` binds; none where `bind` refuses a value.
  unfoldable pub bind_node :
      Text → Value → Value → Value → Value → Value → Value → Value → Option NodeRow
  bind_node at node_id name region host ip protocols version =
      and_then (rt.bind_text node_id) λ node_id'. and_then (rt.bind_text name) λ name'.
        and_then (rt.bind_text region) λ region'. and_then (rt.bind_text host) λ host'.
          and_then (rt.bind_text ip) λ ip'. and_then (rt.bind_text protocols) λ protocols'.
            and_then (rt.bind_integer version) λ version'. some (record {
              node_id = node_id';
              name = name';
              region = region';
              host = host';
              ip = ip';
              protocols_json = protocols';
              schema_version = version';
              created_at = at;
              updated_at = at;
            })

  abbrev parsed : Option Value → Result Value
  parsed none = err (fault bad_json)
  parsed (some v) = ok v

  -- `JSON.parse(text)`
  pub json_parse : Text → Result Value
  json_parse t = parsed (rt.json_parse t)

  unfoldable pub row_to_node : NodeRow → Result Node
  unfolding json_parse
  row_to_node row = do
    protocols ← json_parse (if is_empty row.protocols_json then codes "[]" else row.protocols_json)
    ok (record {
      schema_version = row.schema_version;
      node_id = row.node_id;
      name = row.name;
      region = row.region;
      host = row.host;
      ip = row.ip;
      protocols = protocols;
      created_at = row.created_at;
      updated_at = row.updated_at;
    })
