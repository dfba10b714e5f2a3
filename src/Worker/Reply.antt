-- ===== src/Worker/Reply.antt =====
-- What the handlers of index.js share: the environment, the audit events, and `nodeSummary`.
use vpn_register_kit.Prelude.{
  Bool, List, [], ◌∷◌, Option, Text, codes, text_eq, not, ℕ, if◌then◌else◌, length, ltb,
}
use vpn_register_kit.Js.Utf8.{utf8}
use vpn_register_kit.Js.Value.{
  Value, undefined, null, str, arr, obj, Items, nil, cons, end, field, or_else, get,
}
use vpn_register_kit.Js.Result.{
  Result, ok, err, error, fault, no_property, not_a_function, ◌>>=◌, throw_if, ◌>>◌,
}
use vpn_register_kit.Runtime.{Runtime}
use vpn_register_kit.Http.{Request, Response, json, text}
use vpn_register_kit.Act.{Act, pure}
use vpn_register_kit.Auth.{require_admin}
use vpn_register_kit.Logs.{Meta}
use vpn_register_kit.Db.Rows.{Node, AuditEvent, json_parse}

abbrev pub method_is : Request → Text → Bool
method_is request method = text_eq request.method method

-- `json({ status: "ok" })`
abbrev pub json_ok : Response
json_ok = json (obj (field (codes "status") (str (codes "ok")) end)) 200

abbrev pub method_not_allowed : Response
method_not_allowed = text (codes "method not allowed") 405

abbrev pub unauthorized : Response
unauthorized = text (codes "unauthorized") 401

-- `if (!requireAdmin(request, env)) return text("unauthorized", 401);`
unfoldable pub with_admin : Request → Option Text → Act Response → Act Response
with_admin request admin_token act =
    if not (require_admin request admin_token) then pure unauthorized else act

-- An event of the audit log; a field that the source leaves out is empty.
abbrev pub audit : Text → Meta → Text → Value → Text → ℕ → AuditEvent
audit event_type meta token_hint node_id format status = record {
  event_type = event_type;
  remote_ip = meta.remote_ip;
  user_agent = meta.user_agent;
  token_hint = token_hint;
  node_id = node_id;
  format = format;
  status = status;
}

-- `({ type: protocol.type, port: protocol.port })`
unfoldable pub protocol_summary : Value → Result Value
protocol_summary protocol = do
  type ← get protocol (codes "type")
  port ← get protocol (codes "port")
  ok (obj (field (codes "type") type (field (codes "port") port end)))

unfoldable pub map_items : (Value → Result Value) → Items → Result Items
map_items f nil = ok nil
map_items f (cons v vs) = do w ← f v; ws ← map_items f vs; ok (cons w ws)

-- `v.map(f)`
unfoldable pub map_value : (Value → Result Value) → Value → Result Value
map_value f (arr vs) = do ws ← map_items f vs; ok (arr ws)
map_value f undefined = err (fault (no_property (codes "map")))
map_value f null = err (fault (no_property (codes "map")))
map_value f _ = err (fault (not_a_function (codes "map")))

unfoldable pub node_summary : Node → Result Value
node_summary node = do
  protocols ← map_value protocol_summary (or_else node.protocols (arr nil))
  ok (
      obj (
        field (codes "node_id") (str node.node_id) (
          field (codes "name") (str node.name) (
            field (codes "region") (str node.region) (
              field (codes "host") (str node.host) (
                field (codes "ip") (str node.ip) (
                  field (codes "protocols") protocols
                    (field (codes "updated_at") (str node.updated_at) end))))))))

-- `nodes.map(nodeSummary)`
unfoldable pub node_summaries : List Node → Result Items
node_summaries [] = ok nil
node_summaries (node ∷ nodes) = do
  summary ← node_summary node
  rest ← node_summaries nodes
  ok (cons summary rest)

abbrev pub max_register_bytes : ℕ
max_register_bytes = 65536

-- `readLimitedJson`
unfoldable pub read_limited_json : Runtime → Request → ℕ → Result Value
read_limited_json rt request max_bytes = do
  throw_if (ltb max_bytes (length (utf8 request.body))) (error (codes "request body too large"))
  json_parse rt request.body
