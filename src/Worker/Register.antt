-- ===== src/Worker/Register.antt =====
-- `handleRegister` of index.js
use vpn_register_kit.Prelude.{not, [], ◌∷◌, Option, none, some, Text, codes, if◌then◌else◌}
use vpn_register_kit.Js.Value.{Value, undefined, null, str, arr, nil, get, or_else, to_string}
use vpn_register_kit.Js.Result.{Thrown, Result, ok, err}
use vpn_register_kit.Validators.{validate_node}
use vpn_register_kit.Auth.{bearer_token, token_hint}
use vpn_register_kit.Runtime.{Runtime}
use vpn_register_kit.Http.{Request, Response, text}
use vpn_register_kit.Act.{Act, pure, lift, ◌>>=◌, ◌>>◌}
use vpn_register_kit.Logs.{Meta, request_meta, log_info, log_warn}
use vpn_register_kit.Db.Rows.{message}
use vpn_register_kit.Db.Tables.{TokenRow}
use vpn_register_kit.Db.{find_enabled_token, upsert_node, write_audit}
use vpn_register_kit.Worker.Reply.{
  method_is, json_ok, method_not_allowed, unauthorized, audit, map_value, max_register_bytes,
  read_limited_json,
}

-- `body?.node_id`
unfoldable pub optional_get : Value → Text → Result Value
optional_get undefined k = ok undefined
optional_get null k = ok undefined
optional_get v k = get v k

-- `types.join(",")`
abbrev pub join_types : Result Value → Result Text
join_types (err e) = err e
join_types (ok types) = to_string types

module _ (rt : Runtime) (request : Request) where
  unfoldable pub deny : Meta → Text → Act Response
  deny meta token = do
    log_warn (codes "register denied") (
        (codes "remote_ip", str meta.remote_ip)
        ∷ (codes "token", str (token_hint token))
        ∷ (codes "reason", str (codes "invalid_token"))
        ∷ [])
    write_audit rt (audit (codes "register_denied") meta (token_hint token) (str []) [] 401)
    pure unauthorized

  -- `(body.protocols || []).map((p) => p.type).join(",")`
  unfoldable pub type_list : Value → Result Text
  type_list protocols =
      join_types (map_value (λ p. get p (codes "type")) (or_else protocols (arr nil)))

  unfoldable pub accept : Meta → TokenRow → Value → Act Response
  accept meta row body = do
    upsert_node rt body
    node_id ← lift (get body (codes "node_id"))
    write_audit rt (audit (codes "register_node") meta row.token_hint node_id [] 200)
    host ← lift (get body (codes "host"))
    protocols ← lift (get body (codes "protocols"))
    types ← lift (type_list protocols)
    log_info (codes "node registered") (
        (codes "remote_ip", str meta.remote_ip)
        ∷ (codes "node_id", node_id)
        ∷ (codes "host", host)
        ∷ (codes "protocols", str types)
        ∷ [])
    pure json_ok

  -- the `catch` of `validateNode`
  unfoldable pub refuse : Meta → TokenRow → Value → Thrown → Act Response
  refuse meta row body e = do
    node_id ← lift (optional_get body (codes "node_id"))
    write_audit rt (audit (codes "register_invalid") meta row.token_hint node_id [] 400)
    pure (text (message rt e) 400)

  unfoldable pub check : Meta → TokenRow → Value → Result (Unit {0}) → Act Response
  check meta row body (ok done) = accept meta row body
  check meta row body (err e) = refuse meta row body e

  unfoldable pub register : Meta → Text → Option TokenRow → Act Response
  register meta token none = deny meta token
  register meta token (some row) = do
    body ← lift (read_limited_json rt request max_register_bytes)
    check meta row body (validate_node rt.number_of body)

  unfoldable pub handle_register : Act Response
  handle_register = if not (method_is request (codes "POST")) then pure method_not_allowed else (do
    let meta = request_meta request
    let token = bearer_token request
    row ← find_enabled_token rt (codes "register") token
    register meta token row)
