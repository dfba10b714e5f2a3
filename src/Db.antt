-- ===== src/Db.antt =====
-- cloudflare-registry/src/db.js
pub mod Tables
pub mod Rows
pub mod Keys
pub mod Frames
pub mod Integrity
pub mod Stored
pub mod Lookup
pub mod NodeTable
pub mod TokenTable
pub mod Registry
pub mod Commute
pub mod Listing
pub mod Reading
pub mod History
pub mod Order
pub mod Success
use mathlib.Core.Option
use vpn_register_kit.Prelude.{
  ℕ, Bool, true, false, not, ◌&&◌, ◌||◌, List, [], ◌∷◌, ◌++◌, Option, none, some, Text, codes, map,
  is_empty, if◌then◌else◌,
}
use vpn_register_kit.Js.Number.{Number}
use vpn_register_kit.Js.Value.{Value, undefined, str, arr, nil, or_else, get, truthy}
use vpn_register_kit.Js.Json.{json_stringify}
use vpn_register_kit.Js.Result.{Thrown, Result, ok, err, error}
use vpn_register_kit.Auth.{hash_token, token_hint}
use vpn_register_kit.Runtime.{Runtime}
use vpn_register_kit.Act.{
  Act, World, pure, lift, ◌>>=◌, ◌>>◌, try_catch, next_call, print, statement,
}
use vpn_register_kit.Db.Rows.{
  Node, TokenInfo, AuditEvent, message, token_info, and_then, bind_node, row_to_node,
}
use vpn_register_kit.Db.Tables.{
  Db, TokenRow, NodeRow, AuditRow, order_by, select_token, touch_tokens, insert_token_row,
  upsert_row, select_node, delete_rows, insert_audit_row,
}

module _ (rt : Runtime) where
  unfoldable pub now_iso : Act Text
  now_iso = do call ← next_call; pure (rt.now_iso call)

  unfoldable pub touch_found : Text → Text → Option TokenRow → Act (Option TokenRow)
  touch_found token_hash kind none = pure none
  touch_found token_hash kind (some row) = do
    at ← now_iso
    statement rt (λ db. some (tt, record db { tokens = touch_tokens at token_hash kind db.tokens }))
    pure (some row)

  unfoldable pub find_enabled_token : Text → Text → Act (Option TokenRow)
  find_enabled_token kind token = if is_empty token then pure none else (do
    let token_hash = hash_token rt token
    row ← statement rt (λ db. some (select_token token_hash kind db.tokens, db))
    touch_found token_hash kind row)

  -- The row that `insertToken` binds.
  abbrev pub new_token : Text → Text → Text → Text → TokenRow
  new_token id kind token at = record {
    id = id;
    kind = kind;
    token_hash = hash_token rt token;
    token_hint = token_hint token;
    enabled = 1;
    created_at = at;
    last_used_at = none;
  }

  unfoldable pub insert_token : Text → Text → Text → Act (Unit {0})
  insert_token id kind token = do
    at ← now_iso
    statement rt (λ db.
        Option.map (λ tokens. (tt, record db { tokens = tokens }))
          (insert_token_row (new_token id kind token at) db.tokens))

  unfoldable pub list_tokens : Act (List TokenInfo)
  list_tokens =
      statement rt
        (λ db. some (map token_info (order_by (λ (r : TokenRow). r.created_at) db.tokens), db))

  unfoldable pub upsert_node : Value → Act (Unit {0})
  upsert_node node = do
    at ← now_iso
    node_id ← lift (get node (codes "node_id"))
    name ← lift (get node (codes "name"))
    region ← lift (get node (codes "region"))
    host ← lift (get node (codes "host"))
    ip ← lift (get node (codes "ip"))
    protocols ← lift (get node (codes "protocols"))
    version ← lift (get node (codes "schema_version"))
    statement rt (λ db.
        Option.map (λ row. (tt, record db { nodes = upsert_row row db.nodes }))
          (bind_node rt at node_id name (or_else region (str [])) host (or_else ip (str []))
            (json_stringify protocols) version))

  -- `rows.map(rowToNode)`
  unfoldable pub rows_to_nodes : List NodeRow → Result (List Node)
  rows_to_nodes [] = ok []
  rows_to_nodes (row ∷ rows) = elim (row_to_node rt row) [
    | err e ↦ err e
    | ok node ↦ elim (rows_to_nodes rows) [ err e ↦ err e | ok nodes ↦ ok (node ∷ nodes) ]
  ]

  unfoldable pub list_nodes : Act (List Node)
  list_nodes = do
    rows ← statement rt (λ db. some (order_by (λ (r : NodeRow). r.node_id) db.nodes, db))
    lift (rows_to_nodes rows)

  unfoldable pub delete_existing : Text → Option NodeRow → Act Bool
  delete_existing node_id none = pure false
  delete_existing node_id (some row) = do
    statement rt (λ db. some (tt, record db { nodes = delete_rows node_id db.nodes }))
    pure true

  unfoldable pub delete_node : Text → Act Bool
  delete_node node_id = do
    existing ← statement rt (λ db. some (select_node node_id db.nodes, db))
    delete_existing node_id existing

  abbrev pub audit_row : Text → Text → Text → AuditEvent → AuditRow
  audit_row id at node_id event = record {
    id = id;
    event_type = event.event_type;
    remote_ip = event.remote_ip;
    user_agent = event.user_agent;
    token_hint = event.token_hint;
    node_id = node_id;
    format = event.format;
    status = event.status;
    created_at = at;
  }

  unfoldable pub insert_audit : AuditEvent → Act (Unit {0})
  insert_audit event = do
    call ← next_call
    let id = rt.random_uuid call
    at ← now_iso
    statement rt (λ db. and_then (rt.bind_text (or_else event.node_id (str []))) λ node_id.
        Option.map (λ rows. (tt, record db { audit_logs = rows }))
          (insert_audit_row (audit_row id at node_id event) db.audit_logs))

  -- A failure is printed, and goes no further.
  unfoldable pub write_audit : AuditEvent → Act (Unit {0})
  write_audit event =
      try_catch (insert_audit event)
        (λ e. print (codes "[ERROR] audit log failed " ++ message rt e))
