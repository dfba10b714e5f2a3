-- ===== src/Db/Success.antt =====
-- What returns where the database is in reach; and the audit log, whose failures go no further.
use vpn_register_kit.Prelude.{◌≡◌, refl, ap, ◌∙◌, false, [], some, Text, codes, is_empty}
use vpn_register_kit.Js.Number.{Number}
use vpn_register_kit.Js.Value.{Value, num, str, or_else, get}
use vpn_register_kit.Js.Json.{json_stringify}
use vpn_register_kit.Js.Result.{ok}
use vpn_register_kit.Auth.{hash_token}
use vpn_register_kit.Runtime.{Runtime, IsRuntime}
use vpn_register_kit.Act.{World, statement}
use vpn_register_kit.Act.Returns.{
  Returns, IsHealthy, Returns-pure, Returns-statement, Returns-next_call, Returns-print,
  Returns-try, Returns-after, Returns-get, bind_run, read_run,
}
use vpn_register_kit.Db.Tables.{Db, TokenRow, NodeRow, select_token, upsert_row}
use vpn_register_kit.Db.Rows.{AuditEvent, bind_node}
use vpn_register_kit.Db.{
  now_iso, touch_found, find_enabled_token, upsert_node, insert_audit, write_audit,
}

module _ (rt : Runtime) where
  now_iso-Returns : Returns (λ t. Unit) (now_iso rt)
  unfolding now_iso
  now_iso-Returns = Returns-after _ _ _ Returns-next_call (λ call. Returns-pure _ _ tt)

  -- Whatever D1 does, writing to the audit log returns.
  pub write_audit-Returns : (event : AuditEvent) → Returns (λ t. Unit) (write_audit rt event)
  unfolding write_audit
  write_audit-Returns event = Returns-try (insert_audit rt event) _ (λ e. Returns-print _)

  touch_found-Returns :
      (token_hash kind : Text) (row : TokenRow)
      → IsHealthy rt
      → Returns (λ found. found ≡ some row) (touch_found rt token_hash kind (some row))
  unfolding touch_found
  touch_found-Returns token_hash kind row healthy = Returns-after _ _ _ now_iso-Returns λ at.
      Returns-after _ _ _ (Returns-statement _ rt _ healthy (λ d. (tt, _, refl, tt)))
        (λ _. Returns-pure _ _ refl)

  -- A usable token is found.
  pub find_enabled_token-run :
      (kind token : Text) (row : TokenRow) (w : World)
      → IsHealthy rt
      → is_empty token ≡ false
      → select_token (hash_token rt token) kind w.db.tokens ≡ some row
      → (find_enabled_token rt kind token w).0 ≡ ok (some row)
  unfolding find_enabled_token
  find_enabled_token-run kind token row w healthy given selected =
      let token_hash = hash_token rt token in
      let read = λ (db : Db). select_token token_hash kind db.tokens in
      let found : (statement rt (λ db. some (read db, db)) w).0 ≡ ok (some row) =
        read_run rt read w healthy ∙ ap ok selected in
      let (same, returned, is_row) =
        (touch_found-Returns token_hash kind row healthy).at
          (statement rt (λ db. some (read db, db)) w).1 in
      rw given (
        ap (λ x. x.0) (bind_run _ (touch_found rt token_hash kind) w (some row) found)
        ∙ returned
        ∙ ap ok is_row)

  -- A body with the texts that the columns take.
  pub record IsPlain (body : Value) : Type 0 where
    pub node_id : Text
    pub has_node_id : get body (codes "node_id") ≡ ok (str node_id)
    pub name : Text
    pub has_name : get body (codes "name") ≡ ok (str name)
    pub region : Value
    pub has_region : get body (codes "region") ≡ ok region
    pub region_text : Text
    pub is_region : or_else region (str []) ≡ str region_text
    pub host : Text
    pub has_host : get body (codes "host") ≡ ok (str host)
    pub ip : Value
    pub has_ip : get body (codes "ip") ≡ ok ip
    pub ip_text : Text
    pub is_ip : or_else ip (str []) ≡ str ip_text
    pub protocols : Value
    pub has_protocols : get body (codes "protocols") ≡ ok protocols
    pub protocols_text : Text
    pub is_protocols : json_stringify protocols ≡ str protocols_text
    pub version : Number
    pub has_version : get body (codes "schema_version") ≡ ok (num version)

  -- The row of such a body.
  abbrev pub plain_row : (body : Value) → IsPlain body → Text → NodeRow
  plain_row body p at = record {
    node_id = p.node_id;
    name = p.name;
    region = p.region_text;
    host = p.host;
    ip = p.ip_text;
    protocols_json = p.protocols_text;
    schema_version = p.version;
    created_at = at;
    updated_at = at;
  }

  pub bind_node-plain :
      (body : Value) (p : IsPlain body) (at : Text)
      → IsRuntime rt
      → bind_node rt at
          (str p.node_id)
          (str p.name)
          (or_else p.region (str []))
          (str p.host)
          (or_else p.ip (str []))
          (json_stringify p.protocols)
          (num p.version)
        ≡ some (plain_row body p at)
  unfolding bind_node
  bind_node-plain body p at r = rw (
    p.is_region,
    p.is_ip,
    p.is_protocols,
    r.binds_text p.node_id,
    r.binds_text p.name,
    r.binds_text p.region_text,
    r.binds_text p.host,
    r.binds_text p.ip_text,
    r.binds_text p.protocols_text,
    r.binds_integer p.version,
  )

  pub upsert_node-Returns :
      (body : Value)
      → IsPlain body
      → IsRuntime rt
      → IsHealthy rt
      → Returns (λ t. Unit) (upsert_node rt body)
  unfolding upsert_node
  upsert_node-Returns body p r healthy = Returns-after _ _ _ now_iso-Returns λ at.
      Returns-get _ _ _ _ p.has_node_id (
        Returns-get _ _ _ _ p.has_name (
          Returns-get _ _ _ _ p.has_region (
            Returns-get _ _ _ _ p.has_host (
              Returns-get _ _ _ _ p.has_ip (
                Returns-get _ _ _ _ p.has_protocols (
                  Returns-get _ _ _ _ p.has_version (
                    Returns-statement _ rt _ healthy (λ d. (
                      tt,
                      record d { nodes = upsert_row (plain_row body p at) d.nodes },
                      rw (bind_node-plain body p at r),
                      tt,
                    )))))))))
