-- ===== src/Db/Frames.antt =====
-- Relations on the tables that the operations of db.js respect, and that they do.
use vpn_register_kit.Prelude.{◌≡◌, refl, true, false, List, [], Option, none, some, Text, codes}
use mathlib.Core.Option
use mathlib.Core.Path.{subst}
use vpn_register_kit.Js.Value.{Value, str, or_else, get}
use vpn_register_kit.Js.Json.{json_stringify}
use vpn_register_kit.Js.Result.{ok}
use vpn_register_kit.Validators.{validate_node}
use vpn_register_kit.Runtime.{Runtime}
use vpn_register_kit.Act.{statement}
use vpn_register_kit.Act.Steps.{
  step_rules, Steps, IsPreorder, Steps-pure, Steps-if, Steps-bind, Steps-bind-lift, Steps-statement,
  Steps-try, Steps-print, Steps-lift, Steps-next_call,
}
use vpn_register_kit.Db.Rows.{and_then, AuditEvent, bind_node}
use vpn_register_kit.Db.Tables.{
  Db, TokenRow, NodeRow, AuditRow, touch_tokens, insert_token_row, upsert_row, delete_rows,
  insert_audit_row,
}
use vpn_register_kit.Db.{
  now_iso, touch_found, find_enabled_token, new_token, insert_token, list_tokens, upsert_node,
  list_nodes, delete_existing, delete_node, insert_audit, write_audit, audit_row,
}

-- R allows what every authenticated or refused request may do: stamp a token, and log.
pub record IsQuiet (R : Db → Db → Type 0) : Type 0 where
  pub order : IsPreorder R
  pub touched :
      (at token_hash kind : Text) (d : Db)
      → R d (record d { tokens = touch_tokens at token_hash kind d.tokens })
  pub audited :
      (row : AuditRow) (d : Db) (rows : List AuditRow)
      → insert_audit_row row d.audit_logs ≡ some rows
      → R d (record d { audit_logs = rows })

-- The row of a body that the validator accepts.
pub record IsAccepted (rt : Runtime) (row : NodeRow) : Type 0 where
  pub body : Value
  pub valid : validate_node rt.number_of body ≡ ok tt
  pub at : Text
  pub node_id : Value
  pub name : Value
  pub region : Value
  pub host : Value
  pub ip : Value
  pub protocols : Value
  pub version : Value
  pub is_node_id : get body (codes "node_id") ≡ ok node_id
  pub is_name : get body (codes "name") ≡ ok name
  pub is_region : get body (codes "region") ≡ ok region
  pub is_ip : get body (codes "ip") ≡ ok ip
  pub is_host : get body (codes "host") ≡ ok host
  pub is_protocols : get body (codes "protocols") ≡ ok protocols
  pub is_version : get body (codes "schema_version") ≡ ok version
  pub bound :
      bind_node rt at node_id name
        (or_else region (str []))
        host
        (or_else ip (str []))
        (json_stringify protocols)
        version
      ≡ some row

-- R allows the writes of the handlers too.
pub record IsFrame (rt : Runtime) (R : Db → Db → Type 0) : Type 0 where
  pub quiet : IsQuiet R
  pub inserted :
      (id kind token at : Text) (d : Db) (tokens : List TokenRow)
      → insert_token_row (new_token rt id kind token at) d.tokens ≡ some tokens
      → R d (record d { tokens = tokens })
  pub upserted :
      (row : NodeRow)
      → IsAccepted rt row
      → (d : Db) → R d (record d { nodes = upsert_row row d.nodes })
  pub deleted : (node_id : Text) (d : Db) → R d (record d { nodes = delete_rows node_id d.nodes })

path_to :
    {A : Type 0} (R : Db → Db → Type 0) (a a' : A) (d d' c : Db)
    → ◌≡◌ {A = Option (A × Db)} (some (a, d)) (some (a', d'))
    → R c d
    → R c d'
path_to R a a' d d' c e h = subst (R c) (cc) h

map_path :
    {A : Type 0} (R : Db → Db → Type 0) (put : A → Db) (o : Option A) (c d' : Db) (t : Unit {0})
    → ((a : A) → o ≡ some a → R c (put a))
    → Option.map {B = Unit {0} × Db} (λ a. (tt, put a)) o ≡ some (t, d')
    → R c d'
map_path R put none c d' t h e = absurd (cc)
map_path R put (some a) c d' t h e = path_to R tt t (put a) d' c e (h a refl)

-- A statement that only reads.
reads_nothing :
    {A : Type 0} {R : Db → Db → Type 0} (rt : Runtime) (read : Db → A)
    → IsPreorder R
    → Steps R (statement rt (λ db. some (read db, db)))
reads_nothing {R} rt read o =
    Steps-statement rt _ o (λ d d' a e. path_to R (read d) a d d' d e (o.same d))

-- Writing to the audit log needs that R allows a new row of the log, and no more.
module _ (rt : Runtime) {R : Db → Db → Type 0} (order : IsPreorder R)
    (audited : (row : AuditRow) (d : Db) (rows : List AuditRow)
      → insert_audit_row row d.audit_logs ≡ some rows
      → R d (record d { audit_logs = rows })) where
  stamp-Steps : Steps R (now_iso rt)
  unfolding now_iso
  stamp-Steps = search step_rules

  audit_path :
      (id at : Text) (event : AuditEvent) (node_id : Option Text) (d d' : Db) (t : Unit {0})
      → and_then {B = Unit {0} × Db} node_id (λ n.
        Option.map {B = Unit {0} × Db}
          (λ rows. (tt, record d { audit_logs = rows }))
          (insert_audit_row (audit_row rt id at n event) d.audit_logs))
        ≡ some (t, d')
      → R d d'
  audit_path id at event none d d' t e = absurd (cc)
  audit_path id at event (some n) d d' t e =
      map_path R (λ rows. record d { audit_logs = rows }) _ d d' t (audited _ d) e

  pub logging-Steps : (event : AuditEvent) → Steps R (write_audit rt event)
  unfolding write_audit insert_audit
  logging-Steps event =
      Steps-try _ _ order
        (Steps-bind _ _ order (Steps-next_call order) λ call.
          Steps-bind _ _ order stamp-Steps
            λ at. Steps-statement rt _ order (λ d d' a e. audit_path _ at event _ d d' a e))
        (λ e. Steps-print _ order)

module _ (rt : Runtime) {R : Db → Db → Type 0} (quiet : IsQuiet R) where
  open quiet use {order}

  pub now_iso-Steps : Steps R (now_iso rt)
  unfolding now_iso
  now_iso-Steps = Steps-bind _ _ order (Steps-next_call order) (λ call. Steps-pure _ order)

  touch_found-Steps :
      (token_hash kind : Text) (row : Option TokenRow)
      → Steps R (touch_found rt token_hash kind row)
  unfolding touch_found
  touch_found-Steps token_hash kind none = Steps-pure none order
  touch_found-Steps token_hash kind (some row) = Steps-bind _ _ order now_iso-Steps λ at.
      Steps-bind _ _ order
        (Steps-statement rt _ order
          (λ d d' a e. path_to R tt a _ d' d e (quiet.touched at token_hash kind d)))
        (λ _. Steps-pure _ order)

  pub find_enabled_token-Steps : (kind token : Text) → Steps R (find_enabled_token rt kind token)
  unfolding find_enabled_token
  find_enabled_token-Steps kind token =
      Steps-if _ _ _ (Steps-pure _ order)
        (Steps-bind _ _ order (reads_nothing rt _ order) (touch_found-Steps _ kind))

  pub list_nodes-Steps : Steps R (list_nodes rt)
  unfolding list_nodes
  list_nodes-Steps = Steps-bind _ _ order (reads_nothing rt _ order) (λ rows. Steps-lift _ order)

  pub list_tokens-Steps : Steps R (list_tokens rt)
  unfolding list_tokens
  list_tokens-Steps = reads_nothing rt _ order

  pub write_audit-Steps : (event : AuditEvent) → Steps R (write_audit rt event)
  write_audit-Steps event = logging-Steps rt order quiet.audited event

module _ (rt : Runtime) {R : Db → Db → Type 0} (frame : IsFrame rt R) where
  open frame use {quiet, quiet.{order}}

  pub insert_token-Steps : (id kind token : Text) → Steps R (insert_token rt id kind token)
  unfolding insert_token
  insert_token-Steps id kind token = Steps-bind _ _ order (now_iso-Steps rt quiet) λ at.
      Steps-statement rt _ order λ d d' a e.
        map_path R (λ tokens. record d { tokens = tokens }) _ d d' a
          (frame.inserted id kind token at d) e

  delete_existing-Steps :
      (node_id : Text) (row : Option NodeRow) → Steps R (delete_existing rt node_id row)
  unfolding delete_existing
  delete_existing-Steps node_id none = Steps-pure false order
  delete_existing-Steps node_id (some row) =
      Steps-bind _ _ order
        (Steps-statement rt _ order (λ d d' a e. path_to R tt a _ d' d e (frame.deleted node_id d)))
        (λ _. Steps-pure true order)

  pub delete_node-Steps : (node_id : Text) → Steps R (delete_node rt node_id)
  unfolding delete_node
  delete_node-Steps node_id =
      Steps-bind _ _ order (reads_nothing rt _ order) (delete_existing-Steps node_id)

  pub upsert_node-Steps :
      (body : Value) → validate_node rt.number_of body ≡ ok tt → Steps R (upsert_node rt body)
  unfolding upsert_node
  upsert_node-Steps body valid = Steps-bind _ _ order (now_iso-Steps rt quiet) λ at.
      Steps-bind-lift _ _ order λ node_id is_id. Steps-bind-lift _ _ order λ name is_name.
        Steps-bind-lift _ _ order λ region is_region. Steps-bind-lift _ _ order λ host is_host.
          Steps-bind-lift _ _ order λ ip is_ip. Steps-bind-lift _ _ order λ protocols is_protocols.
            Steps-bind-lift _ _ order λ version is_version. Steps-statement rt _ order λ d d' a e.
              map_path R (λ row. record d { nodes = upsert_row row d.nodes }) _ d d' a
                (λ row bound.
                  frame.upserted row
                    (record {
                      body = body;
                      valid = valid;
                      at = at;
                      node_id = node_id;
                      name = name;
                      region = region;
                      host = host;
                      ip = ip;
                      protocols = protocols;
                      version = version;
                      is_node_id = is_id;
                      is_name = is_name;
                      is_region = is_region;
                      is_ip = is_ip;
                      is_host = is_host;
                      is_protocols = is_protocols;
                      is_version = is_version;
                      bound = bound;
                    })
                    d)
                e
