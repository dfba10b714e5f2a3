-- ===== src/Db/Tables.antt =====
-- The tables of migrations/0001_init.sql, and the SQL statements of db.js as functions on them. A
-- statement that breaks a constraint of the schema is refused: none.
use vpn_register_kit.Prelude.{
  ℕ, Bool, true, false, not, ◌&&◌, ◌||◌, List, [], ◌∷◌, ◌++◌, Option, none, some, Text, codes,
  text_eq, ltb, ◌==◌, if◌then◌else◌, select, first, any, map,
}
use vpn_register_kit.Js.Number.{Number}
use vpn_register_kit.Js.Utf8.{utf8}

pub record TokenRow : Type 0 where
  pub id : Text
  pub kind : Text
  pub token_hash : Text
  pub token_hint : Text
  pub enabled : ℕ
  pub created_at : Text
  pub last_used_at : Option Text

pub record NodeRow : Type 0 where
  pub node_id : Text
  pub name : Text
  pub region : Text
  pub host : Text
  pub ip : Text
  pub protocols_json : Text
  pub schema_version : Number
  pub created_at : Text
  pub updated_at : Text

pub record AuditRow : Type 0 where
  pub id : Text
  pub event_type : Text
  pub remote_ip : Text
  pub user_agent : Text
  pub token_hint : Text
  pub node_id : Text
  pub format : Text
  pub status : ℕ
  pub created_at : Text

pub record Db : Type 0 where
  pub nodes : List NodeRow
  pub tokens : List TokenRow
  pub audit_logs : List AuditRow

-- The order of the column text: that of its UTF-8 bytes.
unfoldable pub bytes_le : List ℕ → List ℕ → Bool
bytes_le [] bs = true
bytes_le (a ∷ as_) [] = false
bytes_le (a ∷ as_) (b ∷ bs) = ltb a b || ((a == b) && bytes_le as_ bs)

unfoldable pub text_le : Text → Text → Bool
unfolding bytes_le utf8
text_le s t = bytes_le (utf8 s) (utf8 t)

-- `ORDER BY key ASC`: an insertion sort that keeps equal keys in place.
module _ {ℓ} {A : Type ℓ} (key : A → Text) where
  unfoldable pub insert_by : A → List A → List A
  insert_by a [] = a ∷ []
  insert_by a (b ∷ bs) =
      let later = insert_by a bs in if text_le (key a) (key b) then a ∷ b ∷ bs else b ∷ later

  unfoldable pub order_by : List A → List A
  unfolding insert_by
  order_by [] = []
  order_by (a ∷ as_) = insert_by a (order_by as_)

unfoldable pub is_usable : Text → Text → TokenRow → Bool
is_usable token_hash kind row =
    text_eq row.token_hash token_hash && (text_eq row.kind kind && (row.enabled == 1))

-- SELECT * FROM tokens WHERE token_hash = ? AND kind = ? AND enabled = 1
unfoldable pub select_token : Text → Text → List TokenRow → Option TokenRow
unfolding is_usable
select_token token_hash kind rows = first (select (is_usable token_hash kind) rows)

-- UPDATE tokens SET last_used_at = ? WHERE token_hash = ? AND kind = ?
unfoldable pub touch_row : Text → Text → Text → TokenRow → TokenRow
touch_row at token_hash kind row =
    if text_eq row.token_hash token_hash && text_eq row.kind kind
    then record row { last_used_at = some at }
    else row

unfoldable pub touch_tokens : Text → Text → Text → List TokenRow → List TokenRow
unfolding touch_row
touch_tokens at token_hash kind rows = map (touch_row at token_hash kind) rows

-- CHECK (kind IN ('register', 'subscribe'))
pub is_kind : Text → Bool
is_kind kind = text_eq kind (codes "register") || text_eq kind (codes "subscribe")

-- INSERT INTO tokens: the id is the primary key, and the hash is unique
unfoldable pub insert_token_row : TokenRow → List TokenRow → Option (List TokenRow)
unfolding is_kind
insert_token_row row rows =
    if is_kind row.kind
      && (not (any (λ (r : TokenRow). text_eq r.id row.id) rows)
          && not (any (λ (r : TokenRow). text_eq r.token_hash row.token_hash) rows))
    then some (rows ++ row ∷ [])
    else none

unfoldable pub has_node : Text → List NodeRow → Bool
has_node node_id rows = any (λ (r : NodeRow). text_eq r.node_id node_id) rows

-- ON CONFLICT(node_id) DO UPDATE SET: all but `created_at`
unfoldable pub update_row : NodeRow → NodeRow → NodeRow
update_row new row =
    if text_eq row.node_id new.node_id then record new { created_at = row.created_at } else row

unfoldable pub upsert_row : NodeRow → List NodeRow → List NodeRow
unfolding has_node update_row
upsert_row new rows =
    if has_node new.node_id rows then map (update_row new) rows else rows ++ new ∷ []

-- SELECT * FROM nodes WHERE node_id = ?
unfoldable pub select_node : Text → List NodeRow → Option NodeRow
select_node node_id rows = first (select (λ (r : NodeRow). text_eq r.node_id node_id) rows)

-- DELETE FROM nodes WHERE node_id = ?
unfoldable pub delete_rows : Text → List NodeRow → List NodeRow
delete_rows node_id rows = select (λ (r : NodeRow). not (text_eq r.node_id node_id)) rows

-- INSERT INTO audit_logs: the id is the primary key
unfoldable pub insert_audit_row : AuditRow → List AuditRow → Option (List AuditRow)
insert_audit_row row rows =
    if any (λ (r : AuditRow). text_eq r.id row.id) rows then none else some (rows ++ row ∷ [])
