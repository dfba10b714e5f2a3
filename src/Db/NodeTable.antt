-- ===== src/Db/NodeTable.antt =====
-- The node table as a map from ids to rows.
use vpn_register_kit.Prelude.{
  ◌≡◌, refl, Bool, true, false, List, [], ◌∷◌, ◌++◌, Option, none, some, Text, text_eq, text_eq_iff,
  map, arith, if◌then◌else◌,
}
use vpn_register_kit.Db.Tables.{NodeRow, has_node, update_row, upsert_row, select_node, delete_rows}

-- The new row, with the date of the row that it replaces.
abbrev pub merge : NodeRow → Option NodeRow → NodeRow
merge new none = new
merge new (some old) = record new { created_at = old.created_at }

select_node-update :
    (new : NodeRow) (k : Text) (rows : List NodeRow)
    → select_node k (map (update_row new) rows) ≡ (
        if text_eq new.node_id k
        then (elim (select_node new.node_id rows) [
          | none ↦ none
          | some old ↦ some (merge new (some old))
        ])
        else select_node k rows)
unfolding select_node update_row
select_node-update new k [] = ground arith
select_node-update new k (r ∷ rows) = ground (
  arith,
  select_node-update new k rows,
  text_eq_iff new.node_id k,
  text_eq_iff r.node_id new.node_id,
  text_eq_iff r.node_id k,
)

abbrev is_found : Option NodeRow → Bool
is_found none = false
is_found (some r) = true

abbrev or_else_row : Option NodeRow → Option NodeRow → Option NodeRow
or_else_row none b = b
or_else_row (some r) b = some r

pub has_node-select_node :
    (k : Text) (rows : List NodeRow) → has_node k rows ≡ is_found (select_node k rows)
unfolding has_node select_node
has_node-select_node k [] = refl
has_node-select_node k (r ∷ rows) = ground (arith, has_node-select_node k rows)

select_node-append_one :
    (k : Text) (rows : List NodeRow) (new : NodeRow)
    → select_node k (rows ++ new ∷ [])
      ≡ or_else_row (select_node k rows) (if text_eq new.node_id k then some new else none)
unfolding select_node
select_node-append_one k [] new = ground arith
select_node-append_one k (r ∷ rows) new = ground (arith, select_node-append_one k rows new)

-- After an upsert the id has the new row, with the old date of creation if there was one; every
-- other id has what it had.
pub select_node-upsert_row :
    (new : NodeRow) (k : Text) (rows : List NodeRow)
    → select_node k (upsert_row new rows) ≡ (
        if text_eq new.node_id k
        then some (merge new (select_node new.node_id rows))
        else select_node k rows)
unfolding upsert_row
select_node-upsert_row new k rows = ground (
  arith,
  select_node-update new k rows,
  select_node-append_one k rows new,
  has_node-select_node new.node_id rows,
  text_eq_iff new.node_id k,
)

-- After a deletion the id has no row; every other id has what it had.
pub select_node-delete_rows :
    (node_id k : Text) (rows : List NodeRow)
    → select_node k (delete_rows node_id rows)
      ≡ (if text_eq node_id k then none else select_node k rows)
unfolding select_node delete_rows
select_node-delete_rows node_id k [] = ground arith
select_node-delete_rows node_id k (r ∷ rows) = ground (
  arith,
  select_node-delete_rows node_id k rows,
  text_eq_iff r.node_id node_id,
  text_eq_iff node_id k,
  text_eq_iff r.node_id k,
)
