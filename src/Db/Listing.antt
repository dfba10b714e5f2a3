-- ===== src/Db/Listing.antt =====
-- What `ORDER BY node_id` lists is known from the registry alone: the order in which the rows stand
-- in the table does not matter.
use vpn_register_kit.Prelude.{
  ◌≡◌, refl, sym, ap, ◌∙◌, Bool, true, false, List, [], ◌∷◌, Option, none, some, Text, text_eq,
  text_eq_iff, map, select, arith, All, Bool-cases, if_elim, inl, inr,
}
use vpn_register_kit.Db.Commute.{IsAscii, insert_by_comm}
use vpn_register_kit.Db.Tables.{NodeRow, insert_by, order_by, select_node, delete_rows}
use vpn_register_kit.Runtime.{Runtime}
use vpn_register_kit.Act.{World, ◌>>=◌, statement}
use vpn_register_kit.Db.{rows_to_nodes, list_nodes}
use vpn_register_kit.Db.Keys.{contains, Distinct, Distinct-select}
use vpn_register_kit.Db.NodeTable.{select_node-delete_rows}

abbrev pub ids : List NodeRow → List Text
ids rows = map (λ (r : NodeRow). r.node_id) rows

abbrev pub listed : List NodeRow → List NodeRow
listed = order_by (λ (r : NodeRow). r.node_id)

abbrev insert_row : NodeRow → List NodeRow → List NodeRow
insert_row = insert_by (λ (r : NodeRow). r.node_id)

delete_absent :
    (k : Text) (rows : List NodeRow) → contains k (ids rows) ≡ false → delete_rows k rows ≡ rows
unfolding delete_rows
delete_absent k [] h = refl
delete_absent k (r ∷ rows) h = ground (arith, delete_absent k rows)

select_absent :
    (k : Text) (rows : List NodeRow) → contains k (ids rows) ≡ false → select_node k rows ≡ none
unfolding select_node
select_absent k [] h = refl
select_absent k (r ∷ rows) h = ground (arith, select_absent k rows)

-- A row of a table that is keyed, with ids in ASCII.
pub record IsKeyed (rows : List NodeRow) : Type 0 where
  pub distinct : Distinct (ids rows)
  pub ascii : All IsAscii (ids rows)

IsKeyed-tail : (r : NodeRow) (rows : List NodeRow) → IsKeyed (r ∷ rows) → IsKeyed rows
IsKeyed-tail r rows k = record { distinct = k.distinct.1; ascii = k.ascii.1 }

ok_row : (s r : NodeRow) → ◌≡◌ {A = Option NodeRow} (some s) (some r) → s ≡ r
ok_row s r e = cc

contains-eq :
    (j k : Text) (rows : List NodeRow)
    → text_eq j k ≡ true
    → contains j (ids rows) ≡ false
    → contains k (ids rows) ≡ false
contains-eq j k rows same h = ap (λ t. contains t (ids rows)) (sym ((text_eq_iff j k).0 same)) ∙ h

-- The list of a table, without one of its rows and with it inserted.
listed-delete_rows :
    (r : NodeRow) (rows : List NodeRow)
    → IsKeyed rows
    → IsAscii r.node_id
    → select_node r.node_id rows ≡ some r
    → listed rows ≡ insert_row r (listed (delete_rows r.node_id rows))
unfolding order_by select_node delete_rows
listed-delete_rows r [] k a h = absurd (cc)
listed-delete_rows r (s ∷ rows) k a h = elim (Bool-cases (text_eq s.node_id r.node_id)) [
  | inl same ↦
      let is_row : s ≡ r = ok_row s r (rw same at h) in
      let absent =
        delete_absent r.node_id rows (contains-eq s.node_id r.node_id rows same k.distinct.0) in
      rw (same, absent, is_row)
  | inr other ↦
      let later = listed-delete_rows r rows (IsKeyed-tail s rows k) a (rw other at h) in
      rw (other, later) (insert_by_comm (λ (r : NodeRow). r.node_id) s r _ k.ascii.0 a other)
]

All-ids-select :
    (p : NodeRow → Bool) (rows : List NodeRow)
    → All IsAscii (ids rows)
    → All IsAscii (ids (select p rows))
All-ids-select p [] h = tt
All-ids-select p (r ∷ rows) (h, hs) =
    if_elim (λ (l : List NodeRow). All IsAscii (ids l)) (p r) _ _
      (λ _. (h, All-ids-select p rows hs)) (λ _. All-ids-select p rows hs)

IsKeyed-delete_rows : (k : Text) (rows : List NodeRow) → IsKeyed rows → IsKeyed (delete_rows k rows)
unfolding delete_rows
IsKeyed-delete_rows k rows h = record {
  distinct = Distinct-select (λ (r : NodeRow). r.node_id) _ rows h.distinct;
  ascii = All-ids-select _ rows h.ascii;
}

select_node_first : (r : NodeRow) (rows : List NodeRow) → select_node r.node_id (r ∷ rows) ≡ some r
unfolding select_node
select_node_first r rows = rw ((text_eq_iff r.node_id r.node_id).1 refl)

select_node_other :
    (r : NodeRow) (k : Text) (rows : List NodeRow)
    → text_eq r.node_id k ≡ false
    → select_node k (r ∷ rows) ≡ select_node k rows
unfolding select_node
select_node_other r k rows h = rw h

no_row : (s : NodeRow) → select_node s.node_id [] ≡ some s → ⊥
unfolding select_node
no_row s e = cc

-- Two tables that select the same rows are listed alike.
listed_determined :
    (a b : List NodeRow)
    → IsKeyed a
    → IsKeyed b
    → ((k : Text) → select_node k a ≡ select_node k b)
    → listed a ≡ listed b
unfolding order_by
listed_determined [] [] ka kb h = refl
listed_determined [] (s ∷ b) ka kb h = absurd (no_row s (h s.node_id ∙ select_node_first s b))
listed_determined (r ∷ a) b ka kb h =
    let here : select_node r.node_id b ≡ some r = sym (h r.node_id) ∙ select_node_first r a in
    let rest =
      listed_determined a (delete_rows r.node_id b) (IsKeyed-tail r a ka)
        (IsKeyed-delete_rows r.node_id b kb) (λ k. without k) in
    ap (insert_row r) rest ∙ sym (listed-delete_rows r b kb ka.ascii.0 here)
  where
    without : (k : Text) → select_node k a ≡ select_node k (delete_rows r.node_id b)
    without k = elim (Bool-cases (text_eq r.node_id k)) [
      | inl same ↦
          select_absent k a (contains-eq r.node_id k a same ka.distinct.0)
          ∙ sym (rw same at (select_node-delete_rows r.node_id k b))
      | inr other ↦
          sym (select_node_other r k a other)
          ∙ h k
          ∙ sym (rw other at (select_node-delete_rows r.node_id k b))
    ]

-- `listNodes` of two tables that select the same row for every id returns the same nodes, or throws
-- the same error; both tables have distinct ids, in ASCII.
pub list_nodes_determined :
    (rt : Runtime) (w : World) (rows : List NodeRow)
    → IsKeyed w.db.nodes
    → IsKeyed rows
    → ((k : Text) → select_node k w.db.nodes ≡ select_node k rows)
    → (list_nodes rt w).0 ≡ (list_nodes rt (record w { db = record w.db { nodes = rows } })).0
unfolding list_nodes ◌>>=◌ statement
list_nodes_determined rt w rows ka kb same = elim (Bool-cases (rt.d1_fails w.calls)) [
  | inl fails ↦ rw fails
  | inr runs ↦ rw (runs) (ap (rows_to_nodes rt) (listed_determined w.db.nodes rows ka kb same))
]
