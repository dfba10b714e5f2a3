-- ===== src/Db/Stored.antt =====
-- The rows of the node table are rows of bodies that `validateNode` has accepted.
use vpn_register_kit.Prelude.{
  ◌≡◌, refl, Bool, List, [], ◌∷◌, Text, text_eq, map, select, if_elim, All, All-append,
}
use vpn_register_kit.Runtime.{Runtime}
use vpn_register_kit.Db.Tables.{Db, NodeRow, has_node, update_row, upsert_row, delete_rows}
use vpn_register_kit.Db.Frames.{IsAccepted, IsFrame}

-- The row of an accepted body, with the date of the first one under its id.
pub record IsStored (rt : Runtime) (row : NodeRow) : Type 0 where
  pub last : NodeRow
  pub accepted : IsAccepted rt last
  pub created_at : Text
  pub is_row : row ≡ record last { created_at = created_at }

pub accepted-IsStored : (rt : Runtime) (row : NodeRow) → IsAccepted rt row → IsStored rt row
accepted-IsStored rt row a = record {
  last = row;
  accepted = a;
  created_at = row.created_at;
  is_row = refl;
}

abbrev pub AllStored : Runtime → Db → Type 0
AllStored rt d = All (IsStored rt) d.nodes

module _ (rt : Runtime) where
  update_row-IsStored :
      (new row : NodeRow) → IsAccepted rt new → IsStored rt row → IsStored rt (update_row new row)
  unfolding update_row
  update_row-IsStored new row a s =
      if_elim (IsStored rt) (text_eq row.node_id new.node_id) _ _
        (λ _. record { last = new; accepted = a; created_at = row.created_at; is_row = refl })
        (λ _. s)

  updated :
      (new : NodeRow) (rows : List NodeRow)
      → IsAccepted rt new
      → All (IsStored rt) rows
      → All (IsStored rt) (map (update_row new) rows)
  updated new [] a h = tt
  updated new (r ∷ rows) a (h, hs) = (update_row-IsStored new r a h, updated new rows a hs)

  upsert_row-AllStored :
      (new : NodeRow) (rows : List NodeRow)
      → IsAccepted rt new
      → All (IsStored rt) rows
      → All (IsStored rt) (upsert_row new rows)
  unfolding upsert_row
  upsert_row-AllStored new rows a h =
      if_elim (All (IsStored rt)) (has_node new.node_id rows) _ _ (λ _. updated new rows a h)
        (λ _. All-append (IsStored rt) rows _ h (accepted-IsStored rt new a, tt))

  selected :
      (p : NodeRow → Bool) (rows : List NodeRow)
      → All (IsStored rt) rows
      → All (IsStored rt) (select p rows)
  selected p [] h = tt
  selected p (r ∷ rows) (h, hs) =
      if_elim (All (IsStored rt)) (p r) _ _ (λ _. (h, selected p rows hs)) (λ _. selected p rows hs)

  pub AllStored-frame : IsFrame rt (λ a b. AllStored rt a → AllStored rt b)
  unfolding delete_rows
  AllStored-frame = record {
    quiet = record {
      order = record { same = λ d s. s; chain = λ f g s. g (f s) };
      touched = λ at token_hash kind d s. s;
      audited = λ row d rows h s. s;
    };
    inserted = λ id kind token at d tokens h s. s;
    upserted = λ row ok d s. upsert_row-AllStored row d.nodes ok s;
    deleted = λ node_id d s. selected _ d.nodes s;
  }
