-- ===== src/Tests/Tables.antt =====
-- The tables of the demo registry.
use vpn_register_kit.Prelude.{
  ◌≡◌, refl, codes, none, some, [], ◌∷◌, if◌then◌else◌, text_eq, text_eq_iff, Text, arith,
}
use vpn_register_kit.Db.Tables.{
  select_node, upsert_row, delete_rows, select_token, insert_token_row,
}
use vpn_register_kit.Db.NodeTable.{merge, select_node-upsert_row, select_node-delete_rows}
use vpn_register_kit.Db.Reading.{ListingRun, list_nodes_lists}
use vpn_register_kit.Db.TokenTable.{select_token-insert}
use vpn_register_kit.Act.{World}
use vpn_register_kit.Db.{list_nodes}
use vpn_register_kit.Db.Listing.{IsKeyed, list_nodes_determined}
use vpn_register_kit.Tests.Demo.{demo, start, seoul, osaka, register_row, subscribe_row}
use vpn_register_kit.Tests.Runs.{runs}

inserted :
    insert_token_row subscribe_row (register_row ∷ []) ≡ some (register_row ∷ subscribe_row ∷ [])
unfolding runs
inserted = refl

select_node-upsert_row_example : select_node (codes "jp-2") (upsert_row osaka (seoul ∷ [])) ≡ (
    if text_eq osaka.node_id (codes "jp-2")
    then some (merge osaka (select_node osaka.node_id (seoul ∷ [])))
    else select_node (codes "jp-2") (seoul ∷ []))
select_node-upsert_row_example = select_node-upsert_row osaka (codes "jp-2") (seoul ∷ [])

select_node-delete_rows_example :
    select_node (codes "kr-1") (delete_rows (codes "jp-2") (osaka ∷ seoul ∷ [])) ≡ (
      if text_eq (codes "jp-2") (codes "kr-1")
      then none
      else select_node (codes "kr-1") (osaka ∷ seoul ∷ []))
select_node-delete_rows_example =
    select_node-delete_rows (codes "jp-2") (codes "kr-1") (osaka ∷ seoul ∷ [])

select_token-insert_example :
    select_token subscribe_row.token_hash (codes "subscribe") (register_row ∷ subscribe_row ∷ [])
    ≡ (if text_eq subscribe_row.token_hash subscribe_row.token_hash
        then (if text_eq subscribe_row.kind (codes "subscribe") then some subscribe_row else none)
        else select_token subscribe_row.token_hash (codes "subscribe") (register_row ∷ []))
select_token-insert_example =
    select_token-insert subscribe_row (register_row ∷ []) (register_row ∷ subscribe_row ∷ [])
      subscribe_row.token_hash (codes "subscribe") refl inserted

abbrev demo_nodes : World
demo_nodes = record start { db = record start.db { nodes = seoul ∷ osaka ∷ [] } }

list_nodes_lists_example : ListingRun demo demo_nodes.db.nodes (list_nodes demo demo_nodes).0
unfolding runs
list_nodes_lists_example = list_nodes_lists demo demo_nodes (λ call. refl)

in_order : IsKeyed (seoul ∷ osaka ∷ [])
unfolding runs
in_order = record { distinct = (refl, (refl, tt)); ascii = (refl, (refl, tt)) }

turned : IsKeyed (osaka ∷ seoul ∷ [])
unfolding runs
turned = record { distinct = (refl, (refl, tt)); ascii = (refl, (refl, tt)) }

same_rows : (k : Text) → select_node k (seoul ∷ osaka ∷ []) ≡ select_node k (osaka ∷ seoul ∷ [])
unfolding select_node codes
same_rows k = ground (arith, text_eq_iff seoul.node_id k, text_eq_iff osaka.node_id k)

list_nodes_determined_example :
    (list_nodes demo demo_nodes).0
    ≡ (list_nodes demo
        (record demo_nodes { db = record demo_nodes.db { nodes = osaka ∷ seoul ∷ [] } })).0
list_nodes_determined_example =
    list_nodes_determined demo demo_nodes (osaka ∷ seoul ∷ []) in_order turned same_rows
