-- ===== src/Db/Reading.antt =====
-- What `listNodes` returns: the rows of the table as nodes, whose ids ascend.
use mathlib.Core.List.{Perm, Mem, mem-cons_self, mem-cons_of_mem}
use mathlib.Core.List.Perm
use mathlib.Core.Path.{subst}
use vpn_register_kit.Prelude.{
  ◌≡◌, refl, sym, ap, List, [], ◌∷◌, Text, codes, is_empty, if◌then◌else◌,
}
use vpn_register_kit.Js.Value.{Value}
use vpn_register_kit.Js.Result.{Thrown, Result, ok, err, ◌>>=◌}
use vpn_register_kit.Runtime.{Runtime}
use vpn_register_kit.Act.{World, lift}
use vpn_register_kit.Act.Returns.{IsHealthy, bind_run, read_run}
use vpn_register_kit.Db.Tables.{Db, NodeRow, order_by}
use vpn_register_kit.Db.Rows.{Node, json_parse, row_to_node}
use vpn_register_kit.Db.Order.{Ascending, order_by-Ascending, order_by-Perm}
use vpn_register_kit.Db.{rows_to_nodes, list_nodes}

-- the JSON of a row; an empty text stands for no protocols
abbrev pub protocols_of : NodeRow → Text
protocols_of row = if is_empty row.protocols_json then codes "[]" else row.protocols_json

module _ (rt : Runtime) where
  -- The node has the columns of the row, and the value of its JSON.
  pub record IsNodeOf (row : NodeRow) (node : Node) : Type 0 where
    pub schema_version : node.schema_version ≡ row.schema_version
    pub node_id : node.node_id ≡ row.node_id
    pub name : node.name ≡ row.name
    pub region : node.region ≡ row.region
    pub host : node.host ≡ row.host
    pub ip : node.ip ≡ row.ip
    pub created_at : node.created_at ≡ row.created_at
    pub updated_at : node.updated_at ≡ row.updated_at
    pub protocols : json_parse rt (protocols_of row) ≡ ok node.protocols

  -- Row by row, the nodes are those of the rows.
  abbrev pub AreNodesOf : List NodeRow → List Node → Type 0
  AreNodesOf [] [] = Unit
  AreNodesOf (row ∷ rows) (node ∷ nodes) = IsNodeOf row node × AreNodesOf rows nodes
  AreNodesOf [] (node ∷ nodes) = ⊥
  AreNodesOf (row ∷ rows) [] = ⊥

  -- Every row of the table as a node, the ids ascending.
  pub record IsListing (rows : List NodeRow) (nodes : List Node) : Type 0 where
    pub source : List NodeRow
    pub same_rows : Perm source rows
    pub are_nodes : AreNodesOf source nodes
    pub ascending : Ascending (λ (n : Node). n.node_id) nodes

  -- The table has a row whose JSON does not parse, with this error.
  pub record IsUnreadable (rows : List NodeRow) (e : Thrown) : Type 0 where
    pub row : NodeRow
    pub present : Mem row rows
    pub fails : json_parse rt (protocols_of row) ≡ err e

  abbrev pub ListingRun : List NodeRow → Result (List Node) → Type 0
  ListingRun rows (ok nodes) = IsListing rows nodes
  ListingRun rows (err e) = IsUnreadable rows e

  abbrev RowRun : NodeRow → Result Node → Type 0
  RowRun row (ok node) = IsNodeOf row node
  RowRun row (err e) = json_parse rt (protocols_of row) ≡ err e

  abbrev RowsRun : List NodeRow → Result (List Node) → Type 0
  RowsRun rows (ok nodes) = AreNodesOf rows nodes
  RowsRun rows (err e) = IsUnreadable rows e

  abbrev node_of : NodeRow → Value → Node
  node_of row protocols = record {
    schema_version = row.schema_version;
    node_id = row.node_id;
    name = row.name;
    region = row.region;
    host = row.host;
    ip = row.ip;
    protocols = protocols;
    created_at = row.created_at;
    updated_at = row.updated_at;
  }

  parsed_run :
      (row : NodeRow) (r : Result Value)
      → json_parse rt (protocols_of row) ≡ r
      → RowRun row (r >>= λ protocols. ok (node_of row protocols))
  parsed_run row (err e) h = h
  parsed_run row (ok v) h = record {
    schema_version = refl;
    node_id = refl;
    name = refl;
    region = refl;
    host = refl;
    ip = refl;
    created_at = refl;
    updated_at = refl;
    protocols = h;
  }

  row_to_node_run : (row : NodeRow) → RowRun row (row_to_node rt row)
  unfolding row_to_node
  row_to_node_run row = parsed_run row (json_parse rt (protocols_of row)) refl

  cons_run :
      (row : NodeRow) (rows : List NodeRow) (a : Result Node) (b : Result (List Node))
      → RowRun row a
      → RowsRun rows b
      → RowsRun (row ∷ rows) (elim a [
        | err e ↦ err e
        | ok node ↦ elim b [ err e ↦ err e | ok nodes ↦ ok (node ∷ nodes) ]
      ])
  cons_run row rows (err e) b h hs = record { row = row; present = mem-cons_self; fails = h }
  cons_run row rows (ok node) (err e) h hs = record {
    row = hs.row;
    present = mem-cons_of_mem row hs.present;
    fails = hs.fails;
  }
  cons_run row rows (ok node) (ok nodes) h hs = (h, hs)

  rows_to_nodes_run : (rows : List NodeRow) → RowsRun rows (rows_to_nodes rt rows)
  unfolding rows_to_nodes
  rows_to_nodes_run [] = tt
  rows_to_nodes_run (row ∷ rows) =
      cons_run row rows _ _ (row_to_node_run row) (rows_to_nodes_run rows)

  -- The ids of the nodes ascend as those of the rows do.
  AreNodesOf-Ascending :
      (rows : List NodeRow) (nodes : List Node)
      → AreNodesOf rows nodes
      → Ascending (λ (r : NodeRow). r.node_id) rows
      → Ascending (λ (n : Node). n.node_id) nodes
  AreNodesOf-Ascending [] [] h s = tt
  AreNodesOf-Ascending [] (node ∷ nodes) h s = absurd h
  AreNodesOf-Ascending (row ∷ []) (node ∷ []) h s = tt
  AreNodesOf-Ascending (row ∷ []) [] h s = absurd h
  AreNodesOf-Ascending (row ∷ []) (node ∷ node' ∷ nodes) (h, hs) s = absurd hs
  AreNodesOf-Ascending (row ∷ row' ∷ rows) [] h s = absurd h
  AreNodesOf-Ascending (row ∷ row' ∷ rows) (node ∷ []) (h, hs) s = absurd hs
  AreNodesOf-Ascending (row ∷ row' ∷ rows) (node ∷ node' ∷ nodes) (h, (h', hs)) (le, s) =
      (rw (h.node_id, h'.node_id) le, AreNodesOf-Ascending (row' ∷ rows) (node' ∷ nodes) (h', hs) s)

  ordered_run :
      (rows source : List NodeRow) (a : Result (List Node))
      → Perm source rows
      → Ascending (λ (r : NodeRow). r.node_id) source
      → RowsRun source a
      → ListingRun rows a
  ordered_run rows source (ok nodes) p s h = record {
    source = source;
    same_rows = p;
    are_nodes = h;
    ascending = AreNodesOf-Ascending source nodes h s;
  }
  ordered_run rows source (err e) p s h = record {
    row = h.row;
    present = (Perm.mem_iff p).0 h.present;
    fails = h.fails;
  }

  -- While D1 is in reach, `listNodes` returns every row of the table as a node, the ids ascending as
  -- UTF-8; or it throws the error of a row whose JSON does not parse.
  pub list_nodes_lists : (w : World) → IsHealthy rt → ListingRun w.db.nodes (list_nodes rt w).0
  unfolding list_nodes
  list_nodes_lists w healthy =
      let read = λ (db : Db). order_by (λ (r : NodeRow). r.node_id) db.nodes in
      let key = λ (r : NodeRow). r.node_id in
      subst (ListingRun w.db.nodes)
        (sym (
          ap (λ x. x.0)
            (bind_run _ (λ rows. lift (rows_to_nodes rt rows)) w (read w.db)
              (read_run rt read w healthy))))
        (ordered_run w.db.nodes (read w.db) _ (order_by-Perm key w.db.nodes)
          (order_by-Ascending key w.db.nodes) (rows_to_nodes_run (read w.db)))
