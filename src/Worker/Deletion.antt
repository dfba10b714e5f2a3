-- ===== src/Worker/Deletion.antt =====
-- What the answers of `deleteNodeFromPath` say of the node table.
use vpn_register_kit.Prelude.{
  ◌≡◌, refl, sym, ◌⊎◌, inl, inr, Bool, true, false, not, List, Option, none, some, Text, arith,
  length, drop, if_elim, if◌then◌else◌,
}
use vpn_register_kit.Js.Decode.{decode_uri_component}
use vpn_register_kit.Js.Regex.{test}
use vpn_register_kit.Js.Result.{ok}
use vpn_register_kit.Validators.{node_id_pattern}
use vpn_register_kit.Runtime.{Runtime}
use vpn_register_kit.Http.{Request, Response, json, text}
use vpn_register_kit.Act.{World}
use vpn_register_kit.Act.Performs.{
  Performs, Performs-pure, Performs-statement, Performs-after, Performs-lift, Performs-bind,
  Performs-mono,
}
use vpn_register_kit.Db.Tables.{NodeRow, has_node, select_node, delete_rows}
use vpn_register_kit.Db.NodeTable.{has_node-select_node}
use vpn_register_kit.Db.Frames.{write_audit-Steps}
use vpn_register_kit.Db.{delete_existing, delete_node}
use vpn_register_kit.Worker.Frames.{log_info-Steps}
use vpn_register_kit.Worker.Effects.{SameNodes-quiet, SameNodes-order}
use vpn_register_kit.Worker.Nodes.{report_deleted, delete_valid, delete_node_from_path, decoded}

module _ (rt : Runtime) (request : Request) where
  abbrev DeleteResult : Text → Bool → List NodeRow → List NodeRow → Type 0
  DeleteResult node_id deleted rows rows' =
      (deleted ≡ has_node node_id rows)
      × (rows' ≡ (if deleted then delete_rows node_id rows else rows))

  abbrev Selected : Text → Option NodeRow → List NodeRow → List NodeRow → Type 0
  Selected node_id found rows rows' = (found ≡ select_node node_id rows) × (rows' ≡ rows)

  delete_existing-Performs :
      (node_id : Text) (found : Option NodeRow)
      → Performs
          (λ deleted rs rs'.
            (ns : List NodeRow)
            → Selected node_id found ns rs
            → DeleteResult node_id deleted ns rs')
          (delete_existing rt node_id found)
  unfolding delete_existing
  delete_existing-Performs node_id none =
      Performs-pure _ false
        λ rows ns (e, same). (rw (has_node-select_node node_id ns, ← e) refl, same)
  delete_existing-Performs node_id (some row) =
      Performs-bind _ (λ t rs rs'. rs' ≡ delete_rows node_id rs) _ _
        (Performs-statement _ rt _ (λ d d' t e. ground arith))
        (λ t. Performs-pure _ true λ rows ns cut ns' (e, same).
          (rw (has_node-select_node node_id ns', ← e) refl, rw (← same) cut))

  delete_node-Performs : (node_id : Text) → Performs (DeleteResult node_id) (delete_node rt node_id)
  unfolding delete_node
  delete_node-Performs node_id =
      Performs-bind _ (Selected node_id) _ _
        (Performs-statement _ rt _ (λ d d' found e. ground arith))
        (delete_existing-Performs node_id)

  -- The three answers of a deletion whose path can be decoded.
  abbrev pub DeleteOutcome : Text → Response → List NodeRow → List NodeRow → Type 0
  DeleteOutcome node_id r rows rows' =
      ((test node_id_pattern node_id ≡ false) × (r.status ≡ 400) × (rows' ≡ rows))
      ⊎ ((test node_id_pattern node_id ≡ true)
          × (has_node node_id rows ≡ false)
          × (r.status ≡ 404)
          × (rows' ≡ rows))
      ⊎ ((test node_id_pattern node_id ≡ true)
          × (has_node node_id rows ≡ true)
          × (r.status ≡ 200)
          × (rows' ≡ delete_rows node_id rows))

  report_deleted-Performs :
      (node_id : Text) (deleted : Bool)
      → test node_id_pattern node_id ≡ true
      → Performs
          (λ r rs rs'.
            (ns : List NodeRow)
            → DeleteResult node_id deleted ns rs
            → DeleteOutcome node_id r ns rs')
          (report_deleted rt request node_id deleted)
  unfolding report_deleted text json
  report_deleted-Performs node_id false valid =
      Performs-after _ _ _ (write_audit-Steps rt SameNodes-quiet _)
        λ _. Performs-pure _ _ λ rows ns (e, same). inr (inl (valid, sym e, refl, same))
  report_deleted-Performs node_id true valid =
      Performs-after _ _ _ (write_audit-Steps rt SameNodes-quiet _) λ _.
        Performs-after _ _ _ (log_info-Steps SameNodes-order _ _)
          λ _. Performs-pure _ _ λ rows ns (e, same). inr (inr (valid, sym e, refl, same))

  abbrev pub PathOutcome : Text → Response → List NodeRow → List NodeRow → Type 0
  PathOutcome prefix r rows rows' =
      (node_id : Text) × (decode_uri_component (drop (length prefix) request.pathname)
        ≡ some node_id)
      × DeleteOutcome node_id r rows rows'

  decoded-some : (o : Option Text) (t : Text) → decoded rt request o ≡ ok t → o ≡ some t
  decoded-some none t e = cc
  decoded-some (some s) t e = ground arith

  delete_node_from_path-Performs :
      (prefix : Text) → Performs (PathOutcome prefix) (delete_node_from_path rt request prefix)
  unfolding delete_node_from_path delete_valid text
  delete_node_from_path-Performs prefix = Performs-lift _ _ _ λ node_id is_decoded.
      let from_path = decoded-some _ node_id is_decoded in
      if_elim (Performs (PathOutcome prefix)) (not (test node_id_pattern node_id)) _ _
        (λ bad. Performs-pure _ _ (λ rows. (node_id, from_path, inl (ground arith, refl, refl))))
        (λ good.
          Performs-bind _ (DeleteResult node_id) _ _ (delete_node-Performs node_id) λ deleted.
            Performs-mono _ _ _
              (λ r rs rs' outcome ns result. (node_id, from_path, outcome ns result))
              (report_deleted-Performs node_id deleted (ground arith)))

-- An answer of `deleteNodeFromPath` tells what became of the decoded id: 400 and no change where it
-- is malformed, 404 and no change where the table lacks it, and 200 where the table had it and its
-- rows, and no others, are gone.
pub delete_node_from_path_outcome :
    (rt : Runtime) (request : Request) (prefix : Text) (w : World) (r : Response)
    → (delete_node_from_path rt request prefix w).0 ≡ ok r
    → PathOutcome rt request prefix r w.db.nodes
        (delete_node_from_path rt request prefix w).1.db.nodes
delete_node_from_path_outcome rt request prefix w r =
    (delete_node_from_path-Performs rt request prefix).at w r
