-- ===== src/Worker/Storage.antt =====
-- What an orderly registration leaves in the node table.
use vpn_register_kit.Prelude.{
  ◌≡◌, refl, sym, ap, ◌∙◌, inl, inr, true, false, List, [], Option, some, Text, codes, text_eq,
  is_empty, if◌then◌else◌,
}
use vpn_register_kit.Js.Value.{Value, str, get, or_else}
use vpn_register_kit.Js.Json.{json_stringify}
use vpn_register_kit.Js.Result.{Result, ok}
use vpn_register_kit.Auth.{bearer_token, hash_token}
use vpn_register_kit.Runtime.{Runtime, IsRuntime}
use vpn_register_kit.Http.{Request, json}
use vpn_register_kit.Act.{World}
use vpn_register_kit.Act.Returns.{IsHealthy}
use vpn_register_kit.Validators.{validate_node}
use vpn_register_kit.Validators.Nodes.{IsNode, validate_node_iff}
use vpn_register_kit.Db.Tables.{NodeRow, TokenRow, select_node, select_token, upsert_row}
use vpn_register_kit.Db.Rows.{bind_node}
use vpn_register_kit.Db.NodeTable.{merge, select_node-upsert_row}
use vpn_register_kit.Db.Frames.{IsAccepted}
use vpn_register_kit.Db.Success.{IsPlain, plain_row, bind_node-plain}
use vpn_register_kit.Worker.Reply.{json_ok, method_is, max_register_bytes, read_limited_json}
use vpn_register_kit.Worker.Register.{handle_register}
use vpn_register_kit.Worker.Effects.{RegisterOutcome, handle_register_returned}
use vpn_register_kit.Worker.Success.{IsTextual, plain, handle_register_succeeds}

ok_value : {a b : Value} → ◌≡◌ {A = Result Value} (ok a) (ok b) → a ≡ b
ok_value h = cc

some_row : {a b : NodeRow} → ◌≡◌ {A = Option NodeRow} (some a) (some b) → a ≡ b
some_row h = cc

module _ (rt : Runtime) (body : Value) (p : IsPlain rt body) (r : IsRuntime rt) where
  -- The row of an accepted body is that of its texts.
  accepted_row :
      (row : NodeRow) (a : IsAccepted rt row) → a.body ≡ body → row ≡ plain_row rt body p a.at
  accepted_row row a same =
      let at = λ (k : Text). ap (λ v. get v k) same in
      let node_id = ok_value (sym a.is_node_id ∙ at (codes "node_id") ∙ p.has_node_id) in
      let name = ok_value (sym a.is_name ∙ at (codes "name") ∙ p.has_name) in
      let region = ok_value (sym a.is_region ∙ at (codes "region") ∙ p.has_region) in
      let host = ok_value (sym a.is_host ∙ at (codes "host") ∙ p.has_host) in
      let ip = ok_value (sym a.is_ip ∙ at (codes "ip") ∙ p.has_ip) in
      let protocols = ok_value (sym a.is_protocols ∙ at (codes "protocols") ∙ p.has_protocols) in
      let version = ok_value (sym a.is_version ∙ at (codes "schema_version") ∙ p.has_version) in
      some_row (
        sym a.bound
        ∙ (λ i.
            bind_node rt a.at (node_id i) (name i) (or_else (region i) (str [])) (host i)
              (or_else (ip i) (str [])) (json_stringify (protocols i)) (version i))
        ∙ bind_node-plain rt body p a.at r)

-- The table has the row of the body's texts under its id, with the date of creation of the row that
-- it replaces, if any; every other id has what it had.
pub record IsStored (body : Value) (t : IsTextual body) (rows rows' : List NodeRow) : Type 0 where
  pub row : NodeRow
  pub node_id : row.node_id ≡ t.node_id
  pub name : row.name ≡ t.name
  pub region : row.region ≡ t.region_text
  pub host : row.host ≡ t.host
  pub ip : row.ip ≡ t.ip_text
  pub protocols : Value
  pub has_protocols : get body (codes "protocols") ≡ ok protocols
  pub printed : json_stringify protocols ≡ str row.protocols_json
  pub selected :
      (k : Text)
      → select_node k rows' ≡ (
          if text_eq t.node_id k
          then some (merge row (select_node t.node_id rows))
          else select_node k rows)

module _ (rt : Runtime) (request : Request) (body : Value) (t : IsTextual body) (r : IsRuntime rt)
    (n : IsNode rt.number_of body)
    (read : read_limited_json rt request max_register_bytes ≡ ok body) where
  IsStored-plain_row :
      (row : NodeRow) (at : Text) (rows rows' : List NodeRow)
      → row ≡ plain_row rt body (plain rt request body n t) at
      → rows' ≡ upsert_row row rows
      → IsStored body t rows rows'
  unfolding plain
  IsStored-plain_row row at rows rows' is_row put =
      let p = plain rt request body n t in
      record {
        row = plain_row rt body p at;
        node_id = refl;
        name = refl;
        region = refl;
        host = refl;
        ip = refl;
        protocols = p.protocols;
        has_protocols = p.has_protocols;
        printed = p.is_protocols;
        selected = λ k.
            ap (select_node k) (put ∙ ap (λ x. upsert_row x rows) is_row)
            ∙ select_node-upsert_row (plain_row rt body p at) k rows;
      }

  outcome-IsStored :
      (rows rows' : List NodeRow)
      → RegisterOutcome rt request json_ok rows rows'
      → IsStored body t rows rows'
  unfolding json
  outcome-IsStored rows rows' (inl (_, body', read', (row, accepted, same, put))) =
      let is_body = same ∙ ok_value (sym read' ∙ read) in
      IsStored-plain_row row accepted.at rows rows'
        (accepted_row rt body (plain rt request body n t) r row accepted is_body) put
  outcome-IsStored rows rows' (inr (refused, _)) = absurd (refused refl)

-- A POST with an enabled register token and a body within the limit that the validator accepts, whose
-- columns are texts, is answered with 200 and `{"status":"ok"}` while the database is in reach. Then
-- the table has the row of the body under its id, with the date of creation of the row that it
-- replaces, if any, and every other id has what it had.
pub handle_register_stores :
    (rt : Runtime) (request : Request) (w : World) (row : TokenRow) (body : Value)
    → IsRuntime rt
    → IsHealthy rt
    → method_is request (codes "POST") ≡ true
    → is_empty (bearer_token request) ≡ false
    → select_token (hash_token rt (bearer_token request)) (codes "register") w.db.tokens ≡ some row
    → read_limited_json rt request max_register_bytes ≡ ok body
    → validate_node rt.number_of body ≡ ok tt
    → (t : IsTextual body)
    → ((handle_register rt request w).0 ≡ ok json_ok)
      × IsStored body t w.db.nodes (handle_register rt request w).1.db.nodes
handle_register_stores rt request w row body r healthy post given selected read valid t =
    let answered =
      handle_register_succeeds rt request w row body r healthy post given selected read valid t in
    (
      answered,
      outcome-IsStored rt request body t r ((validate_node_iff rt.number_of body).0 valid) read _ _
          (handle_register_returned rt request w json_ok answered),
    )
