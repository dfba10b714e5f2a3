-- ===== src/Worker/Outcome.antt =====
-- What `handleRegister` has done to the node table, whether it answers or throws.
use vpn_register_kit.Prelude.{◌≡◌, refl, List, Option, none, some, Text}
use vpn_register_kit.Js.Value.{Value}
use vpn_register_kit.Js.Result.{Thrown, Result, ok, err}
use vpn_register_kit.Validators.{validate_node}
use vpn_register_kit.Validators.Nodes.{IsNode, validate_node_iff}
use vpn_register_kit.Runtime.{Runtime}
use vpn_register_kit.Http.{Request, Response}
use vpn_register_kit.Act.{World}
use vpn_register_kit.Act.Steps.{Steps-lift, Steps-bind, Steps-pure}
use vpn_register_kit.Act.Spares.{
  Spares, Spares-quiet, Spares-if, Spares-statement, Spares-after, Spares-lift, Spares-bind,
}
use vpn_register_kit.Act.Returns.{Returns-pure, Returns-after, Returns-get}
use vpn_register_kit.Logs.{Meta}
use vpn_register_kit.Db.Tables.{TokenRow, NodeRow}
use vpn_register_kit.Db.Frames.{now_iso-Steps, find_enabled_token-Steps, write_audit-Steps}
use vpn_register_kit.Db.Success.{write_audit-Returns}
use vpn_register_kit.Db.{upsert_node}
use vpn_register_kit.Worker.Reply.{json_ok}
use vpn_register_kit.Worker.Register.{handle_register, register, check, accept, refuse}
use vpn_register_kit.Worker.Frames.{register_deny-Steps}
use vpn_register_kit.Worker.Success.{type_list-runs, log_info-Returns}
use vpn_register_kit.Worker.Effects.{
  SameNodes-quiet, SameNodes-order, RegisterOutcome, handle_register_returned,
}

module _ (rt : Runtime) (request : Request) where
  upsert_node-Spares : (body : Value) → Spares (upsert_node rt body)
  unfolding upsert_node
  upsert_node-Spares body = Spares-after _ _ (now_iso-Steps rt SameNodes-quiet) λ at.
      Spares-lift _ _ λ node_id _. Spares-lift _ _ λ name _. Spares-lift _ _ λ region _.
        Spares-lift _ _ λ host _.
          Spares-lift _ _ λ ip _.
            Spares-lift _ _ λ protocols _. Spares-lift _ _ λ version _. Spares-statement rt _

  accept-Spares :
      (meta : Meta) (row : TokenRow) (body : Value)
      → IsNode rt.number_of body
      → Spares (accept rt request meta row body)
  unfolding accept
  accept-Spares meta row body n =
      let (types, is_types) = type_list-runs rt request n.head n.rest n.protocols_valid in
      Spares-bind (λ r. Unit) _ _ (upsert_node-Spares body)
        λ _. Returns-get _ _ _ _ n.has_node_id (
          Returns-after _ _ _ (write_audit-Returns rt _) λ _. Returns-get _ _ _ _ n.has_host (
            Returns-get _ _ _ _ n.has_protocols (
              Returns-get _ _ types _ is_types
                (Returns-after _ _ _ (log_info-Returns _ _) λ _. Returns-pure _ json_ok tt))))

  check-Spares :
      (meta : Meta) (row : TokenRow) (body : Value) (verdict : Result (Unit {0}))
      → validate_node rt.number_of body ≡ verdict
      → Spares (check rt request meta row body verdict)
  unfolding check refuse
  check-Spares meta row body (ok done) valid =
      accept-Spares meta row body ((validate_node_iff rt.number_of body).0 valid)
  check-Spares meta row body (err e) valid = Spares-after _ _ (Steps-lift _ SameNodes-order) λ _.
      Spares-quiet _ (
        Steps-bind _ _ SameNodes-order (write_audit-Steps rt SameNodes-quiet _)
          λ _. Steps-pure _ SameNodes-order)

  register-Spares :
      (meta : Meta) (token : Text) (row : Option TokenRow)
      → Spares (register rt request meta token row)
  unfolding register
  register-Spares meta token none =
      Spares-quiet _ (register_deny-Steps rt request SameNodes-quiet meta token)
  register-Spares meta token (some row) =
      Spares-lift _ _ λ body _. check-Spares meta row body _ refl

  handle_register-Spares : Spares (handle_register rt request)
  unfolding handle_register
  handle_register-Spares =
      Spares-if _ _ _ (Spares-quiet _ (Steps-pure _ SameNodes-order))
        (Spares-after _ _ (find_enabled_token-Steps rt SameNodes-quiet _ _) (register-Spares _ _))

-- What a run of `handleRegister` does to the node table: what its answer says, and where it
-- throws, nothing.
abbrev pub RegisterRun : Runtime → Request → Result Response → List NodeRow → List NodeRow → Type 0
RegisterRun rt request (ok r) rows rows' = RegisterOutcome rt request r rows rows'
RegisterRun rt request (err e) rows rows' = rows' ≡ rows

run_cases :
    (rt : Runtime) (request : Request) (a : Result Response) (rows rows' : List NodeRow)
    → ((r : Response) → a ≡ ok r → RegisterOutcome rt request r rows rows')
    → ((e : Thrown) → a ≡ err e → rows' ≡ rows)
    → RegisterRun rt request a rows rows'
run_cases rt request (ok r) rows rows' returned thrown = returned r refl
run_cases rt request (err e) rows rows' returned thrown = thrown e refl

-- Every run of `handleRegister`, whatever D1 does: it answers 200 and has written the row of the
-- request's body, which was within the limit and is accepted by the validator; or it answers
-- otherwise, or throws, and the nodes are as they were.
pub handle_register_outcome :
    (rt : Runtime) (request : Request) (w : World)
    → RegisterRun rt request
        (handle_register rt request w).0
        w.db.nodes
        (handle_register rt request w).1.db.nodes
handle_register_outcome rt request w =
    run_cases rt request _ _ _ (handle_register_returned rt request w)
      (λ e. (handle_register-Spares rt request).at w e)
