-- ===== src/Worker/Writes.antt =====
-- What the handlers that write, and with them `route` and `fetch`, do to the tables: the writes of a
-- frame.
use vpn_register_kit.Prelude.{◌≡◌, refl, Bool, true, false, Option, none, some, Text}
use vpn_register_kit.Js.Value.{Value}
use vpn_register_kit.Js.Result.{Thrown, Result, ok, err}
use vpn_register_kit.Validators.{validate_node}
use vpn_register_kit.Runtime.{Runtime}
use vpn_register_kit.Http.{Request}
use vpn_register_kit.Act.Steps.{
  step_rules, Steps, Steps-pure, Steps-if, Steps-bind, Steps-try, Steps-print, Steps-lift,
  Steps-next_call,
}
use vpn_register_kit.Logs.{Meta}
use vpn_register_kit.Db.Tables.{Db, TokenRow}
use vpn_register_kit.Db.Frames.{
  IsFrame, find_enabled_token-Steps, write_audit-Steps, insert_token-Steps, delete_node-Steps,
  upsert_node-Steps,
}
use vpn_register_kit.Worker.Register.{handle_register, register, check, accept, refuse}
use vpn_register_kit.Worker.Nodes.{
  report_deleted, delete_valid, delete_node_from_path, handle_api_node, handle_admin_node,
}
use vpn_register_kit.Worker.Admin.{
  create_token, create_kind, create_from_body, handle_admin_token_create,
}
use vpn_register_kit.Worker.Route.{route, fetch}
use vpn_register_kit.Worker.Route.Cases.{route_elim, create_kind_elim}
use vpn_register_kit.Worker.Frames.{
  log_info-Steps, register_deny-Steps, handle_sub-Steps, with_admin-Steps,
  handle_admin_tokens-Steps, handle_admin_nodes-Steps, with_register_or_admin-Steps,
  handle_api_nodes-Steps,
}

module _ (rt : Runtime) (request : Request) {R : Db → Db → Type 0} (frame : IsFrame rt R) where
  open frame use {quiet, quiet.{order}}

  accept-Steps :
      (meta : Meta) (row : TokenRow) (body : Value)
      → validate_node rt.number_of body ≡ ok tt
      → Steps R (accept rt request meta row body)
  unfolding accept
  accept-Steps meta row body valid =
      Steps-bind _ _ order (upsert_node-Steps rt frame body valid) λ _.
        Steps-bind _ _ order (Steps-lift _ order) λ _.
          Steps-bind _ _ order (write_audit-Steps rt quiet _) λ _.
            Steps-bind _ _ order (Steps-lift _ order) λ _.
              Steps-bind _ _ order (Steps-lift _ order) λ _.
                Steps-bind _ _ order (Steps-lift _ order)
                  λ _. Steps-bind _ _ order (log_info-Steps order _ _) λ _. Steps-pure _ order

  refuse-Steps :
      (meta : Meta) (row : TokenRow) (body : Value) (e : Thrown)
      → Steps R (refuse rt request meta row body e)
  unfolding refuse
  refuse-Steps meta row body e = search (step_rules, write_audit-Steps rt quiet)

  check-Steps :
      (meta : Meta) (row : TokenRow) (body : Value) (verdict : Result (Unit {0}))
      → validate_node rt.number_of body ≡ verdict
      → Steps R (check rt request meta row body verdict)
  unfolding check
  check-Steps meta row body (ok done) e = accept-Steps meta row body e
  check-Steps meta row body (err thrown) e = refuse-Steps meta row body thrown

  register-Steps :
      (meta : Meta) (token : Text) (row : Option TokenRow)
      → Steps R (register rt request meta token row)
  unfolding register
  register-Steps meta token none = register_deny-Steps rt request quiet meta token
  register-Steps meta token (some row) =
      Steps-bind _ _ order (Steps-lift _ order) λ body. check-Steps meta row body _ refl

  handle_register-Steps : Steps R (handle_register rt request)
  unfolding handle_register
  handle_register-Steps =
      Steps-if _ _ _ (Steps-pure _ order)
        (Steps-bind _ _ order (find_enabled_token-Steps rt quiet _ _) (register-Steps _ _))

  report_deleted-Steps :
      (node_id : Text) (deleted : Bool) → Steps R (report_deleted rt request node_id deleted)
  unfolding report_deleted
  report_deleted-Steps node_id false =
      Steps-bind _ _ order (write_audit-Steps rt quiet _) λ _. Steps-pure _ order
  report_deleted-Steps node_id true =
      Steps-bind _ _ order (write_audit-Steps rt quiet _)
        λ _. Steps-bind _ _ order (log_info-Steps order _ _) λ _. Steps-pure _ order

  delete_valid-Steps : (node_id : Text) → Steps R (delete_valid rt request node_id)
  unfolding delete_valid
  delete_valid-Steps node_id = search (step_rules, delete_node-Steps rt frame, report_deleted-Steps)

  delete_node_from_path-Steps : (prefix : Text) → Steps R (delete_node_from_path rt request prefix)
  unfolding delete_node_from_path
  delete_node_from_path-Steps prefix =
      Steps-bind _ _ order (Steps-lift _ order)
        λ node_id. Steps-if _ _ _ (Steps-pure _ order) (delete_valid-Steps node_id)

  handle_api_node-Steps :
      (admin_token : Option Text) → Steps R (handle_api_node rt request admin_token)
  unfolding handle_api_node
  handle_api_node-Steps admin_token =
      Steps-if _ _ _ (Steps-pure _ order) (
        with_register_or_admin-Steps rt request quiet admin_token _ (delete_node_from_path-Steps _))

  handle_admin_node-Steps :
      (admin_token : Option Text) → Steps R (handle_admin_node rt request admin_token)
  unfolding handle_admin_node
  handle_admin_node-Steps admin_token =
      Steps-if _ _ _ (Steps-pure _ order)
        (with_admin-Steps rt request quiet admin_token _ (delete_node_from_path-Steps _))

  create_token-Steps : (kind : Text) → Steps R (create_token rt request kind)
  unfolding create_token
  create_token-Steps kind = Steps-bind _ _ order (Steps-next_call order) λ _.
      Steps-bind _ _ order (Steps-next_call order) λ _.
        Steps-bind _ _ order (insert_token-Steps rt frame _ _ _)
          λ _. Steps-bind _ _ order (write_audit-Steps rt quiet _) λ _. Steps-pure _ order

  create_kind-Steps : (kind : Value) → Steps R (create_kind rt request kind)
  create_kind-Steps kind =
      create_kind_elim rt request kind (Steps R) (create_token-Steps _) (create_token-Steps _)
        (Steps-pure _ order)

  create_from_body-Steps : Steps R (create_from_body rt request)
  unfolding create_from_body
  create_from_body-Steps = Steps-bind _ _ order (Steps-lift _ order) λ given. create_kind-Steps _

  handle_admin_token_create-Steps :
      (admin_token : Option Text) → Steps R (handle_admin_token_create rt request admin_token)
  unfolding handle_admin_token_create
  handle_admin_token_create-Steps admin_token =
      Steps-if _ _ _ (Steps-pure _ order)
        (with_admin-Steps rt request quiet admin_token _ create_from_body-Steps)

  route-Steps : (admin_token : Option Text) → Steps R (route rt admin_token request)
  route-Steps admin_token =
      route_elim rt admin_token request (Steps R) (λ _. Steps-pure _ order)
        (λ _. handle_register-Steps) (λ _. handle_sub-Steps rt request quiet)
        (λ _. handle_api_nodes-Steps rt request quiet admin_token)
        (λ _. handle_api_node-Steps admin_token) (λ _. handle_admin_token_create-Steps admin_token)
        (λ _. handle_admin_tokens-Steps rt request quiet admin_token)
        (λ _. handle_admin_nodes-Steps rt request quiet admin_token)
        (λ _. handle_admin_node-Steps admin_token) (Steps-pure _ order)

  -- Whatever the request, `fetch` moves the tables along R.
  pub fetch-Steps : (admin_token : Option Text) → Steps R (fetch rt admin_token request)
  unfolding fetch
  fetch-Steps admin_token =
      Steps-try _ _ order (route-Steps admin_token)
        λ e. Steps-bind _ _ order (Steps-print _ order) λ _. Steps-pure _ order
