-- ===== src/Worker/Frames.antt =====
-- What the handlers that write at most stamps and logs do to the tables.
use vpn_register_kit.Prelude.{List, Option, none, some, Text}
use vpn_register_kit.Js.Value.{Value}
use vpn_register_kit.Js.Result.{Result, ok, err}
use vpn_register_kit.Runtime.{Runtime}
use vpn_register_kit.Http.{Request, Response}
use vpn_register_kit.Act.{Act}
use vpn_register_kit.Act.Steps.{
  Steps, IsPreorder, Steps-pure, Steps-if, Steps-bind, Steps-print, Steps-lift,
}
use vpn_register_kit.Logs.{Meta, log_info, log_warn}
use vpn_register_kit.Renderers.{Rendered}
use vpn_register_kit.Db.Rows.{Node}
use vpn_register_kit.Db.Tables.{Db, TokenRow}
use vpn_register_kit.Db.Frames.{
  IsQuiet, find_enabled_token-Steps, list_nodes-Steps, list_tokens-Steps, write_audit-Steps,
}
use vpn_register_kit.Worker.Register
use vpn_register_kit.Worker.Register.{handle_register, register, check, accept, refuse}
use vpn_register_kit.Worker.Subscription
use vpn_register_kit.Worker.Subscription.{handle_sub, subscribe, deliver}
use vpn_register_kit.Worker.Nodes.{
  list_summaries, admit, with_register_or_admin, handle_api_nodes, handle_admin_nodes,
}
use vpn_register_kit.Worker.Admin.{list_all, handle_admin_tokens}
use vpn_register_kit.Worker.Reply.{with_admin}

module _ {R : Db → Db → Type 0} (order : IsPreorder R) where
  pub log_info-Steps :
      (message : Text) (fields : List (Text × Value)) → Steps R (log_info message fields)
  unfolding log_info
  log_info-Steps message fields = Steps-print _ order

  pub log_warn-Steps :
      (message : Text) (fields : List (Text × Value)) → Steps R (log_warn message fields)
  unfolding log_warn
  log_warn-Steps message fields = Steps-print _ order

module _ (rt : Runtime) (request : Request) {R : Db → Db → Type 0} (quiet : IsQuiet R) where
  open quiet use {order}

  pub register_deny-Steps :
      (meta : Meta) (token : Text) → Steps R (Register.deny rt request meta token)
  unfolding Register.deny
  register_deny-Steps meta token =
      Steps-bind _ _ order (log_warn-Steps order _ _)
        λ _. Steps-bind _ _ order (write_audit-Steps rt quiet _) λ _. Steps-pure _ order

  sub_deny-Steps : (meta : Meta) (token : Text) → Steps R (Subscription.deny rt request meta token)
  unfolding Subscription.deny
  sub_deny-Steps meta token =
      Steps-bind _ _ order (log_warn-Steps order _ _)
        λ _. Steps-bind _ _ order (write_audit-Steps rt quiet _) λ _. Steps-pure _ order

  deliver-Steps :
      (meta : Meta) (row : TokenRow) (nodes : List Node) (r : Result Rendered)
      → Steps R (deliver rt request meta row nodes r)
  unfolding deliver
  deliver-Steps meta row nodes (err e) = Steps-pure _ order
  deliver-Steps meta row nodes (ok rendered) =
      Steps-bind _ _ order (write_audit-Steps rt quiet _)
        λ _. Steps-bind _ _ order (log_info-Steps order _ _) λ _. Steps-pure _ order

  subscribe-Steps :
      (meta : Meta) (token : Text) (row : Option TokenRow)
      → Steps R (subscribe rt request meta token row)
  unfolding subscribe
  subscribe-Steps meta token none = sub_deny-Steps meta token
  subscribe-Steps meta token (some row) =
      Steps-bind _ _ order (list_nodes-Steps rt quiet) λ nodes. deliver-Steps meta row nodes _

  pub handle_sub-Steps : Steps R (handle_sub rt request)
  unfolding handle_sub
  handle_sub-Steps =
      Steps-if _ _ _ (Steps-pure _ order)
        (Steps-bind _ _ order (find_enabled_token-Steps rt quiet _ _) (subscribe-Steps _ _))

  pub list_summaries-Steps : Steps R (list_summaries rt request)
  unfolding list_summaries
  list_summaries-Steps =
      Steps-bind _ _ order (list_nodes-Steps rt quiet)
        λ nodes. Steps-bind _ _ order (Steps-lift _ order) λ _. Steps-pure _ order

  list_all-Steps : Steps R (list_all rt request)
  unfolding list_all
  list_all-Steps = Steps-bind _ _ order (list_tokens-Steps rt quiet) λ _. Steps-pure _ order

  pub with_admin-Steps :
      (admin_token : Option Text) (act : Act Response)
      → Steps R act
      → Steps R (with_admin request admin_token act)
  unfolding with_admin
  with_admin-Steps admin_token act h = Steps-if _ _ _ (Steps-pure _ order) h

  pub handle_admin_tokens-Steps :
      (admin_token : Option Text) → Steps R (handle_admin_tokens rt request admin_token)
  unfolding handle_admin_tokens
  handle_admin_tokens-Steps admin_token =
      Steps-if _ _ _ (Steps-pure _ order) (with_admin-Steps admin_token _ list_all-Steps)

  pub handle_admin_nodes-Steps :
      (admin_token : Option Text) → Steps R (handle_admin_nodes rt request admin_token)
  unfolding handle_admin_nodes
  handle_admin_nodes-Steps admin_token =
      Steps-if _ _ _ (Steps-pure _ order) (with_admin-Steps admin_token _ list_summaries-Steps)

  admit-Steps :
      (admin_token : Option Text) (act : Act Response) (row : Option TokenRow)
      → Steps R act
      → Steps R (admit rt request admin_token act row)
  unfolding admit
  admit-Steps admin_token act none h = Steps-if _ _ _ h (Steps-pure _ order)
  admit-Steps admin_token act (some row) h = h

  pub with_register_or_admin-Steps :
      (admin_token : Option Text) (act : Act Response)
      → Steps R act
      → Steps R (with_register_or_admin rt request admin_token act)
  unfolding with_register_or_admin
  with_register_or_admin-Steps admin_token act h =
      Steps-bind _ _ order (find_enabled_token-Steps rt quiet _ _)
        (λ row. admit-Steps admin_token act row h)

  pub handle_api_nodes-Steps :
      (admin_token : Option Text) → Steps R (handle_api_nodes rt request admin_token)
  unfolding handle_api_nodes
  handle_api_nodes-Steps admin_token =
      Steps-if _ _ _ (Steps-pure _ order)
        (with_register_or_admin-Steps admin_token _ list_summaries-Steps)
