-- ===== src/Worker/Access.antt =====
-- Without a register token and without the admin secret a request changes nothing but stamps and
-- logs.
use vpn_register_kit.Prelude.{
  ◌≡◌, sym, ◌∙◌, false, not, Option, none, some, Text, codes, arith, if_elim, if◌then◌else◌,
}
use vpn_register_kit.Js.Result.{ok}
use vpn_register_kit.Auth.{bearer_token, hash_token, require_admin}
use vpn_register_kit.Runtime.{Runtime}
use vpn_register_kit.Http.{Request, Response}
use vpn_register_kit.Act.{World, Act, pure, ◌>>=◌, try_catch}
use vpn_register_kit.Act.Steps.{
  Steps, Moves, Steps-pure, Steps-bind, Steps-print, continue_step, handle_step,
}
use vpn_register_kit.Logs.{request_meta}
use vpn_register_kit.Db.Tables.{Db, TokenRow, select_token}
use vpn_register_kit.Db.Lookup.{find_enabled_token-found}
use vpn_register_kit.Db.{find_enabled_token}
use vpn_register_kit.Db.Frames.{IsQuiet, find_enabled_token-Steps}
use vpn_register_kit.Worker.Reply.{with_admin, method_is, method_not_allowed, unauthorized}
use vpn_register_kit.Worker.Register.{handle_register, register}
use vpn_register_kit.Worker.Nodes.{
  admit, with_register_or_admin, handle_api_node, handle_admin_node,
}
use vpn_register_kit.Worker.Admin.{handle_admin_token_create}
use vpn_register_kit.Worker.Route.{route, fetch}
use vpn_register_kit.Worker.Route.Cases.{route_elim}
use vpn_register_kit.Worker.Frames.{
  register_deny-Steps, handle_sub-Steps, handle_api_nodes-Steps, handle_admin_tokens-Steps,
  handle_admin_nodes-Steps,
}

-- The bearer of the request holds no enabled register token, and is not the admin.
pub record IsStranger (rt : Runtime) (request : Request) (admin_token : Option Text) (w : World)
    : Type 0 where
  pub unknown :
      select_token (hash_token rt (bearer_token request)) (codes "register") w.db.tokens ≡ none
  pub no_admin : require_admin request admin_token ≡ false

module _ (rt : Runtime) (request : Request) (admin_token : Option Text) (w : World)
    (stranger : IsStranger rt request admin_token w) {R : Db → Db → Type 0}
    (quiet : IsQuiet R) where
  open quiet use {order}

  abbrev Kept : Act Response → Type 0
  Kept m = Moves R w m

  stays : (r : Response) → Kept (pure r)
  stays r = record { at = order.same w.db }

  steps : (m : Act Response) → Steps R m → Kept m
  steps m h = record { at = h.at w }

  with_method :
      (method : Text) (m : Act Response)
      → Kept m
      → Kept (if not (method_is request method) then pure method_not_allowed else m)
  with_method method m h = if_elim Kept (not (method_is request method)) _ m (λ _. stays _) (λ _. h)

  nobody_found :
      (row : TokenRow)
      → (find_enabled_token rt (codes "register") (bearer_token request) w).0 ≡ ok (some row)
      → ⊥
  nobody_found row found =
      let (selected, _) = find_enabled_token-found rt (codes "register") _ row w found in
      none_some (sym stranger.unknown ∙ selected)
    where
      none_some : {row : TokenRow} → ◌≡◌ {A = Option TokenRow} none (some row) → ⊥
      none_some e = ground arith

  -- An action on what the search for the register token found, which is nothing.
  after_search :
      (f : Option TokenRow → Act Response)
      → Steps R (f none)
      → Kept (find_enabled_token rt (codes "register") (bearer_token request) >>= f)
  unfolding ◌>>=◌
  after_search f denied = record {
    at =
        continue_step f _ _ w.db order
          ((find_enabled_token-Steps rt quiet (codes "register") (bearer_token request)).at w) only;
  }
    where
      only :
          (found : Option TokenRow)
          → (find_enabled_token rt (codes "register") (bearer_token request) w).0 ≡ ok found
          → Steps R (f found)
      only none e = denied
      only (some row) e = absurd (nobody_found row e)

  with_admin-Kept : (act : Act Response) → Kept (with_admin request admin_token act)
  unfolding with_admin
  with_admin-Kept act = rw stranger.no_admin (stays unauthorized)

  admit-Steps : (act : Act Response) → Steps R (admit rt request admin_token act none)
  unfolding admit
  admit-Steps act = rw stranger.no_admin (Steps-pure _ order)

  register_or_admin-Kept :
      (act : Act Response) → Kept (with_register_or_admin rt request admin_token act)
  unfolding with_register_or_admin
  register_or_admin-Kept act = after_search (admit rt request admin_token act) (admit-Steps act)

  register-Steps : Steps R (register rt request (request_meta request) (bearer_token request) none)
  unfolding register
  register-Steps = register_deny-Steps rt request quiet _ _

  handle_register-Kept : Kept (handle_register rt request)
  unfolding handle_register
  handle_register-Kept = with_method (codes "POST") _ (
      after_search (register rt request (request_meta request) (bearer_token request))
        register-Steps)

  handle_api_node-Kept : Kept (handle_api_node rt request admin_token)
  unfolding handle_api_node
  handle_api_node-Kept = with_method (codes "DELETE") _ (register_or_admin-Kept _)

  handle_admin_node-Kept : Kept (handle_admin_node rt request admin_token)
  unfolding handle_admin_node
  handle_admin_node-Kept = with_method (codes "DELETE") _ (with_admin-Kept _)

  handle_admin_token_create-Kept : Kept (handle_admin_token_create rt request admin_token)
  unfolding handle_admin_token_create
  handle_admin_token_create-Kept = with_method (codes "POST") _ (with_admin-Kept _)

  route-Kept : Kept (route rt admin_token request)
  route-Kept =
      route_elim rt admin_token request Kept (λ _. stays _) (λ _. handle_register-Kept)
        (λ _. steps _ (handle_sub-Steps rt request quiet))
        (λ _. steps _ (handle_api_nodes-Steps rt request quiet admin_token))
        (λ _. handle_api_node-Kept) (λ _. handle_admin_token_create-Kept)
        (λ _. steps _ (handle_admin_tokens-Steps rt request quiet admin_token))
        (λ _. steps _ (handle_admin_nodes-Steps rt request quiet admin_token))
        (λ _. handle_admin_node-Kept) (stays _)

  pub fetch-Kept : R w.db (fetch rt admin_token request w).1.db
  unfolding fetch try_catch
  fetch-Kept =
      handle_step _ (route rt admin_token request w).0 (route rt admin_token request w).1 w.db order
        route-Kept.at λ e. Steps-bind _ _ order (Steps-print _ order) (λ _. Steps-pure _ order)
