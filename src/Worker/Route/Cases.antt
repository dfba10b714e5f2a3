-- ===== src/Worker/Route/Cases.antt =====
-- The branches of `route`.
use vpn_register_kit.Prelude.{true, ◌≡◌, Option, Text, codes, starts_with, &&_iff, if_elim}
use vpn_register_kit.Js.Value.{Value, is_text}
use vpn_register_kit.Runtime.{Runtime}
use vpn_register_kit.Http.{Request, Response, text}
use vpn_register_kit.Act.{Act, pure}
use vpn_register_kit.Worker.Reply.{json_ok}
use vpn_register_kit.Worker.Register.{handle_register}
use vpn_register_kit.Worker.Subscription.{handle_sub}
use vpn_register_kit.Worker.Nodes.{
  handle_api_nodes, handle_api_node, handle_admin_nodes, handle_admin_node,
}
use vpn_register_kit.Worker.Admin.{
  create_token, create_kind, handle_admin_tokens, handle_admin_token_create,
}
use vpn_register_kit.Worker.Route.{path_is, route}

module _ (rt : Runtime) (admin_token : Option Text) (request : Request) where
  abbrev AtPath : Text → Type 0
  AtPath t = path_is rt admin_token request t ≡ true

  -- What holds of the action of each branch, given its path, holds of the route.
  pub route_elim {ℓ} :
      (P : Act Response → Type ℓ)
      → (AtPath (codes "/health") → P (pure json_ok))
      → (AtPath (codes "/register") → P (handle_register rt request))
      → (AtPath (codes "/sub") → P (handle_sub rt request))
      → (AtPath (codes "/api/nodes") → P (handle_api_nodes rt request admin_token))
      → (starts_with request.pathname (codes "/api/nodes/") ≡ true
          → P (handle_api_node rt request admin_token))
      → (AtPath (codes "/admin/tokens/create")
          → P (handle_admin_token_create rt request admin_token))
      → (AtPath (codes "/admin/tokens") → P (handle_admin_tokens rt request admin_token))
      → (AtPath (codes "/admin/nodes") → P (handle_admin_nodes rt request admin_token))
      → (starts_with request.pathname (codes "/admin/nodes/") ≡ true
          → P (handle_admin_node rt request admin_token))
      → P (pure (text (codes "not found") 404))
      → P (route rt admin_token request)
  unfolding route
  route_elim P health register sub nodes node create tokens admin_nodes admin_node missing =
      if_elim P _ _ _ (λ h. health ((&&_iff _ _).0 h).0)
        λ _. if_elim P _ _ _ register λ _. if_elim P _ _ _ sub λ _. if_elim P _ _ _ nodes λ _.
          if_elim P _ _ _ node λ _. if_elim P _ _ _ create λ _.
            if_elim P _ _ _ tokens
              λ _. if_elim P _ _ _ admin_nodes λ _. if_elim P _ _ _ admin_node λ _. missing

-- The branches of `kind` in `handleAdminTokenCreate`.
pub create_kind_elim {ℓ} :
    (rt : Runtime) (request : Request) (kind : Value) (P : Act Response → Type ℓ)
    → P (create_token rt request (codes "register"))
    → P (create_token rt request (codes "subscribe"))
    → P (pure (text (codes "kind must be register or subscribe") 400))
    → P (create_kind rt request kind)
unfolding create_kind
create_kind_elim rt request kind P register subscribe other =
    if_elim P (is_text kind (codes "register")) _ _ (λ _. register)
      λ _. if_elim P (is_text kind (codes "subscribe")) _ _ (λ _. subscribe) λ _. other
