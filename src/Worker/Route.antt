-- ===== src/Worker/Route.antt =====
-- `route` and `fetch` of index.js
pub mod Cases
use vpn_register_kit.Prelude.{
  Bool, not, ◌&&◌, List, [], ◌∷◌, ◌++◌, Option, Text, codes, text_eq, starts_with, if◌then◌else◌,
}
use vpn_register_kit.Js.Value.{str, obj, end, field}
use vpn_register_kit.Js.Result.{Thrown, Result, ok, err}
use vpn_register_kit.Runtime.{Runtime}
use vpn_register_kit.Http.{Request, Response, json, text}
use vpn_register_kit.Act.{Act, World, pure, ◌>>=◌, ◌>>◌, try_catch, print}
use vpn_register_kit.Worker.Reply.{method_is, json_ok}
use vpn_register_kit.Worker.Register.{handle_register}
use vpn_register_kit.Worker.Subscription.{handle_sub}
use vpn_register_kit.Worker.Nodes.{
  handle_api_nodes, handle_api_node, handle_admin_nodes, handle_admin_node,
}
use vpn_register_kit.Worker.Admin.{handle_admin_tokens, handle_admin_token_create}

module _ (rt : Runtime) (admin_token : Option Text) (request : Request) where
  abbrev pub path_is : Text → Bool
  path_is t = text_eq request.pathname t

  unfoldable pub route : Act Response
  route =
      if path_is (codes "/health") && method_is request (codes "GET")
      then pure json_ok
      else if path_is (codes "/register")
      then handle_register rt request
      else if path_is (codes "/sub")
      then handle_sub rt request
      else if path_is (codes "/api/nodes")
      then handle_api_nodes rt request admin_token
      else if starts_with request.pathname (codes "/api/nodes/")
      then handle_api_node rt request admin_token
      else if path_is (codes "/admin/tokens/create")
      then handle_admin_token_create rt request admin_token
      else if path_is (codes "/admin/tokens")
      then handle_admin_tokens rt request admin_token
      else if path_is (codes "/admin/nodes")
      then handle_admin_nodes rt request admin_token
      else if starts_with request.pathname (codes "/admin/nodes/")
      then handle_admin_node rt request admin_token
      else pure (text (codes "not found") 404)

  abbrev pub internal_error : Response
  internal_error = json (obj (field (codes "error") (str (codes "internal error")) end)) 500

  unfoldable pub fetch : Act Response
  fetch =
      try_catch route
        (λ e. do print (codes "[ERROR] unhandled " ++ rt.stack e); pure internal_error)
