-- ===== src/Worker/Nodes.antt =====
-- The node endpoints of index.js: `handleApiNodes`, `handleAdminNodes`, `handleApiNode`,
-- `handleAdminNode` and `deleteNodeFromPath`.
use vpn_register_kit.Prelude.{
  Bool, true, false, not, [], ◌∷◌, Option, none, some, Text, codes, length, drop, if◌then◌else◌,
}
use vpn_register_kit.Js.Value.{str, arr, obj, end, field}
use vpn_register_kit.Js.Decode.{decode_uri_component}
use vpn_register_kit.Js.Regex.{test}
use vpn_register_kit.Js.Result.{Result, ok, err, fault, bad_uri}
use vpn_register_kit.Validators.{node_id_pattern}
use vpn_register_kit.Auth.{bearer_token, require_admin}
use vpn_register_kit.Runtime.{Runtime}
use vpn_register_kit.Http.{Request, Response, json, text}
use vpn_register_kit.Act.{Act, pure, lift, ◌>>=◌, ◌>>◌}
use vpn_register_kit.Logs.{request_meta, log_info}
use vpn_register_kit.Db.Tables.{TokenRow}
use vpn_register_kit.Db.{find_enabled_token, list_nodes, delete_node, write_audit}
use vpn_register_kit.Worker.Reply.{
  method_is, json_ok, method_not_allowed, unauthorized, with_admin, audit, node_summaries,
}

module _ (rt : Runtime) (request : Request) where
  -- the list of summaries, as both list endpoints answer it
  unfoldable pub list_summaries : Act Response
  list_summaries = do
    nodes ← list_nodes rt
    summaries ← lift (node_summaries nodes)
    pure (json (obj (field (codes "nodes") (arr summaries) end)) 200)

  abbrev pub decoded : Option Text → Result Text
  decoded none = err (fault bad_uri)
  decoded (some t) = ok t

  unfoldable pub report_deleted : Text → Bool → Act Response
  report_deleted node_id false = do
    write_audit rt
        (audit (codes "node_delete_missing") (request_meta request) [] (str node_id) [] 404)
    pure (text (codes "node not found") 404)
  report_deleted node_id true = do
    write_audit rt (audit (codes "node_delete") (request_meta request) [] (str node_id) [] 200)
    log_info (codes "node deleted") (
        (codes "remote_ip", str (request_meta request).remote_ip)
        ∷ (codes "node_id", str node_id)
        ∷ [])
    pure json_ok

  unfoldable pub delete_valid : Text → Act Response
  delete_valid node_id = do deleted ← delete_node rt node_id; report_deleted node_id deleted

  unfoldable pub delete_node_from_path : Text → Act Response
  delete_node_from_path prefix = do
    node_id ← lift (decoded (decode_uri_component (drop (length prefix) request.pathname)))
    if not (test node_id_pattern node_id)
        then pure (text (codes "invalid node_id") 400)
        else delete_valid node_id

module _ (rt : Runtime) (request : Request) (admin_token : Option Text) where
  -- `!registerToken && !isAdmin`
  unfoldable pub admit : Act Response → Option TokenRow → Act Response
  admit act none = if require_admin request admin_token then act else pure unauthorized
  admit act (some row) = act

  unfoldable pub with_register_or_admin : Act Response → Act Response
  with_register_or_admin act = do
    row ← find_enabled_token rt (codes "register") (bearer_token request)
    admit act row

  unfoldable pub handle_api_nodes : Act Response
  handle_api_nodes =
      if not (method_is request (codes "GET"))
      then pure method_not_allowed
      else with_register_or_admin (list_summaries rt request)

  unfoldable pub handle_admin_nodes : Act Response
  handle_admin_nodes =
      if not (method_is request (codes "GET"))
      then pure method_not_allowed
      else with_admin request admin_token (list_summaries rt request)

  unfoldable pub handle_api_node : Act Response
  handle_api_node =
      if not (method_is request (codes "DELETE"))
      then pure method_not_allowed
      else with_register_or_admin (delete_node_from_path rt request (codes "/api/nodes/"))

  unfoldable pub handle_admin_node : Act Response
  handle_admin_node =
      if not (method_is request (codes "DELETE"))
      then pure method_not_allowed
      else with_admin request admin_token (delete_node_from_path rt request (codes "/admin/nodes/"))
