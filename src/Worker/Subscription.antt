-- ===== src/Worker/Subscription.antt =====
-- `handleSub` of index.js
use vpn_register_kit.Prelude.{
  not, List, [], ◌∷◌, Option, none, some, Text, codes, is_empty, length, if◌then◌else◌,
}
use vpn_register_kit.Js.Number.{natural}
use vpn_register_kit.Js.Value.{str, num}
use vpn_register_kit.Js.Result.{Result, ok, err}
use vpn_register_kit.Auth.{token_hint}
use vpn_register_kit.Runtime.{Runtime}
use vpn_register_kit.Http.{Request, Response, text, search_param}
use vpn_register_kit.Act.{Act, pure, ◌>>=◌, ◌>>◌}
use vpn_register_kit.Logs.{Meta, request_meta, log_info, log_warn}
use vpn_register_kit.Renderers.{Rendered, render_subscription}
use vpn_register_kit.Db.Rows.{Node, message}
use vpn_register_kit.Db.Tables.{TokenRow}
use vpn_register_kit.Db.{find_enabled_token, list_nodes, write_audit}
use vpn_register_kit.Worker.Reply.{method_is, method_not_allowed, unauthorized, audit}

module _ (rt : Runtime) (request : Request) where
  -- `url.searchParams.get("format") || "shadowrocket"`
  unfoldable pub requested_format : Text
  requested_format =
      let given = search_param request (codes "format") in
      if is_empty given then codes "shadowrocket" else given

  unfoldable pub deny : Meta → Text → Act Response
  deny meta token = do
    log_warn (codes "sub denied") (
        (codes "remote_ip", str meta.remote_ip)
        ∷ (codes "token", str (token_hint token))
        ∷ (codes "reason", str (codes "invalid_token"))
        ∷ [])
    write_audit rt
        (audit (codes "sub_denied") meta (token_hint token) (str []) requested_format 401)
    pure unauthorized

  unfoldable pub deliver : Meta → TokenRow → List Node → Result Rendered → Act Response
  deliver meta row nodes (err e) = pure (text (message rt e) 400)
  deliver meta row nodes (ok rendered) = do
    write_audit rt (audit (codes "sub_request") meta row.token_hint (str []) requested_format 200)
    log_info (codes "sub request") (
        (codes "remote_ip", str meta.remote_ip)
        ∷ (codes "token", str row.token_hint)
        ∷ (codes "format", str requested_format)
        ∷ (codes "nodes", num (natural (length nodes)))
        ∷ [])
    pure (record { status = 200; content_type = rendered.content_type; body = rendered.body })

  unfoldable pub subscribe : Meta → Text → Option TokenRow → Act Response
  subscribe meta token none = deny meta token
  subscribe meta token (some row) = do
    nodes ← list_nodes rt
    deliver meta row nodes (render_subscription rt requested_format nodes)

  unfoldable pub handle_sub : Act Response
  handle_sub = if not (method_is request (codes "GET")) then pure method_not_allowed else (do
    let meta = request_meta request
    let token = search_param request (codes "token")
    row ← find_enabled_token rt (codes "subscribe") token
    subscribe meta token row)
