-- ===== src/Worker/Admin.antt =====
-- The token endpoints of index.js: `handleAdminTokens` and `handleAdminTokenCreate`.
use vpn_register_kit.Prelude.{
  not, [], ◌++◌, Option, none, some, Text, codes, text_eq, map, if◌then◌else◌,
}
use vpn_register_kit.Js.Number.{natural}
use vpn_register_kit.Js.Value.{
  Value, null, str, num, arr, obj, items, end, field, get, or_else, is_text,
}
use vpn_register_kit.Auth.{random_token, token_hint}
use vpn_register_kit.Runtime.{Runtime}
use vpn_register_kit.Http.{Request, Response, json, text}
use vpn_register_kit.Act.{Act, pure, lift, next_call, ◌>>=◌, ◌>>◌}
use vpn_register_kit.Logs.{request_meta}
use vpn_register_kit.Db.Rows.{TokenInfo}
use vpn_register_kit.Db.{insert_token, list_tokens, write_audit}
use vpn_register_kit.Worker.Reply.{method_is, method_not_allowed, with_admin, audit}

abbrev pub text_or_null : Option Text → Value
text_or_null none = null
text_or_null (some t) = str t

-- One row of `listTokens`, as it is printed.
unfoldable pub token_object : TokenInfo → Value
token_object info = obj (
    field (codes "id") (str info.id) (
      field (codes "kind") (str info.kind) (
        field (codes "token_hint") (str info.token_hint) (
          field (codes "enabled") (num (natural info.enabled)) (
            field (codes "created_at") (str info.created_at)
              (field (codes "last_used_at") (text_or_null info.last_used_at) end))))))

-- `await request.json().catch(() => ({}))`
abbrev pub body_or_empty : Option Value → Value
body_or_empty none = obj end
body_or_empty (some v) = v

module _ (rt : Runtime) (request : Request) where
  -- `payload`, with the subscription URL of a token that subscribes
  unfoldable pub create_payload : Text → Text → Text → Value
  create_payload id kind token =
      let url = request.origin ++ (codes "/sub?token=" ++ token) in
      let last =
        if text_eq kind (codes "subscribe")
        then field (codes "subscription_url") (str url) end
        else end in
      obj (
        field (codes "id") (str id) (
          field (codes "kind") (str kind) (
            field (codes "token") (str token)
              (field (codes "token_hint") (str (token_hint token)) last))))

  unfoldable pub create_token : Text → Act Response
  create_token kind = do
    drawn ← next_call
    let token = random_token rt drawn
    named ← next_call
    let id = rt.random_uuid named
    insert_token rt id kind token
    write_audit rt
        (audit (codes "token_create") (request_meta request) (token_hint token) (str []) [] 200)
    pure (json (create_payload id kind token) 200)

  unfoldable pub create_kind : Value → Act Response
  create_kind kind =
      if is_text kind (codes "register")
      then create_token (codes "register")
      else if is_text kind (codes "subscribe")
      then create_token (codes "subscribe")
      else pure (text (codes "kind must be register or subscribe") 400)

  unfoldable pub create_from_body : Act Response
  create_from_body = do
    given ← lift (get (body_or_empty (rt.json_parse request.body)) (codes "kind"))
    create_kind (or_else given (str (codes "subscribe")))

  unfoldable pub handle_admin_token_create : Option Text → Act Response
  handle_admin_token_create admin_token =
      if not (method_is request (codes "POST"))
      then pure method_not_allowed
      else with_admin request admin_token (create_from_body)

  unfoldable pub list_all : Act Response
  list_all = do
    tokens ← list_tokens rt
    pure (json (obj (field (codes "tokens") (arr (items (map token_object tokens))) end)) 200)

  unfoldable pub handle_admin_tokens : Option Text → Act Response
  handle_admin_tokens admin_token =
      if not (method_is request (codes "GET"))
      then pure method_not_allowed
      else with_admin request admin_token list_all
