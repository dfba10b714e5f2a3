-- ===== src/Scripts.antt =====
-- cloudflare-registry/scripts/: the clients of the administration. A script is a function of its
-- environment, its arguments and the server, which answers one call.
pub mod Requests
pub mod Paths
pub mod Remote
pub mod Toml
pub mod Terminal
pub mod Wrangler
pub mod Deploy
pub mod Printing
pub mod Lines
pub mod Commands
use vpn_register_kit.Prelude.{
  ℕ, Bool, true, false, not, ◌&&◌, ◌||◌, List, [], ◌∷◌, ◌++◌, Option, none, some, Text, codes,
  text_eq, is_empty, leb, ◌==◌, if◌then◌else◌,
}
use vpn_register_kit.Js.Number.{decimal}
use vpn_register_kit.Js.Value.{Value, null, str, obj, end, field, get, truthy, to_string}
use vpn_register_kit.Js.Json.{stringify}
use vpn_register_kit.Js.Uri.{encode_uri_component}
use vpn_register_kit.Js.Result.{
  Thrown, Result, ok, err, error, fault, bad_uri, throw_if, ◌>>=◌, ◌>>◌,
}

-- `process.env` of the two variables.
pub record Environment : Type 0 where
  pub registry_url : Option Text
  pub admin_token : Option Text

pub record Config : Type 0 where
  pub base_url : Text
  pub token : Text

-- What `fetch` is called with; the headers are `Authorization: Bearer` the token, and JSON.
pub record Call : Type 0 where
  pub url : Text
  pub method : Text
  pub token : Text
  pub body : Option Text

pub record Reply : Type 0 where
  pub status : ℕ
  pub text : Text

-- What a script prints, on both streams in order, and its exit code.
pub record Outcome : Type 0 where
  pub lines : List Text
  pub exit_code : ℕ

abbrev pub given : Option Text → Text
given none = []
given (some t) = t

-- `s.replace(/\/+$/, "")`
unfoldable pub drop_slashes : Text → Text
drop_slashes [] = []
drop_slashes (c ∷ s) =
    let rest = drop_slashes s in if (c == b'/') && is_empty rest then [] else c ∷ rest

pub admin_config : Environment → Result Config
admin_config env = do
  throw_if (is_empty (given env.registry_url))
      (error (codes "CF_REGISTRY_URL is required, for example https://sub.example.com"))
  throw_if (is_empty (given env.admin_token)) (error (codes "CF_ADMIN_TOKEN is required"))
  ok (record { base_url = drop_slashes (given env.registry_url); token = given env.admin_token })

-- the element behind the first occurrence of the name
unfoldable pub arg_value : Text → Text → List Text → Text
arg_value name fallback [] = fallback
arg_value name fallback (arg ∷ []) = fallback
arg_value name fallback (arg ∷ next ∷ args) =
    let rest = arg_value name fallback (next ∷ args) in
    let found = if is_empty next then fallback else next in if text_eq arg name then found else rest

abbrev parsed_or : Text → Option Value → Value
parsed_or text none = str text
parsed_or text (some v) = v

-- `encodeURIComponent(t)`
abbrev pub uri_text : Option Text → Result Text
uri_text none = err (fault bad_uri)
uri_text (some t) = ok t

-- `/admin/nodes/${encodeURIComponent(nodeId)}`
unfoldable pub node_path : Text → Result Text
node_path node_id = do
  component ← uri_text (encode_uri_component node_id)
  ok (codes "/admin/nodes/" ++ component)

-- the `catch` of the scripts
pub report : (Thrown → Text) → Result (List Text) → Outcome
report message (ok lines) = record { lines = lines; exit_code = 0 }
report message (err e) = record { lines = (codes "error: " ++ message e) ∷ []; exit_code = 1 }

module _ (parse : Text → Option Value) (server : Call → Result Reply) where
  -- `adminRequest`, of a path, a method and a body
  pub admin_request : Environment → Text → Text → Option Text → Result Value
  admin_request env path method body = do
    config ← admin_config env
    reply ← server (record {
      url = config.base_url ++ path;
      method = method;
      token = config.token;
      body = body;
    })
    let answer = if is_empty reply.text then null else parsed_or reply.text (parse reply.text)
    throw_if (not (leb 200 reply.status && leb reply.status 299)) (
        error (
          codes "request failed status="
          ++ (decimal reply.status ++ (codes " body=" ++ reply.text))))
    ok answer

  pub delete_call : Environment → Text → Result Value
  delete_call env node_id = do
    path ← node_path node_id
    admin_request env path (codes "DELETE") none

  -- delete-node.js
  pub delete_node_script : (Thrown → Text) → Environment → List Text → Outcome
  delete_node_script message env args =
      let node_id = arg_value (codes "--id") [] args in
      if is_empty node_id
      then record { lines = codes "error: --id is required" ∷ []; exit_code = 1 }
      else report message
          (do answer ← delete_call env node_id; ok ((codes "Deleted node: " ++ node_id) ∷ []))
