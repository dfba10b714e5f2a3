-- ===== src/Scripts/Commands.antt =====
-- cloudflare-registry/scripts/: create-token.js, list-nodes.js and list-tokens.js.
pub mod Listed
pub mod Tokens
pub mod Nodes
pub mod Created
use vpn_register_kit.Prelude.{
  Bool, not, ◌||◌, List, [], ◌∷◌, ◌++◌, Option, none, some, Text, codes, text_eq, if◌then◌else◌,
}
use vpn_register_kit.Js.Value.{
  Value, str, arr, obj, nil, end, field, truthy, or_else, get, to_string,
}
use vpn_register_kit.Js.Json.{stringify}
use vpn_register_kit.Js.Result.{Thrown, Result, ok, err}
use vpn_register_kit.Renderers.Common.{iterate}
use vpn_register_kit.Scripts.{Environment, Call, Reply, Outcome, arg_value, admin_request}
use vpn_register_kit.Scripts.Printing.{Printed, pure, lift, say, ◌>>=◌, ◌>>◌, outcome}
use vpn_register_kit.Scripts.Lines.{node_line, token_line}

-- `for (const v of vs) console.log(line(v))`
pub print_each : (Value → Result Text) → List Value → Printed (Unit {0})
print_each line [] = pure tt
print_each line (v ∷ vs) = do text ← lift (line v); say text; print_each line vs

-- a heading, and a line for each element of `result.key || []`
pub list_lines : Text → Text → (Value → Result Text) → Value → Printed (Unit {0})
list_lines heading key line result = do
  say heading
  listed ← lift (get result key)
  vs ← lift (iterate (or_else listed (arr nil)))
  print_each line vs

-- a line with `${v[k]}`
abbrev print_property : (Text → Text) → Value → Text → Printed (Unit {0})
print_property line v k = do cell ← lift (get v k); shown ← lift (to_string cell); say (line shown)

abbrev indented : Text → Text
indented t = codes "  " ++ t

abbrev subscription_lines : Value → Value → Printed (Unit {0})
subscription_lines result url = if not (truthy url) then pure tt else (do
  say []
  say (codes "Subscription URL:")
  print_property indented result (codes "subscription_url"))

-- what create-token.js prints
pub created_lines : Value → Printed (Unit {0})
created_lines result = do
  print_property (λ kind. codes "Created " ++ (kind ++ codes " token:")) result (codes "kind")
  print_property indented result (codes "token")
  url ← lift (get result (codes "subscription_url"))
  subscription_lines result url

abbrev pub kind_body : Text → Text
kind_body kind = stringify (obj (field (codes "kind") (str kind) end))

abbrev pub is_kind_argument : Text → Bool
is_kind_argument kind = text_eq kind (codes "register") || text_eq kind (codes "subscribe")

module _ (parse : Text → Option Value) (server : Call → Result Reply) (message : Thrown → Text)
    (env : Environment) where
  -- list-nodes.js
  pub list_nodes_script : Outcome
  list_nodes_script = outcome message (
      lift (admin_request parse server env (codes "/admin/nodes") (codes "GET") none)
      >>= list_lines (codes "Registered nodes:") (codes "nodes") node_line)

  -- list-tokens.js
  pub list_tokens_script : Outcome
  list_tokens_script = outcome message (
      lift (admin_request parse server env (codes "/admin/tokens") (codes "GET") none)
      >>= list_lines (codes "Tokens:") (codes "tokens") token_line)

  pub request_token : Text → Outcome
  request_token kind = outcome message (
      lift (
        admin_request parse server env (codes "/admin/tokens/create") (codes "POST")
          (some (kind_body kind)))
      >>= created_lines)

  -- create-token.js
  pub create_token_script : List Text → Outcome
  create_token_script args =
      let kind = arg_value (codes "--kind") (codes "subscribe") args in
      if not (is_kind_argument kind)
      then record {
        lines = codes "error: --kind must be register or subscribe" ∷ [];
        exit_code = 1;
      }
      else request_token kind
