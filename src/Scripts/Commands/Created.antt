-- ===== src/Scripts/Commands/Created.antt =====
-- create-token.js against what `handleAdminTokenCreate` of the Worker answers.
use vpn_register_kit.Prelude.{
  ◌≡◌, refl, ap, ◌∙◌, ◌⊎◌, inl, inr, true, List, [], ◌∷◌, ◌++◌, Option, some, Text, codes, text_eq,
  is_empty, if◌then◌else◌,
}
use vpn_register_kit.Js.Value.{Value, get, own_field, to_string, truthy}
use vpn_register_kit.Js.Result.{Thrown, Result, ok}
use vpn_register_kit.Runtime.{Runtime}
use vpn_register_kit.Http.{Request, json}
use vpn_register_kit.Worker.Admin.{create_payload}
use vpn_register_kit.Scripts.{Environment, Call, Reply, arg_value}
use vpn_register_kit.Scripts.Requests.{Answers, admin_request_lem}
use vpn_register_kit.Scripts.Printing.{outcome}
use vpn_register_kit.Scripts.Commands.{
  created_lines, kind_body, is_kind_argument, request_token, create_token_script,
}
use vpn_register_kit.Scripts.Commands.Listed.{append-is_empty, json-is_empty}

-- What create-token.js prints of a token.
abbrev pub created_text : Text → Text → Text → List Text
created_text origin kind token =
    (codes "Created " ++ (kind ++ codes " token:"))
    ∷ (codes "  " ++ token)
    ∷ (if text_eq kind (codes "subscribe")
        then []
          ∷ codes "Subscription URL:"
          ∷ (codes "  " ++ (origin ++ (codes "/sub?token=" ++ token)))
          ∷ []
        else [])

module _ (rt : Runtime) (request : Request) (id token : Text) where
  register_lem :
      created_lines (create_payload rt request id (codes "register") token)
      ≡ record { lines = created_text request.origin (codes "register") token; result = ok tt }
  unfolding created_lines create_payload get own_field text_eq to_string truthy codes
  register_lem = refl

  subscribe_lem :
      created_lines (create_payload rt request id (codes "subscribe") token)
      ≡ record { lines = created_text request.origin (codes "subscribe") token; result = ok tt }
  unfolding created_lines create_payload get own_field text_eq to_string truthy codes
  subscribe_lem = rw (append-is_empty request.origin (codes "/sub?token=" ++ token) refl)

  created_lem :
      (kind : Text)
      → (kind ≡ codes "register") ⊎ (kind ≡ codes "subscribe")
      → created_lines (create_payload rt request id kind token)
        ≡ record { lines = created_text request.origin kind token; result = ok tt }
  created_lem kind (inl registers) = rw (registers) register_lem
  created_lem kind (inr subscribes) = rw (subscribes) subscribe_lem

kind_argument :
    (kind : Text)
    → (kind ≡ codes "register") ⊎ (kind ≡ codes "subscribe")
    → is_kind_argument kind ≡ true
unfolding text_eq codes
kind_argument kind (inl registers) = rw registers
kind_argument kind (inr subscribes) = rw subscribes

module _ (parse : Text → Option Value) (server : Call → Result Reply) (message : Thrown → Text)
    (env : Environment) (reply : Reply) (rt : Runtime) (request : Request) (id token : Text) where
  -- create-token.js with a known kind, where the server answers with the payload that the Worker makes
  -- of a token and JSON.parse reads it back, prints the token, with the URL of one that subscribes, and
  -- exits with 0.
  pub create_token_script_lem :
      (args : List Text) (kind : Text)
      → arg_value (codes "--kind") (codes "subscribe") args ≡ kind
      → (kind ≡ codes "register") ⊎ (kind ≡ codes "subscribe")
      → Answers server env
          (codes "/admin/tokens/create")
          (codes "POST")
          (some (kind_body kind))
          reply
      → reply.text ≡ (json (create_payload rt request id kind token) 200).body
      → parse reply.text ≡ some (create_payload rt request id kind token)
      → create_token_script parse server message env args
        ≡ record { lines = created_text request.origin kind token; exit_code = 0 }
  unfolding create_token_script request_token outcome
  create_token_script_lem args kind named known a body parsed =
      let payload = create_payload rt request id kind token in
      let returned =
        admin_request_lem parse server env (codes "/admin/tokens/create") (codes "POST")
          (some (kind_body kind)) reply payload a (ap is_empty body ∙ json-is_empty payload)
          parsed in
      rw (named, kind_argument kind known, returned, created_lem rt request id token kind known)
