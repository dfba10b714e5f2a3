-- ===== src/Scripts/Commands/Tokens.antt =====
-- list-tokens.js against what `handleAdminTokens` of the Worker answers.
use vpn_register_kit.Prelude.{
  ◌≡◌, refl, sym, ap, ◌∙◌, List, [], ◌∷◌, ◌++◌, Option, none, some, Text, codes, text_eq, join, map,
  is_empty,
}
use vpn_register_kit.Js.Number.{natural, number_text}
use vpn_register_kit.Js.Value.{
  Value, str, arr, obj, end, field, items, get, own_field, or_else, truthy, to_string,
}
use mathlib.Core.Path.{subst}
use vpn_register_kit.Js.Result.{Thrown, Result, ok}
use vpn_register_kit.Db.Rows.{TokenInfo}
use vpn_register_kit.Http.{json}
use vpn_register_kit.Worker.Admin.{text_or_null, token_object}
use vpn_register_kit.Scripts.{Environment, Call, Reply}
use vpn_register_kit.Scripts.Requests.{Answers, admin_request_lem}
use vpn_register_kit.Scripts.Printing.{outcome}
use vpn_register_kit.Scripts.Lines.{padded, pad_end, token_line}
use vpn_register_kit.Scripts.Commands.{list_tokens_script}
use vpn_register_kit.Scripts.Commands.Listed.{Lined, elements-items, list_lines_lem, json-is_empty}

-- When the token was used last, or a dash.
abbrev pub used_text : Option Text → Text
used_text none = codes "-"
used_text (some []) = codes "-"
used_text (some (c ∷ t)) = c ∷ t

pub token_text : TokenInfo → Text
token_text info =
    codes "- "
    ++ join (codes " ") (
        padded 9 info.kind
        ∷ info.token_hint
        ∷ (codes "enabled=" ++ number_text (natural info.enabled))
        ∷ (codes "created=" ++ info.created_at)
        ∷ (codes "last_used=" ++ used_text info.last_used_at)
        ∷ [])

used-to_string :
    (t : Option Text) → to_string (or_else (text_or_null t) (str (codes "-"))) ≡ ok (used_text t)
unfolding to_string or_else truthy codes
used-to_string none = refl
used-to_string (some []) = refl
used-to_string (some (c ∷ t)) = refl

token_line-object : (info : TokenInfo) → token_line (token_object info) ≡ ok (token_text info)
unfolding token_line token_object token_text get own_field text_eq codes pad_end to_string
token_line-object info = rw (used-to_string info.last_used_at)

-- What `handleAdminTokens` answers.
abbrev pub token_list : List TokenInfo → Value
token_list infos = obj (field (codes "tokens") (arr (items (map token_object infos))) end)

token_lines :
    (infos : List TokenInfo) → Lined token_line (map token_object infos) (map token_text infos)
token_lines [] = tt
token_lines (info ∷ infos) = (token_line-object info, token_lines infos)

module _ (parse : Text → Option Value) (server : Call → Result Reply) (message : Thrown → Text)
    (env : Environment) (reply : Reply) where
  -- list-tokens.js, where the server answers with the list of tokens that the Worker makes and
  -- JSON.parse reads it back, prints a line for each token in order, and exits with 0.
  pub list_tokens_script_lem :
      (infos : List TokenInfo)
      → Answers server env (codes "/admin/tokens") (codes "GET") none reply
      → reply.text ≡ (json (token_list infos) 200).body
      → parse reply.text ≡ some (token_list infos)
      → list_tokens_script parse server message env
        ≡ record { lines = codes "Tokens:" ∷ map token_text infos; exit_code = 0 }
  unfolding list_tokens_script outcome
  list_tokens_script_lem infos a body parsed =
      let returned =
        admin_request_lem parse server env (codes "/admin/tokens") (codes "GET") none reply
          (token_list infos) a (ap is_empty body ∙ json-is_empty (token_list infos)) parsed in
      rw (
        returned,
        list_lines_lem (codes "Tokens:") (codes "tokens") token_line
            (items (map token_object infos)) (map token_text infos)
            (subst (λ vs. Lined token_line vs (map token_text infos))
              (sym (elements-items (map token_object infos))) (token_lines infos)),
      )
