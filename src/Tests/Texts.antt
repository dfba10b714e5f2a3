-- ===== src/Tests/Texts.antt =====
-- Tokens, hints and rendered texts.
use vpn_register_kit.Prelude.{none, All, ℕ, List, ◌≡◌, refl, codes, some, inr, [], ◌∷◌, ◌++◌, true}
use vpn_register_kit.Auth.{hash_token, random_token, require_admin, token_hint}
use vpn_register_kit.Auth.Hex.{IsHexOf, hex-injective, hash_token-IsHexOf}
use vpn_register_kit.Auth.Hint.{token_hint_hides}
use vpn_register_kit.Auth.Bearer.{require_admin_iff}
use vpn_register_kit.Renderers.Common.{yaml_quote_text, shadowrocket_text}
use vpn_register_kit.Renderers.Escape.{read_scalar, read_scalar-yaml_quote_text}
use vpn_register_kit.Js.Value.{arr, cons, nil}
use vpn_register_kit.Js.Result.{ok}
use vpn_register_kit.Renderers.Common.{
  trojan_name, shadowrocket_name, shadowrocket_value, server_name,
}
use vpn_register_kit.Renderers.Shadowrocket.{Entry, trojan_entry}
use vpn_register_kit.Renderers.Lines.{IsLine, entry_lines_lem}
use vpn_register_kit.Js.Base64.{is_latin1}
use vpn_register_kit.Renderers.Common.{base64_encode, base64_url_encode}
use vpn_register_kit.Js.Base64.{btoa}
use vpn_register_kit.Renderers.UserInfo.{read_base64_url, base64_url_encode_lem}
use vpn_register_kit.Db.Rows.{Node}
use vpn_register_kit.Renderers.Common.Total.{Returned, HasProtocols}
use vpn_register_kit.Renderers.Clash.{render_clash}
use vpn_register_kit.Renderers.Shadowrocket.{render_shadowrocket_config}
use vpn_register_kit.Renderers.SingBox.{render_sing_box}
use vpn_register_kit.Renderers.Totality.{IsSpelled, IsSpelled-obj, renderers_return}
use vpn_register_kit.Tests.Demo.{demo, secret, deletion, trojan_fields, trojan, node_with}
use vpn_register_kit.Tests.Laws.{demo-IsRuntime}
use vpn_register_kit.Tests.Runs.{runs}
use native.Mathlib.Omega.{arith}

require_admin_iff_example : require_admin deletion secret ≡ true
unfolding runs
require_admin_iff_example = (require_admin_iff deletion secret).1 (codes "secret", refl, refl, refl)

token_hint_hides_example : token_hint (codes "abcd12345wxyz") ≡ token_hint (codes "abcd678wxyz")
unfolding runs
token_hint_hides_example =
    token_hint_hides (codes "abcd12345wxyz") (codes "abcd678wxyz")
      (inr (omega arith, omega arith, refl, refl))

hash_token-IsHexOf_example :
    IsHexOf 64 (hash_token demo (codes "reg")) × IsHexOf 48 (random_token demo 7)
hash_token-IsHexOf_example = hash_token-IsHexOf demo (codes "reg") 7 demo-IsRuntime

abbrev two_bytes : List ℕ
two_bytes = 16 ∷ 255 ∷ []

hex-injective_example : two_bytes ≡ two_bytes
hex-injective_example =
    hex-injective two_bytes two_bytes (omega arith, (omega arith, tt))
      (omega arith, (omega arith, tt)) refl

read_scalar-yaml_quote_text_example :
    read_scalar (yaml_quote_text (codes "a\"b") ++ codes ": 1") ≡ some (codes "a\"b", codes ": 1")
unfolding codes
read_scalar-yaml_quote_text_example = read_scalar-yaml_quote_text (codes "a\"b") (codes ": 1")

-- A name with a line break is not read back from one line.
broken_name_unread : read_scalar (yaml_quote_text (codes "a\nb") ++ codes ": 1") ≡ none
unfolding codes
broken_name_unread = read_scalar-yaml_quote_text (codes "a\nb") (codes ": 1")

abbrev seoul_entry : Entry
seoul_entry = record {
  name = codes "Seoul-Trojan";
  line =
      codes
        "Seoul-Trojan = trojan, kr.example.com, 443, password=pw, over-tls=true, tls-verification=true, sni=kr.example.com";
}

rendered : trojan_entry (node_with (arr (cons trojan nil))) trojan ≡ ok seoul_entry
unfolding runs trojan_entry shadowrocket_name shadowrocket_text shadowrocket_value trojan_name
    server_name
rendered = refl

entry_lines_lem_example : IsLine 6 seoul_entry
unfolding runs
entry_lines_lem_example =
    (entry_lines_lem (node_with (arr (cons trojan nil))) trojan seoul_entry 443 refl).0 rendered

encoded : base64_url_encode (codes "aes-128-gcm:pw") ≡ ok (codes "YWVzLTEyOC1nY206cHc")
unfolding runs base64_url_encode base64_encode btoa
encoded = refl

base64_url_encode_lem_example :
    (is_latin1 (codes "aes-128-gcm:pw") ≡ true)
    × (read_base64_url (codes "YWVzLTEyOC1nY206cHc") ≡ codes "aes-128-gcm:pw")
base64_url_encode_lem_example =
    (base64_url_encode_lem (codes "aes-128-gcm:pw")).0 (codes "YWVzLTEyOC1nY206cHc") encoded

abbrev seoul_nodes : List Node
seoul_nodes = node_with (arr (cons trojan nil)) ∷ []

seoul-IsSpelled : All (HasProtocols IsSpelled) seoul_nodes
unfolding runs
seoul-IsSpelled = (
  record {
    list = cons trojan nil;
    is_list = refl;
    each = (
      IsSpelled-obj trojan_fields
          ((codes "trojan", refl), ((codes "443", refl), ((codes "pw", refl), tt))),
      tt,
    );
  },
  tt,
)

renderers_return_example :
    Returned (render_clash seoul_nodes)
    × Returned (render_shadowrocket_config seoul_nodes)
    × Returned (render_sing_box seoul_nodes)
renderers_return_example = renderers_return seoul_nodes seoul-IsSpelled
