-- ===== src/Renderers.antt =====
-- cloudflare-registry/src/renderers.js
pub mod Common
pub mod Links
pub mod Clash
pub mod Shadowrocket
pub mod SingBox
pub mod Escape
pub mod Lines
pub mod UserInfo
pub mod Totality
pub mod Formats
use vpn_register_kit.Prelude.{
  Bool, ◌||◌, List, [], ◌∷◌, ◌++◌, Text, codes, text_eq, is_empty, any, if◌then◌else◌,
}
use vpn_register_kit.Js.Lower.{to_lower_case}
use vpn_register_kit.Js.Pretty.{stringify_pretty}
use vpn_register_kit.Js.Result.{Result, ok, err, error, ◌>>=◌}
use vpn_register_kit.Runtime.{Runtime}
use vpn_register_kit.Db.Rows.{Node}
use Common.{base64_encode}
use Links.{render_links}
use Clash.{render_clash}
use Shadowrocket.{render_shadowrocket_config}
use SingBox.{render_sing_box}

pub record Rendered : Type 0 where
  pub body : Text
  pub content_type : Text

abbrev is_any_of : List Text → Text → Bool
is_any_of names t = any (text_eq t) names

abbrev plain_text : Text → Rendered
plain_text body = record { body = body; content_type = codes "text/plain; charset=utf-8" }

pub render_base64 : List Node → Result Rendered
unfolding base64_encode
render_base64 nodes = do
  links ← render_links nodes
  encoded ← base64_encode links
  ok (plain_text encoded)

pub render_normalized : Text → Text → List Node → Result Rendered
unfolding render_base64
render_normalized format normalized nodes =
    if is_any_of (codes "shadowrocket" ∷ codes "links" ∷ codes "plain" ∷ []) normalized
    then (do links ← render_links nodes; ok (plain_text links))
    else if text_eq normalized (codes "base64")
    then render_base64 nodes
    else if is_any_of (codes "clash" ∷ codes "mihomo" ∷ []) normalized
    then (do
      body ← render_clash nodes
      ok (record { body = body; content_type = codes "text/yaml; charset=utf-8" }))
    else if is_any_of
        (codes "shadowrocket-conf"
          ∷ codes "shadowrocket-config"
          ∷ codes "sr-conf"
          ∷ codes "srconfig"
          ∷ [])
        normalized
    then (do body ← render_shadowrocket_config nodes; ok (plain_text body))
    else if is_any_of (codes "sing-box" ∷ codes "singbox" ∷ []) normalized
    then (do
      config ← render_sing_box nodes
      ok (record {
        body = stringify_pretty config 0 ++ codes "\n";
        content_type = codes "application/json; charset=utf-8";
      }))
    else err (error (codes "unsupported format " ++ format))

unfoldable pub render_subscription : Runtime → Text → List Node → Result Rendered
unfolding render_normalized to_lower_case
render_subscription rt format nodes =
    render_normalized format
      (to_lower_case rt.lower_wide (if is_empty format then codes "shadowrocket" else format)) nodes
