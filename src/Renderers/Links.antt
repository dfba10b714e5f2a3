-- ===== src/Renderers/Links.antt =====
-- `renderLinks` of renderers.js
use vpn_register_kit.Prelude.{List, [], ◌∷◌, ◌++◌, Text, codes, join, is_empty, if◌then◌else◌}
use vpn_register_kit.Js.Uri.{search_params_text}
use vpn_register_kit.Js.Result.{Result, ok, ◌>>=◌}
use vpn_register_kit.Js.Value.{Value, get, truthy, to_string}
use vpn_register_kit.Db.Rows.{Node}
use vpn_register_kit.Renderers.Common.{
  render_nodes, trojan_name, shadowsocks_name, uri_component, base64_url_encode,
}

-- `params`, before it is printed
trojan_params : Value → Value → Result (List (Text × Text))
trojan_params sni tls = do
  let secured = if truthy tls then (codes "security", codes "tls") ∷ [] else []
  if truthy sni
      then (do name ← to_string sni; ok ((codes "peer", name) ∷ (codes "sni", name) ∷ secured))
      else ok secured

abbrev query_part : Text → Text
query_part query = if is_empty query then [] else codes "?" ++ query

pub trojan_link : Node → Value → Result Text
unfolding trojan_params search_params_text uri_component
trojan_link node protocol = do
  sni ← get protocol (codes "sni")
  tls ← get protocol (codes "tls")
  params ← trojan_params sni tls
  secret ← get protocol (codes "password")
  secret_text ← to_string secret
  password ← uri_component secret_text
  number ← get protocol (codes "port")
  port ← to_string number
  name ← uri_component (trojan_name node)
  ok (
      codes "trojan://"
      ++ (password
          ++ (codes "@"
              ++ (node.host
                  ++ (codes ":"
                      ++ (port
                          ++ (query_part (search_params_text params) ++ (codes "#" ++ name))))))))

pub shadowsocks_link : Node → Value → Result Text
unfolding uri_component base64_url_encode
shadowsocks_link node protocol = do
  cipher ← get protocol (codes "method")
  method ← to_string cipher
  secret ← get protocol (codes "password")
  password ← to_string secret
  user_info ← base64_url_encode (method ++ (codes ":" ++ password))
  number ← get protocol (codes "port")
  port ← to_string number
  name ← uri_component (shadowsocks_name node)
  ok (
      codes "ss://"
      ++ (user_info ++ (codes "@" ++ (node.host ++ (codes ":" ++ (port ++ (codes "#" ++ name)))))))

unfoldable pub render_links : List Node → Result Text
unfolding render_nodes trojan_link shadowsocks_link
render_links nodes = do
  links ← render_nodes trojan_link shadowsocks_link nodes
  ok (join (codes "\n") links ++ codes "\n")
