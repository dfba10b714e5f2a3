-- ===== src/Renderers/Shadowrocket.antt =====
-- `renderShadowrocketConfig` of renderers.js
use vpn_register_kit.Prelude.{List, [], ◌∷◌, ◌++◌, Text, codes, join, map}
use vpn_register_kit.Js.Result.{Result, ok, ◌>>=◌}
use vpn_register_kit.Js.Value.{Value, get, to_string}
use vpn_register_kit.Db.Rows.{Node}
use vpn_register_kit.Renderers.Common.{
  render_nodes, trojan_name, shadowsocks_name, shadowrocket_name, shadowrocket_text,
  shadowrocket_value, server_name,
}

-- What one protocol adds: its name to `proxyNames`, and its line.
pub record Entry : Type 0 where
  pub name : Text
  pub line : Text

unfoldable pub trojan_entry : Node → Value → Result Entry
unfolding shadowrocket_name shadowrocket_text shadowrocket_value
trojan_entry node protocol = do
  number ← get protocol (codes "port")
  port ← to_string number
  secret ← get protocol (codes "password")
  password ← shadowrocket_value secret
  given ← get protocol (codes "sni")
  sni ← shadowrocket_value (server_name node given)
  let name = shadowrocket_name (trojan_name node)
  ok (record {
    name = name;
    line =
        name
        ++ (codes " = trojan, "
            ++ (shadowrocket_text node.host
                ++ (codes ", "
                    ++ (port
                        ++ (codes ", password="
                            ++ (password
                                ++ (codes ", over-tls=true, tls-verification=true, sni="
                                    ++ sni)))))));
  })

unfoldable pub shadowsocks_entry : Node → Value → Result Entry
unfolding shadowrocket_name shadowrocket_text shadowrocket_value
shadowsocks_entry node protocol = do
  number ← get protocol (codes "port")
  port ← to_string number
  cipher ← get protocol (codes "method")
  method ← shadowrocket_value cipher
  secret ← get protocol (codes "password")
  password ← shadowrocket_value secret
  let name = shadowrocket_name (shadowsocks_name node)
  ok (record {
    name = name;
    line =
        name
        ++ (codes " = ss, "
            ++ (shadowrocket_text node.host
                ++ (codes ", "
                    ++ (port
                        ++ (codes ", encrypt-method="
                            ++ (method ++ (codes ", password=" ++ password)))))));
  })

abbrev config_head : List Text
config_head =
    codes "[General]"
    ∷ codes "bypass-system = true"
    ∷ codes "skip-proxy = 127.0.0.1, 192.168.0.0/16, 10.0.0.0/8, 172.16.0.0/12, localhost, *.local"
    ∷ codes ""
    ∷ codes "[Proxy]"
    ∷ []

abbrev config_tail : List Text
config_tail =
    []
    ∷ codes "[Rule]"
    ∷ (codes "RULE-SET,"
        ++ (codes
              "https://cdn.jsdelivr.net/gh/blackmatrix7/ios_rule_script@master/rule/Shadowrocket/Lan/Lan.list"
            ++ codes ",DIRECT"))
    ∷ (codes "RULE-SET,"
        ++ (codes
              "https://cdn.jsdelivr.net/gh/blackmatrix7/ios_rule_script@master/rule/Shadowrocket/China/China.list"
            ++ codes ",DIRECT"))
    ∷ codes "GEOIP,CN,DIRECT"
    ∷ codes "FINAL,PROXY"
    ∷ []

abbrev entry_lines : List Entry → List Text
entry_lines entries = map (λ (e : Entry). e.line) entries

abbrev group_names : List Entry → Text
group_names entries = join [] (map (λ (e : Entry). codes ", " ++ e.name) entries)

pub config_lines : List Entry → List Text
config_lines entries =
    config_head
    ++ (entry_lines entries
        ++ ([]
            ∷ codes "[Proxy Group]"
            ∷ (codes "PROXY = select" ++ (group_names entries ++ codes ", DIRECT"))
            ∷ config_tail))

unfoldable pub render_shadowrocket_config : List Node → Result Text
unfolding render_nodes trojan_entry shadowsocks_entry config_lines
render_shadowrocket_config nodes = do
  entries ← render_nodes trojan_entry shadowsocks_entry nodes
  ok (join (codes "\n") (config_lines entries) ++ codes "\n")
