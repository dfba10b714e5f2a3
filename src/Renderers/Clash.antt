-- ===== src/Renderers/Clash.antt =====
-- `renderClash` of renderers.js
use vpn_register_kit.Prelude.{List, [], ◌∷◌, ◌++◌, Text, codes, join, map}
use vpn_register_kit.Js.Result.{Result, ok, ◌>>=◌}
use vpn_register_kit.Js.Value.{Value, get, to_string}
use vpn_register_kit.Db.Rows.{Node}
use vpn_register_kit.Renderers.Common.{
  render_nodes, trojan_name, shadowsocks_name, yaml_quote, yaml_quote_text, server_name,
}

-- What one protocol adds: its name to `proxyNames`, and its lines.
pub record Proxy : Type 0 where
  pub name : Text
  pub lines : List Text

unfoldable pub trojan_proxy : Node → Value → Result Proxy
unfolding yaml_quote
trojan_proxy node protocol = do
  number ← get protocol (codes "port")
  port ← to_string number
  secret ← get protocol (codes "password")
  password ← yaml_quote secret
  name ← get protocol (codes "sni")
  sni ← yaml_quote (server_name node name)
  ok (record {
    name = trojan_name node;
    lines =
        (codes "  - name: " ++ yaml_quote_text (trojan_name node))
        ∷ codes "    type: trojan"
        ∷ (codes "    server: " ++ yaml_quote_text node.host)
        ∷ (codes "    port: " ++ port)
        ∷ (codes "    password: " ++ password)
        ∷ (codes "    sni: " ++ sni)
        ∷ codes "    skip-cert-verify: false"
        ∷ codes "    udp: true"
        ∷ [];
  })

unfoldable pub shadowsocks_proxy : Node → Value → Result Proxy
unfolding yaml_quote
shadowsocks_proxy node protocol = do
  number ← get protocol (codes "port")
  port ← to_string number
  method ← get protocol (codes "method")
  cipher ← yaml_quote method
  secret ← get protocol (codes "password")
  password ← yaml_quote secret
  ok (record {
    name = shadowsocks_name node;
    lines =
        (codes "  - name: " ++ yaml_quote_text (shadowsocks_name node))
        ∷ codes "    type: ss"
        ∷ (codes "    server: " ++ yaml_quote_text node.host)
        ∷ (codes "    port: " ++ port)
        ∷ (codes "    cipher: " ++ cipher)
        ∷ (codes "    password: " ++ password)
        ∷ codes "    udp: true"
        ∷ [];
  })

abbrev clash_head : List Text
clash_head =
    codes "mixed-port: 7890"
    ∷ codes "allow-lan: false"
    ∷ codes "mode: rule"
    ∷ codes "log-level: info"
    ∷ codes "proxies:"
    ∷ []

abbrev clash_groups : List Text
clash_groups =
    codes "proxy-groups:"
    ∷ codes "  - name: PROXY"
    ∷ codes "    type: select"
    ∷ codes "    proxies:"
    ∷ []

abbrev clash_tail : List Text
clash_tail =
    codes "      - DIRECT"
    ∷ codes "rule-providers:"
    ∷ codes "  direct:"
    ∷ codes "    type: http"
    ∷ codes "    behavior: domain"
    ∷ codes "    url: \"https://cdn.jsdelivr.net/gh/Loyalsoldier/clash-rules@release/direct.txt\""
    ∷ codes "    path: ./ruleset/direct.yaml"
    ∷ codes "    interval: 86400"
    ∷ codes "  proxy:"
    ∷ codes "    type: http"
    ∷ codes "    behavior: domain"
    ∷ codes "    url: \"https://cdn.jsdelivr.net/gh/Loyalsoldier/clash-rules@release/proxy.txt\""
    ∷ codes "    path: ./ruleset/proxy.yaml"
    ∷ codes "    interval: 86400"
    ∷ codes "  cncidr:"
    ∷ codes "    type: http"
    ∷ codes "    behavior: ipcidr"
    ∷ codes "    url: \"https://cdn.jsdelivr.net/gh/Loyalsoldier/clash-rules@release/cncidr.txt\""
    ∷ codes "    path: ./ruleset/cncidr.yaml"
    ∷ codes "    interval: 86400"
    ∷ codes "  lancidr:"
    ∷ codes "    type: http"
    ∷ codes "    behavior: ipcidr"
    ∷ codes "    url: \"https://cdn.jsdelivr.net/gh/Loyalsoldier/clash-rules@release/lancidr.txt\""
    ∷ codes "    path: ./ruleset/lancidr.yaml"
    ∷ codes "    interval: 86400"
    ∷ codes "rules:"
    ∷ codes "  - RULE-SET,lancidr,DIRECT"
    ∷ codes "  - RULE-SET,direct,DIRECT"
    ∷ codes "  - RULE-SET,cncidr,DIRECT"
    ∷ codes "  - RULE-SET,proxy,PROXY"
    ∷ codes "  - GEOIP,CN,DIRECT"
    ∷ codes "  - MATCH,PROXY"
    ∷ []

abbrev group_line : Proxy → Text
group_line proxy = codes "      - " ++ yaml_quote_text proxy.name

abbrev proxy_lines : List Proxy → List Text
proxy_lines [] = []
proxy_lines (proxy ∷ proxies) = proxy.lines ++ proxy_lines proxies

pub clash_lines : List Proxy → List Text
clash_lines proxies =
    clash_head ++ (proxy_lines proxies ++ (clash_groups ++ (map group_line proxies ++ clash_tail)))

unfoldable pub render_clash : List Node → Result Text
unfolding render_nodes trojan_proxy shadowsocks_proxy clash_lines
render_clash nodes = do
  proxies ← render_nodes trojan_proxy shadowsocks_proxy nodes
  ok (join (codes "\n") (clash_lines proxies) ++ codes "\n")
