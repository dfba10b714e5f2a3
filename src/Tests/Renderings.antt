-- ===== src/Tests/Renderings.antt =====
-- What the renderers print of a small node.
use vpn_register_kit.Prelude.{◌≡◌, refl, [], ◌∷◌, ◌++◌, codes}
use vpn_register_kit.Js.Number.{natural}
use vpn_register_kit.Js.Value.{Value, str, num, arr, obj, nil, cons, end, field}
use vpn_register_kit.Js.Result.{ok}
use vpn_register_kit.Renderers.Common.{trojan_name, shadowsocks_name}
use vpn_register_kit.Renderers.Links.{render_links}
use vpn_register_kit.Tests.Demo.{trojan, node_with}
use vpn_register_kit.Tests.Runs.{runs}

abbrev shadowsocks : Value
shadowsocks = obj (
    field (codes "type") (str (codes "shadowsocks")) (
      field (codes "port") (num (natural 8388)) (
        field (codes "method") (str (codes "aes-128-gcm"))
          (field (codes "password") (str (codes "pw")) end))))

links_text :
    render_links (node_with (arr (cons trojan (cons shadowsocks nil))) ∷ [])
    ≡ ok (
        codes "trojan://pw@kr.example.com:443#Seoul-Trojan\n"
        ++ codes "ss://YWVzLTEyOC1nY206cHc@kr.example.com:8388#Seoul-SS\n")
unfolding runs render_links trojan_name shadowsocks_name
links_text = refl
