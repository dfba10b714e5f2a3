-- ===== src/Renderers/SingBox.antt =====
-- `renderSingBox` of renderers.js
use vpn_register_kit.Prelude.{List, ◌∷◌, codes}
use vpn_register_kit.Js.Result.{Result, ok, ◌>>=◌}
use vpn_register_kit.Js.Value.{
  Value, bool, str, arr, obj, items, nil, cons, end, field, get, truthy,
}
use vpn_register_kit.Db.Rows.{Node}
use vpn_register_kit.Renderers.Common.{render_nodes, trojan_name, shadowsocks_name, server_name}

unfoldable pub trojan_outbound : Node → Value → Result Value
trojan_outbound node protocol = do
  port ← get protocol (codes "port")
  password ← get protocol (codes "password")
  tls ← get protocol (codes "tls")
  sni ← get protocol (codes "sni")
  ok (
      obj (
        field (codes "type") (str (codes "trojan")) (
          field (codes "tag") (str (trojan_name node)) (
            field (codes "server") (str node.host) (
              field (codes "server_port") port (
                field (codes "password") password (
                  field (codes "tls")
                    (obj (
                      field (codes "enabled") (bool (truthy tls))
                        (field (codes "server_name") (server_name node sni) end)))
                    end)))))))

unfoldable pub shadowsocks_outbound : Node → Value → Result Value
shadowsocks_outbound node protocol = do
  port ← get protocol (codes "port")
  method ← get protocol (codes "method")
  password ← get protocol (codes "password")
  ok (
      obj (
        field (codes "type") (str (codes "shadowsocks")) (
          field (codes "tag") (str (shadowsocks_name node)) (
            field (codes "server") (str node.host) (
              field (codes "server_port") port
                (field (codes "method") method (field (codes "password") password end)))))))

abbrev direct_outbound : Value
direct_outbound =
    obj
      (field (codes "type") (str (codes "direct")) (field (codes "tag") (str (codes "direct")) end))

abbrev google_dns : Value
google_dns = obj (
    field (codes "tag") (str (codes "google"))
      (field (codes "address") (str (codes "8.8.8.8")) end))

unfoldable pub render_sing_box : List Node → Result Value
unfolding render_nodes trojan_outbound shadowsocks_outbound
render_sing_box nodes = do
  outbounds ← render_nodes trojan_outbound shadowsocks_outbound nodes
  ok (
      obj (
        field (codes "log") (obj (field (codes "level") (str (codes "info")) end)) (
          field (codes "dns") (obj (field (codes "servers") (arr (cons google_dns nil)) end)) (
            field (codes "outbounds") (arr (items (direct_outbound ∷ outbounds))) (
              field (codes "route") (obj (field (codes "final") (str (codes "direct")) end))
                end)))))
