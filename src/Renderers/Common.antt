-- ===== src/Renderers/Common.antt =====
-- The loops and the quoting that the renderers of renderers.js share.
pub mod Total
use vpn_register_kit.Prelude.{
  List, [], ◌∷◌, ◌++◌, Option, none, some, Text, codes, replace_all, trim, if◌then◌else◌,
}
use vpn_register_kit.Js.Base64.{btoa}
use vpn_register_kit.Js.Uri.{encode_uri_component}
use vpn_register_kit.Js.Result.{
  Result, ok, err, fault, Fault, not_iterable, bad_character, bad_uri, ◌>>=◌,
}
use vpn_register_kit.Js.Value.{
  Value, undefined, null, str, arr, nil, elements, get, is_text, or_else, to_string,
}
use vpn_register_kit.Db.Rows.{Node}

single_texts : Text → List Value
single_texts [] = []
single_texts (c ∷ s) = str (c ∷ []) ∷ single_texts s

-- What `for (const x of v)` runs over. A text runs over its parts.
unfoldable pub iterate : Value → Result (List Value)
unfolding single_texts
iterate (arr vs) = ok (elements vs)
iterate (str s) = ok (single_texts s)
iterate _ = err (fault not_iterable)

-- One round of the loops: a step for each type of protocol, on the protocols in order.
module _ {ℓ} {A : Type ℓ} (trojan shadowsocks : Node → Value → Result A) where
  render_protocol : Node → Value → Result (List A)
  render_protocol node protocol = do
    type ← get protocol (codes "type")
    if is_text type (codes "trojan")
        then (do item ← trojan node protocol; ok (item ∷ []))
        else if is_text type (codes "shadowsocks")
        then (do item ← shadowsocks node protocol; ok (item ∷ []))
        else ok []

  render_protocols : Node → List Value → Result (List A)
  unfolding render_protocol
  render_protocols node [] = ok []
  render_protocols node (protocol ∷ protocols) = do
    some_items ← render_protocol node protocol
    more_items ← render_protocols node protocols
    ok (some_items ++ more_items)

  render_node : Node → Result (List A)
  unfolding render_protocols iterate
  render_node node = do
    protocols ← iterate (or_else node.protocols (arr nil))
    render_protocols node protocols

  -- `for (const node of nodes) for (const protocol of node.protocols || []) …`
  unfoldable pub render_nodes : List Node → Result (List A)
  unfolding render_node
  render_nodes [] = ok []
  render_nodes (node ∷ nodes) = do
    some_items ← render_node node
    more_items ← render_nodes nodes
    ok (some_items ++ more_items)

unfoldable pub trojan_name : Node → Text
trojan_name node = node.name ++ codes "-Trojan"

unfoldable pub shadowsocks_name : Node → Text
shadowsocks_name node = node.name ++ codes "-SS"

abbrev or_throw {ℓ} : {A : Type ℓ} → Fault → Option A → Result A
or_throw f none = err (fault f)
or_throw f (some a) = ok a

-- `encodeURIComponent(t)`
unfoldable pub uri_component : Text → Result Text
unfolding encode_uri_component
uri_component t = or_throw bad_uri (encode_uri_component t)

-- `base64Encode`: Workers have `btoa`
unfoldable pub base64_encode : Text → Result Text
unfolding btoa
base64_encode t = or_throw bad_character (btoa t)

unfoldable pub base64_url_encode : Text → Result Text
unfolding base64_encode replace_all
base64_url_encode t = do
  encoded ← base64_encode t
  ok (replace_all b'=' [] (replace_all b'/' (b'_' ∷ []) (replace_all b'+' (b'-' ∷ []) encoded)))

unfoldable pub yaml_escape : Text → Text
unfolding replace_all
yaml_escape t = replace_all b'"' (b'\\' ∷ b'"' ∷ []) (replace_all b'\\' (b'\\' ∷ b'\\' ∷ []) t)

-- `yamlQuote` of a text, and of any value
unfoldable pub yaml_quote_text : Text → Text
unfolding yaml_escape
yaml_quote_text t = codes "\"" ++ (yaml_escape t ++ codes "\"")

unfoldable pub yaml_quote : Value → Result Text
unfolding yaml_quote_text
yaml_quote value = do t ← to_string value; ok (yaml_quote_text t)

unfoldable pub shadowrocket_name : Text → Text
unfolding replace_all
shadowrocket_name t =
    trim (replace_all b'\r' (32 ∷ []) (replace_all b'\n' (32 ∷ []) (replace_all b',' (32 ∷ []) t)))

unfoldable pub shadowrocket_text : Text → Text
unfolding replace_all
shadowrocket_text t = replace_all b'\r' [] (replace_all b'\n' [] (replace_all b',' (codes "%2C") t))

-- `value ?? ""`
abbrev or_blank : Value → Value
or_blank undefined = str []
or_blank null = str []
or_blank v = v

unfoldable pub shadowrocket_value : Value → Result Text
unfolding shadowrocket_text
shadowrocket_value value = do t ← to_string (or_blank value); ok (shadowrocket_text t)

-- `protocol.sni || node.host`
unfoldable pub server_name : Node → Value → Value
server_name node sni = or_else sni (str node.host)
