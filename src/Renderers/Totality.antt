-- ===== src/Renderers/Totality.antt =====
-- The formats that can be rendered of all stored nodes.
use vpn_register_kit.Prelude.{
  ◌≡◌, refl, ap, ◌∙◌, List, Text, codes, text_eq, All, Bool-cases, inl, inr,
}
use vpn_register_kit.Js.Value.{
  Value, undefined, null, bool, num, str, arr, obj, Fields, end, field, own_field, get, to_string,
  or_else, truthy,
}
use vpn_register_kit.Js.Result.{Result, ok, ◌>>=◌}
use vpn_register_kit.Db.Rows.{Node}
use vpn_register_kit.Renderers.Common.{
  yaml_quote, yaml_quote_text, shadowrocket_value, shadowrocket_text, server_name,
}
use vpn_register_kit.Renderers.Common.Total.{Returned, HasProtocols, render_nodes-Returned}
use vpn_register_kit.Renderers.Clash.{trojan_proxy, shadowsocks_proxy, render_clash}
use vpn_register_kit.Renderers.Shadowrocket.{
  trojan_entry, shadowsocks_entry, render_shadowrocket_config,
}
use vpn_register_kit.Renderers.SingBox.{trojan_outbound, shadowsocks_outbound, render_sing_box}

-- Each property of the value can be read, and has a text.
abbrev pub IsSpelled : Value → Type 0
IsSpelled v = (k : Text) → (x : Value) × (t : Text) × (get v k ≡ ok x) × (to_string x ≡ ok t)

-- The values of an object that have texts.
abbrev pub SpelledFields : Fields → Type 0
SpelledFields end = Unit
SpelledFields (field k v fs) = ((t : Text) × (to_string v ≡ ok t)) × SpelledFields fs

-- An object is spelled if its values are: one that lacks a property reads as `undefined`.
pub IsSpelled-obj : (fs : Fields) → SpelledFields fs → IsSpelled (obj fs)
unfolding get own_field to_string
IsSpelled-obj end h k = (undefined, codes "undefined", refl, refl)
IsSpelled-obj (field j v fs) ((t, spelled), rest) k = elim (Bool-cases (text_eq j k)) [
  | inl same ↦ (v, t, rw same, spelled)
  | inr other ↦ let (x, u, read, named) = IsSpelled-obj fs rest k in (x, u, rw other read, named)
]

yaml_quote-Returned : (x : Value) (t : Text) → to_string x ≡ ok t → Returned (yaml_quote x)
unfolding yaml_quote
yaml_quote-Returned x t e = (yaml_quote_text t, rw e)

shadowrocket_value-Returned :
    (x : Value) (t : Text) → to_string x ≡ ok t → Returned (shadowrocket_value x)
unfolding shadowrocket_value to_string
shadowrocket_value-Returned undefined t e = (_, refl)
shadowrocket_value-Returned null t e = (_, refl)
shadowrocket_value-Returned (bool b) t e = (shadowrocket_text t, rw e)
shadowrocket_value-Returned (num n) t e = (_, refl)
shadowrocket_value-Returned (str s) t e = (_, refl)
shadowrocket_value-Returned (arr vs) t e = (shadowrocket_text t, rw e)
shadowrocket_value-Returned (obj fs) t e = (shadowrocket_text t, rw e)

-- `protocol.sni || node.host` has a text where the first does.
server_name-spelled :
    (node : Node) (x : Value) (t : Text)
    → to_string x ≡ ok t
    → (u : Text) × (to_string (server_name node x) ≡ ok u)
unfolding server_name or_else to_string
server_name-spelled node x t e = elim (Bool-cases (truthy x)) [
  | inl given ↦ (t, rw given e)
  | inr missing ↦ (node.host, rw missing)
]

read_on :
    {A B : Type 0} (r : Result A) (a : A) (f : A → Result B)
    → r ≡ ok a
    → Returned (f a)
    → Returned (r >>= f)
read_on r a f e (b, g) = (b, ap (λ x. x >>= f) e ∙ g)

module _ (node : Node) (p : Value) (h : IsSpelled p) where
  -- a property, and its text
  field_of :
      {A : Type 0} (k : Text) (f : Value → Result A)
      → ((x : Value) (t : Text) → to_string x ≡ ok t → Returned (f x))
      → Returned (get p k >>= f)
  field_of k f each = let (x, t, e, spelled) = h k in read_on (get p k) x f e (each x t spelled)

  then_text :
      {A : Type 0} (r : Result Text) (f : Text → Result A)
      → Returned r
      → ((t : Text) → Returned (f t))
      → Returned (r >>= f)
  then_text r f (t, e) each = read_on r t f e (each t)

  trojan_outbound-Returned : Returned (trojan_outbound node p)
  unfolding trojan_outbound
  trojan_outbound-Returned = field_of (codes "port") _ λ _ _ _.
      field_of (codes "password") _
        λ _ _ _. field_of (codes "tls") _ λ _ _ _. field_of (codes "sni") _ λ _ _ _. (_, refl)

  shadowsocks_outbound-Returned : Returned (shadowsocks_outbound node p)
  unfolding shadowsocks_outbound
  shadowsocks_outbound-Returned =
      field_of (codes "port") _ λ _ _ _.
        field_of (codes "method") _ λ _ _ _. field_of (codes "password") _ λ _ _ _. (_, refl)

  trojan_proxy-Returned : Returned (trojan_proxy node p)
  unfolding trojan_proxy
  trojan_proxy-Returned = field_of (codes "port") _ λ x t e.
      then_text (to_string x) _ (t, e)
        λ _. field_of (codes "password") _ λ x t e.
          then_text (yaml_quote x) _ (yaml_quote-Returned x t e) λ _.
            field_of (codes "sni") _ λ x t e.
              let (u, named) = server_name-spelled node x t e in
              then_text (yaml_quote (server_name node x)) _ (yaml_quote-Returned _ u named)
                λ _. (_, refl)

  shadowsocks_proxy-Returned : Returned (shadowsocks_proxy node p)
  unfolding shadowsocks_proxy
  shadowsocks_proxy-Returned = field_of (codes "port") _ λ x t e.
      then_text (to_string x) _ (t, e)
        λ _. field_of (codes "method") _ λ x t e.
          then_text (yaml_quote x) _ (yaml_quote-Returned x t e) λ _.
            field_of (codes "password") _
              λ x t e. then_text (yaml_quote x) _ (yaml_quote-Returned x t e) λ _. (_, refl)

  trojan_entry-Returned : Returned (trojan_entry node p)
  unfolding trojan_entry
  trojan_entry-Returned = field_of (codes "port") _ λ x t e.
      then_text (to_string x) _ (t, e)
        λ _. field_of (codes "password") _ λ x t e.
          then_text (shadowrocket_value x) _ (shadowrocket_value-Returned x t e) λ _.
            field_of (codes "sni") _ λ x t e.
              let (u, named) = server_name-spelled node x t e in
              then_text (shadowrocket_value (server_name node x)) _
                (shadowrocket_value-Returned _ u named) λ _. (_, refl)

  shadowsocks_entry-Returned : Returned (shadowsocks_entry node p)
  unfolding shadowsocks_entry
  shadowsocks_entry-Returned = field_of (codes "port") _ λ x t e.
      then_text (to_string x) _ (t, e)
        λ _. field_of (codes "method") _ λ x t e.
          then_text (shadowrocket_value x) _ (shadowrocket_value-Returned x t e) λ _.
            field_of (codes "password") _ λ x t e.
              then_text (shadowrocket_value x) _ (shadowrocket_value-Returned x t e) λ _. (_, refl)

typed : (p : Value) → IsSpelled p → Returned (get p (codes "type"))
typed p h = let (x, _, e, _) = h (codes "type") in (x, e)

-- The Clash, Shadowrocket and sing-box configurations of nodes whose protocols are lists of values
-- with texts are always rendered: no such node can take a subscription from the others.
pub renderers_return :
    (nodes : List Node)
    → All (HasProtocols IsSpelled) nodes
    → Returned (render_clash nodes)
      × Returned (render_shadowrocket_config nodes)
      × Returned (render_sing_box nodes)
unfolding render_clash render_shadowrocket_config render_sing_box
renderers_return nodes h =
    let (proxies, e) =
      render_nodes-Returned trojan_proxy shadowsocks_proxy IsSpelled typed trojan_proxy-Returned
        shadowsocks_proxy-Returned nodes h in
    let (entries, f) =
      render_nodes-Returned trojan_entry shadowsocks_entry IsSpelled typed trojan_entry-Returned
        shadowsocks_entry-Returned nodes h in
    let (outbounds, g) =
      render_nodes-Returned trojan_outbound shadowsocks_outbound IsSpelled typed
        trojan_outbound-Returned shadowsocks_outbound-Returned nodes h in
    (
      read_on _ proxies _ e (_, refl),
      read_on _ entries _ f (_, refl),
      read_on _ outbounds _ g (_, refl),
    )
