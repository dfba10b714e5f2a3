-- ===== src/Renderers/Common/Total.antt =====
-- The loops of the renderers return where each round does.
use vpn_register_kit.Prelude.{
  ◌≡◌, refl, ap, ◌∙◌, List, [], ◌∷◌, ◌++◌, codes, All, Bool-cases, inl, inr,
}
use vpn_register_kit.Js.Value.{Value, Items, arr, nil, elements, get, is_text, or_else, truthy}
use vpn_register_kit.Js.Result.{Result, ok, ◌>>=◌}
use vpn_register_kit.Db.Rows.{Node}
use vpn_register_kit.Renderers.Common.{
  iterate, render_protocol, render_protocols, render_node, render_nodes,
}

abbrev pub Returned {ℓ} : {A : Type ℓ} → Result A → Type ℓ
Returned r = (a : _) × (r ≡ ok a)

-- A node whose protocols are a list of P.
pub record HasProtocols (P : Value → Type 0) (node : Node) : Type 0 where
  pub list : Items
  pub is_list : node.protocols ≡ arr list
  pub each : All P (elements list)

module _ {A : Type 0} (trojan shadowsocks : Node → Value → Result A) (P : Value → Type 0)
    (typed : (p : Value) → P p → Returned (get p (codes "type")))
    (first : (node : Node) (p : Value) → P p → Returned (trojan node p))
    (second : (node : Node) (p : Value) → P p → Returned (shadowsocks node p)) where
  render_protocol-Returned :
      (node : Node) (p : Value) → P p → Returned (render_protocol trojan shadowsocks node p)
  unfolding render_protocol
  render_protocol-Returned node p h =
      let (type, is_type) = typed p h in
      elim (Bool-cases (is_text type (codes "trojan"))) [
        | inl yes_ ↦ let (item, made) = first node p h in (item ∷ [], rw (is_type, yes_, made))
        | inr no_ ↦ elim (Bool-cases (is_text type (codes "shadowsocks"))) [
          | inl yes_ ↦
              let (item, made) = second node p h in (item ∷ [], rw (is_type, no_, yes_, made))
          | inr neither ↦ ([], rw (is_type, no_, neither))
        ]
      ]

  render_protocols-Returned :
      (node : Node) (ps : List Value)
      → All P ps
      → Returned (render_protocols trojan shadowsocks node ps)
  unfolding render_protocols
  render_protocols-Returned node [] h = ([], refl)
  render_protocols-Returned node (p ∷ ps) (hp, hps) =
      let (some_items, e) = render_protocol-Returned node p hp in
      let (more_items, f) = render_protocols-Returned node ps hps in
      (some_items ++ more_items, rw (e, f))

  render_node-Returned :
      (node : Node) → HasProtocols P node → Returned (render_node trojan shadowsocks node)
  unfolding render_node iterate or_else truthy
  render_node-Returned node h =
      let (items, e) = render_protocols-Returned node (elements h.list) h.each in
      let listed : iterate (or_else node.protocols (arr nil)) ≡ ok (elements h.list) =
        ap (λ v. iterate (or_else v (arr nil))) h.is_list in
      (items, ap (λ r. r >>= render_protocols trojan shadowsocks node) listed ∙ e)

  pub render_nodes-Returned :
      (nodes : List Node)
      → All (HasProtocols P) nodes
      → Returned (render_nodes trojan shadowsocks nodes)
  unfolding render_nodes
  render_nodes-Returned [] h = ([], refl)
  render_nodes-Returned (node ∷ nodes) (hn, hns) =
      let (some_items, e) = render_node-Returned node hn in
      let (more_items, f) = render_nodes-Returned nodes hns in (some_items ++ more_items, rw (e, f))
