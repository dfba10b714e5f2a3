-- ===== src/Worker/Privacy.antt =====
-- `nodeSummary` shows no secret: of a protocol it shows the type and the port alone.
use vpn_register_kit.Prelude.{◌≡◌, refl, List, [], ◌∷◌, codes}
use vpn_register_kit.Js.Value.{Items, nil, cons, arr, get, or_else, truthy}
use vpn_register_kit.Db.Rows.{Node}
use vpn_register_kit.Worker.Reply.{
  protocol_summary, map_items, map_value, node_summary, node_summaries,
}

-- Two lists of protocols that differ in other fields than `type` and `port` at most.
abbrev pub SameItems : Items → Items → Type 0
SameItems nil nil = Unit
SameItems nil (cons w ws) = ⊥
SameItems (cons v vs) nil = ⊥
SameItems (cons v vs) (cons w ws) =
    (get v (codes "type") ≡ get w (codes "type"))
    × (get v (codes "port") ≡ get w (codes "port"))
    × SameItems vs ws

-- Two nodes that differ in the secrets of their protocols at most.
pub record SameShown (a b : Node) : Type 0 where
  pub node_id : a.node_id ≡ b.node_id
  pub name : a.name ≡ b.name
  pub region : a.region ≡ b.region
  pub host : a.host ≡ b.host
  pub ip : a.ip ≡ b.ip
  pub updated_at : a.updated_at ≡ b.updated_at
  pub items_a : Items
  pub items_b : Items
  pub protocols_a : a.protocols ≡ arr items_a
  pub protocols_b : b.protocols ≡ arr items_b
  pub protocols : SameItems items_a items_b

map_items-same :
    (vs ws : Items)
    → SameItems vs ws
    → map_items protocol_summary vs ≡ map_items protocol_summary ws
unfolding map_items protocol_summary
map_items-same nil nil h = refl
map_items-same nil (cons w ws) h = absurd h
map_items-same (cons v vs) nil h = absurd h
map_items-same (cons v vs) (cons w ws) (type, port, rest) =
    rw (type, port, map_items-same vs ws rest)

node_summary-same : (a b : Node) → SameShown a b → node_summary a ≡ node_summary b
unfolding node_summary map_value or_else truthy
node_summary-same a b s = rw (
  s.protocols_a,
  s.protocols_b,
  map_items-same s.items_a s.items_b s.protocols,
  s.node_id,
  s.name,
  s.region,
  s.host,
  s.ip,
  s.updated_at,
)

abbrev pub AllShown : List Node → List Node → Type 0
AllShown [] [] = Unit
AllShown [] (b ∷ bs) = ⊥
AllShown (a ∷ as_) [] = ⊥
AllShown (a ∷ as_) (b ∷ bs) = SameShown a b × AllShown as_ bs

-- The summaries of nodes do not depend on the passwords, the methods or any other field of their
-- protocols but `type` and `port`.
pub node_summaries_hide :
    (as_ bs : List Node) → AllShown as_ bs → node_summaries as_ ≡ node_summaries bs
unfolding node_summaries
node_summaries_hide [] [] h = refl
node_summaries_hide [] (b ∷ bs) h = absurd h
node_summaries_hide (a ∷ as_) [] h = absurd h
node_summaries_hide (a ∷ as_) (b ∷ bs) (same, rest) =
    rw (node_summary-same a b same, node_summaries_hide as_ bs rest)
