-- ===== src/Scripts/Commands/Nodes.antt =====
-- list-nodes.js against what `handleAdminNodes` of the Worker answers.
use vpn_register_kit.Prelude.{
  ◌≡◌, refl, sym, ap, ◌∙◌, List, [], ◌∷◌, ◌++◌, Option, none, some, Text, codes, text_eq, join, map,
  is_empty, All,
}
use vpn_register_kit.Js.Number.{Number, number_text}
use vpn_register_kit.Js.Value.{
  Value, str, num, arr, obj, Items, nil, cons, end, field, elements, get, own_field, or_else,
  truthy, to_string,
}
use mathlib.Core.Path.{subst}
use vpn_register_kit.Js.Result.{Thrown, Result, ok}
use vpn_register_kit.Db.Rows.{Node}
use vpn_register_kit.Http.{json}
use vpn_register_kit.Worker.Reply.{
  protocol_summary, map_items, map_value, node_summary, node_summaries,
}
use vpn_register_kit.Scripts.{Environment, Call, Reply}
use vpn_register_kit.Scripts.Requests.{Answers, admin_request_lem}
use vpn_register_kit.Scripts.Printing.{outcome}
use vpn_register_kit.Scripts.Lines.{
  padded, pad_end, node_line, protocol_text, protocol_texts, joined_protocols,
}
use vpn_register_kit.Scripts.Commands.{list_nodes_script}
use vpn_register_kit.Scripts.Commands.Listed.{Lined, list_lines_lem, json-is_empty}

-- The protocols of a node as the line shows them: a type, and a number for the port.
abbrev pub HasPorts : List Value → List (Text × Number) → Type 0
HasPorts [] [] = Unit {0}
HasPorts (v ∷ vs) ((type, port) ∷ ports) =
    (get v (codes "type") ≡ ok (str type))
    × (get v (codes "port") ≡ ok (num port))
    × HasPorts vs ports
HasPorts _ _ = ⊥

-- A row of the table that list-nodes.js can print, with its protocols.
pub record Listing : Type 0 where
  pub node : Node
  pub protocols : Items
  pub ports : List (Text × Number)

pub record IsListing (l : Listing) : Type 0 where
  pub is_list : l.node.protocols ≡ arr l.protocols
  pub has_ports : HasPorts (elements l.protocols) l.ports

abbrev port_text : Text × Number → Text
port_text (type, port) = type ++ (codes ":" ++ number_text port)

abbrev dash_if_empty : Text → Text
dash_if_empty [] = codes "-"
dash_if_empty (c ∷ t) = c ∷ t

unfoldable pub node_text : Listing → Text
node_text l =
    codes "- "
    ++ join (codes " ") (
        padded 16 l.node.node_id
        ∷ padded 16 l.node.name
        ∷ padded 6 l.node.region
        ∷ padded 32 l.node.host
        ∷ join (codes ",") (map port_text l.ports)
        ∷ (codes "updated=" ++ dash_if_empty l.node.updated_at)
        ∷ [])

summaries_texts :
    (vs : Items) (ports : List (Text × Number))
    → HasPorts (elements vs) ports
    → (ws : Items) × (map_items protocol_summary vs ≡ ok ws)
      × (protocol_texts (elements ws) ≡ ok (map port_text ports))
unfolding elements map_items protocol_summary protocol_texts protocol_text get own_field text_eq
    codes to_string
summaries_texts nil [] h = (nil, refl, refl)
summaries_texts (cons v vs) ((type, port) ∷ ports) (is_type, is_port, later) =
    let (ws, made, printed) = summaries_texts vs ports later in
    (
      cons (obj (field (codes "type") (str type) (field (codes "port") (num port) end))) ws,
      rw (is_type, is_port, made),
      rw printed,
    )
summaries_texts nil (p ∷ ports) h = absurd h
summaries_texts (cons v vs) [] h = absurd h

abbrev summary_object : Node → Items → Value
summary_object node ws = obj (
    field (codes "node_id") (str node.node_id) (
      field (codes "name") (str node.name) (
        field (codes "region") (str node.region) (
          field (codes "host") (str node.host) (
            field (codes "ip") (str node.ip) (
              field (codes "protocols") (arr ws)
                (field (codes "updated_at") (str node.updated_at) end)))))))

dash-to_string : (t : Text) → to_string (or_else (str t) (str (codes "-"))) ≡ ok (dash_if_empty t)
unfolding to_string or_else truthy codes
dash-to_string [] = refl
dash-to_string (c ∷ t) = refl

node_line-summary :
    (l : Listing)
    → IsListing l
    → (v : Value) × (node_summary l.node ≡ ok v) × (node_line v ≡ ok (node_text l))
unfolding node_summary map_value node_line joined_protocols get own_field text_eq codes pad_end
    or_else truthy node_text
node_line-summary l h =
    let (ws, made, printed) = summaries_texts l.protocols l.ports h.has_ports in
    (summary_object l.node ws, rw (h.is_list, made), rw (printed, dash-to_string l.node.updated_at))

nodes_lines :
    (ls : List Listing)
    → All IsListing ls
    → (ws : Items) × (node_summaries (map (λ l. l.node) ls) ≡ ok ws)
      × Lined node_line (elements ws) (map node_text ls)
unfolding node_summaries elements
nodes_lines [] h = (nil, refl, tt)
nodes_lines (l ∷ ls) (h, hs) =
    let (v, made, printed) = node_line-summary l h in
    let (ws, rest, lines) = nodes_lines ls hs in (cons v ws, rw (made, rest), (printed, lines))

ok_items : (a b : Items) → ◌≡◌ {A = Result Items} (ok a) (ok b) → a ≡ b
ok_items a b e = cc

-- What `handleAdminNodes` answers.
abbrev pub node_list : Items → Value
node_list ws = obj (field (codes "nodes") (arr ws) end)

module _ (parse : Text → Option Value) (server : Call → Result Reply) (message : Thrown → Text)
    (env : Environment) (reply : Reply) where
  -- list-nodes.js, where the server answers with the summaries of nodes whose protocols have a text for
  -- the type and a number for the port, and JSON.parse reads them back, prints a line for each node in
  -- order, and exits with 0.
  pub list_nodes_script_lem :
      (ls : List Listing) (ws : Items)
      → All IsListing ls
      → node_summaries (map (λ l. l.node) ls) ≡ ok ws
      → Answers server env (codes "/admin/nodes") (codes "GET") none reply
      → reply.text ≡ (json (node_list ws) 200).body
      → parse reply.text ≡ some (node_list ws)
      → list_nodes_script parse server message env
        ≡ record { lines = codes "Registered nodes:" ∷ map node_text ls; exit_code = 0 }
  unfolding list_nodes_script outcome
  list_nodes_script_lem ls ws hs listed a body parsed =
      let (ws', listed', lines) = nodes_lines ls hs in
      let same : ws' ≡ ws = ok_items ws' ws (sym listed' ∙ listed) in
      let returned =
        admin_request_lem parse server env (codes "/admin/nodes") (codes "GET") none reply
          (node_list ws) a (ap is_empty body ∙ json-is_empty (node_list ws)) parsed in
      rw (
        returned,
        list_lines_lem (codes "Registered nodes:") (codes "nodes") node_line ws (map node_text ls)
            (subst (λ x. Lined node_line (elements x) (map node_text ls)) same lines),
      )
