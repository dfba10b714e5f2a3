-- ===== src/Scripts/Remote.antt =====
-- The path that delete-node.js asks for, as the Worker takes it apart.
use vpn_register_kit.Prelude.{
  ◌≡◌, refl, ap, ◌∙◌, true, not, ◌++◌, Option, none, some, Text, codes, all, ltb, length, drop,
  if◌then◌else◌,
}
use vpn_register_kit.Js.Uri.{encode_uri_component}
use vpn_register_kit.Js.Decode.{decode_uri_component}
use vpn_register_kit.Js.Decode.RoundTrip.{decode_uri_component-encode}
use vpn_register_kit.Js.Regex.{test}
use vpn_register_kit.Js.Result.{Result, ok, >>=-eq-ok}
use vpn_register_kit.Validators.{node_id_pattern}
use vpn_register_kit.Runtime.{Runtime}
use vpn_register_kit.Http.{Request, text}
use vpn_register_kit.Act.{World, pure, ◌>>=◌}
use vpn_register_kit.Worker.Nodes.{delete_valid, delete_node_from_path}
use vpn_register_kit.Scripts.{uri_text, node_path}

abbrev prefix : Text
prefix = codes "/admin/nodes/"

is_escaped : (o : Option Text) (t : Text) → uri_text o ≡ ok t → o ≡ some t
is_escaped none t h = absurd (cc)
is_escaped (some u) t h = ap some (let e : u ≡ t = cc in e)

is_path : (p q : Text) → ◌≡◌ {A = Result Text} (ok p) (ok q) → q ≡ p
is_path p q h = cc

-- the escaped id, where it can be escaped
path_parts :
    (id path : Text)
    → node_path id ≡ ok path
    → (t : Text) × (encode_uri_component id ≡ some t) × (path ≡ prefix ++ t)
unfolding node_path
path_parts id path h =
    let (t, escaped, built) = >>=-eq-ok (uri_text (encode_uri_component id)) _ h in
    (t, is_escaped (encode_uri_component id) t escaped, is_path (prefix ++ t) path built)

sliced : (t : Text) → drop (length prefix) (prefix ++ t) ≡ t
unfolding codes
sliced t = refl

-- Where the path of a request is the one that delete-node.js asks for with an id, a text of UTF-16
-- units, the Worker's `deleteNodeFromPath` takes the id from it: an id that the pattern refuses is
-- answered with 400, and any other is the one that is deleted.
pub delete_node_from_path-node_path :
    (rt : Runtime) (request : Request) (id : Text) (w : World)
    → all (λ c. ltb c 0x10000) id ≡ true
    → node_path id ≡ ok request.pathname
    → delete_node_from_path rt request (codes "/admin/nodes/") w
      ≡ (if not (test node_id_pattern id)
            then pure (text (codes "invalid node_id") 400)
            else delete_valid rt request id)
          w
unfolding delete_node_from_path ◌>>=◌
delete_node_from_path-node_path rt request id w units h =
    let (t, escaped, built) = path_parts id request.pathname h in
    let read : decode_uri_component (drop (length prefix) request.pathname) ≡ some id =
      (ap (λ p. decode_uri_component (drop (length prefix) p)) built
        ∙ ap decode_uri_component (sliced t)
        ∙ decode_uri_component-encode id t units escaped) in
    rw read
