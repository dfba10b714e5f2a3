-- ===== src/Validators/Nodes.antt =====
-- What `validateNode` accepts, in words.
use vpn_register_kit.Prelude.{
  ◌≡◌, refl, ◌↔◌, inl, inr, Bool, true, false, not, ◌||◌, [], ◌∷◌, Option, Text, codes, All, arith,
  Bool-cases,
}
use vpn_register_kit.Js.Number.{Number}
use vpn_register_kit.Js.Regex.{test}
use vpn_register_kit.Js.Value.{
  Value, Items, undefined, null, bool, num, str, arr, obj, nil, cons, truthy, or_else, get,
  is_object, is_natural, to_string, elements,
}
use vpn_register_kit.Js.Result.{Thrown, Result, ok, throw_if, >>=-eq-ok}
use vpn_register_kit.Validators.{
  node_id_pattern, is_valid_host, bad_name, validate_list, validate_node,
}
use vpn_register_kit.Validators.Patterns.{IsNodeId, node_id_pattern_iff}
use vpn_register_kit.Validators.Hosts.{Has, IsShort, IsHost, is_valid_host_iff}
use vpn_register_kit.Validators.Protocols.{IsProtocol, validate_protocols_iff}

module _ (number_of : Text → Option Number) where
  -- A body that the registry takes: version 1, a node id, a name, a host and some protocols.
  pub record IsNode (v : Value) : Type 0 where
    pub given : truthy v ≡ true
    pub object : is_object v ≡ true
    pub version : Value
    pub has_version : Has v (codes "schema_version") version
    pub version_1 : is_natural version 1 ≡ true
    pub node_id : Value
    pub has_node_id : Has v (codes "node_id") node_id
    pub id : Text
    pub id_text : to_string (or_else node_id (str [])) ≡ ok id
    pub id_valid : IsNodeId id
    pub name : Value
    pub has_name : Has v (codes "name") name
    pub name_given : truthy name ≡ true
    pub name_short : IsShort number_of 80 name
    pub host : Value
    pub has_host : Has v (codes "host") host
    pub host_valid : IsHost number_of host
    pub head : Value
    pub rest : Items
    pub has_protocols : Has v (codes "protocols") (arr (cons head rest))
    pub protocols_valid : All (IsProtocol number_of) (head ∷ elements rest)

  bad_name_sound :
      (name : Value)
      → bad_name number_of name ≡ ok false
      → (truthy name ≡ true) × IsShort number_of 80 name
  unfolding bad_name
  bad_name_sound name h = elim (Bool-cases (truthy name)) [
    | inr falsy ↦ let e : ◌≡◌ {A = Result Bool} (ok true) (ok false) = rw falsy at h in cc
    | inl given ↦
        let (size, has_size, fits) = >>=-eq-ok (get name (codes "length")) _ (rw given at h) in
        (given, record { size = size; has_size = has_size; fits = fits })
  ]

  list_sound :
      (v : Value)
      → validate_list number_of v ≡ ok tt
      → (head : Value) × (rest : Items) × (v ≡ arr (cons head rest))
        × All (IsProtocol number_of) (head ∷ elements rest)
  unfolding validate_list elements
  list_sound (arr (cons p ps)) h =
      (p, ps, refl, (validate_protocols_iff number_of (p ∷ elements ps)).0 h)
  list_sound (arr nil) h = cc
  list_sound undefined h = cc
  list_sound null h = cc
  list_sound (bool b) h = cc
  list_sound (num n) h = cc
  list_sound (str s) h = cc
  list_sound (obj fs) h = cc

  throw_if-ok : (b : Bool) (e : Thrown) (t : Unit {0}) → throw_if b e ≡ ok t → b ≡ false
  throw_if-ok true e t h = cc
  throw_if-ok false e t h = refl

  validate_node_sound : (v : Value) → validate_node number_of v ≡ ok tt → IsNode v
  unfolding validate_node
  validate_node_sound v h =
      let (_, given, h1) = >>=-eq-ok (throw_if (not (truthy v) || not (is_object v)) _) _ h in
      let (version, has_version, h2) = >>=-eq-ok (get v (codes "schema_version")) _ h1 in
      let (_, is_one, h3) = >>=-eq-ok (throw_if (not (is_natural version 1)) _) _ h2 in
      let (node_id, has_node_id, h4) = >>=-eq-ok (get v (codes "node_id")) _ h3 in
      let (id, id_text, h5) = >>=-eq-ok (to_string (or_else node_id (str []))) _ h4 in
      let (_, matched, h6) = >>=-eq-ok (throw_if (not (test node_id_pattern id)) _) _ h5 in
      let (name, has_name, h7) = >>=-eq-ok (get v (codes "name")) _ h6 in
      let (unnamed, named, h8) = >>=-eq-ok (bad_name number_of name) _ h7 in
      let (_, is_named, h9) = >>=-eq-ok (throw_if unnamed _) _ h8 in
      let (host, has_host, h10) = >>=-eq-ok (get v (codes "host")) _ h9 in
      let (hosted, checked, h11) = >>=-eq-ok (is_valid_host number_of host) _ h10 in
      let (_, is_hosted, h12) = >>=-eq-ok (throw_if (not hosted) _) _ h11 in
      let (protocols, has_protocols, h13) = >>=-eq-ok (get v (codes "protocols")) _ h12 in
      let (p, ps, built, valid) = list_sound protocols h13 in
      let present = throw_if-ok (not (truthy v) || not (is_object v)) _ _ given in
      let unnamed_not = throw_if-ok unnamed _ _ is_named in
      let (name_given, name_short) = bad_name_sound name (rw unnamed_not at named) in
      let hosted_not = throw_if-ok (not hosted) _ _ is_hosted in
      let matched_not = throw_if-ok (not (test node_id_pattern id)) _ _ matched in
      let one_not = throw_if-ok (not (is_natural version 1)) _ _ is_one in
      let hosted_true : hosted ≡ true = ground arith in
      record {
        given = ground arith;
        object = ground arith;
        version = version;
        has_version = has_version;
        version_1 = ground arith;
        node_id = node_id;
        has_node_id = has_node_id;
        id = id;
        id_text = id_text;
        id_valid = (node_id_pattern_iff id).0 (ground arith);
        name = name;
        has_name = has_name;
        name_given = name_given;
        name_short = name_short;
        host = host;
        has_host = has_host;
        host_valid = (is_valid_host_iff number_of host).0 (rw hosted_true at checked);
        head = p;
        rest = ps;
        has_protocols = (rw built at has_protocols);
        protocols_valid = valid;
      }

  bad_name_complete :
      (name : Value)
      → truthy name ≡ true
      → IsShort number_of 80 name
      → bad_name number_of name ≡ ok false
  unfolding bad_name
  bad_name_complete name given short = rw (given, short.has_size, short.fits)

  list_complete :
      (p : Value) (ps : Items)
      → All (IsProtocol number_of) (p ∷ elements ps)
      → validate_list number_of (arr (cons p ps)) ≡ ok tt
  unfolding validate_list elements
  list_complete p ps h = (validate_protocols_iff number_of (p ∷ elements ps)).1 h

  validate_node_complete : (v : Value) → IsNode v → validate_node number_of v ≡ ok tt
  unfolding validate_node
  validate_node_complete v n =
      rw
        (
          n.given,
          n.object,
          n.has_version,
          n.version_1,
          n.has_node_id,
          n.id_text,
          (node_id_pattern_iff n.id).1 n.id_valid,
          n.has_name,
          bad_name_complete n.name n.name_given n.name_short,
          n.has_host,
          (is_valid_host_iff number_of n.host).1 n.host_valid,
          n.has_protocols,
        )
        (list_complete n.head n.rest n.protocols_valid)

  -- `validateNode` returns exactly on the nodes.
  pub validate_node_iff : (v : Value) → (validate_node number_of v ≡ ok tt) ↔ IsNode v
  validate_node_iff v = (validate_node_sound v, validate_node_complete v)
