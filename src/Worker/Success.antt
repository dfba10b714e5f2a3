-- ===== src/Worker/Success.antt =====
-- A registration that is in order succeeds.
use vpn_register_kit.Prelude.{
  ℕ, ◌≡◌, refl, ap, ◌∙◌, inl, inr, true, false, List, [], ◌∷◌, Option, some, Text, codes, is_empty,
  All, join,
}
use vpn_register_kit.Js.Number.{Number}
use vpn_register_kit.Js.Value.{
  Value, Items, undefined, null, bool, num, str, arr, obj, nil, cons, elements, get, or_else,
  truthy, is_text, is_natural, to_string, item_strings,
}
use vpn_register_kit.Js.Json.{json_stringify, stringify}
use vpn_register_kit.Js.Result.{Result, ok}
use vpn_register_kit.Auth.{bearer_token, hash_token}
use vpn_register_kit.Runtime.{Runtime, IsRuntime}
use vpn_register_kit.Http.{Request, Response}
use vpn_register_kit.Act.{World}
use vpn_register_kit.Act.Returns.{
  Returns, IsHealthy, Returns-pure, Returns-print, Returns-after, Returns-get, bind_run,
}
use vpn_register_kit.Logs.{Meta, log_info, request_meta}
use vpn_register_kit.Validators.{validate_node}
use vpn_register_kit.Validators.Protocols.{IsProtocol}
use vpn_register_kit.Validators.Nodes.{IsNode, validate_node_iff}
use vpn_register_kit.Db.Tables.{TokenRow, select_token}
use vpn_register_kit.Db.{find_enabled_token}
use vpn_register_kit.Db.Success.{
  IsPlain, write_audit-Returns, find_enabled_token-run, upsert_node-Returns,
}
use vpn_register_kit.Worker.Reply.{
  map_items, map_value, json_ok, method_is, max_register_bytes, read_limited_json,
}
use vpn_register_kit.Worker.Register.{
  join_types, type_list, accept, check, register, handle_register,
}

pub log_info-Returns :
    (message : Text) (fields : List (Text × Value)) → Returns (λ t. Unit) (log_info message fields)
unfolding log_info
log_info-Returns message fields = Returns-print _

-- The columns of a node whose texts are texts; `region` and `ip` may be missing.
pub record IsTextual (body : Value) : Type 0 where
  pub node_id : Text
  pub has_node_id : get body (codes "node_id") ≡ ok (str node_id)
  pub name : Text
  pub has_name : get body (codes "name") ≡ ok (str name)
  pub host : Text
  pub has_host : get body (codes "host") ≡ ok (str host)
  pub region : Value
  pub has_region : get body (codes "region") ≡ ok region
  pub region_text : Text
  pub is_region : or_else region (str []) ≡ str region_text
  pub ip : Value
  pub has_ip : get body (codes "ip") ≡ ok ip
  pub ip_text : Text
  pub is_ip : or_else ip (str []) ≡ str ip_text

pub is_natural-num : (v : Value) (k : ℕ) → is_natural v k ≡ true → (n : Number) × (v ≡ num n)
unfolding is_natural
is_natural-num (num n) k h = (n, refl)
is_natural-num undefined k h = cc
is_natural-num null k h = cc
is_natural-num (bool b) k h = cc
is_natural-num (str s) k h = cc
is_natural-num (arr vs) k h = cc
is_natural-num (obj fs) k h = cc

is_text-str : (v : Value) (t : Text) → is_text v t ≡ true → (s : Text) × (v ≡ str s)
unfolding is_text
is_text-str (str s) t h = (s, refl)
is_text-str undefined t h = cc
is_text-str null t h = cc
is_text-str (bool b) t h = cc
is_text-str (num n) t h = cc
is_text-str (arr vs) t h = cc
is_text-str (obj fs) t h = cc

module _ (number_of : Text → Option Number) where
  type_str : (v : Value) → IsProtocol number_of v → (s : Text) × (get v (codes "type") ≡ ok (str s))
  type_str v p = elim p.fields [
    | inl (trojan, _) ↦
        let (s, e) = is_text-str p.type (codes "trojan") trojan in (s, p.has_type ∙ ap ok e)
    | inr (_, shadowsocks, _) ↦
        let (s, e) = is_text-str p.type (codes "shadowsocks") shadowsocks in
        (s, p.has_type ∙ ap ok e)
  ]

  types_text :
      (vs : Items)
      → All (IsProtocol number_of) (elements vs)
      → (ws : Items) × (ts : List Text) × (map_items (λ p. get p (codes "type")) vs ≡ ok ws)
        × (item_strings ws ≡ ok ts)
  unfolding map_items item_strings elements
  types_text nil h = (nil, [], refl, refl)
  types_text (cons v vs) (p, ps) =
      let (s, is_type) = type_str v p in
      let (ws, ts, mapped, printed) = types_text vs ps in
      (cons (str s) ws, s ∷ ts, rw (is_type, mapped), rw printed)

map_value-arr :
    (f : Value → Result Value) (vs ws : Items)
    → map_items f vs ≡ ok ws
    → map_value f (arr vs) ≡ ok (arr ws)
unfolding map_value
map_value-arr f vs ws h = rw h

to_string-arr :
    (ws : Items) (ts : List Text)
    → item_strings ws ≡ ok ts
    → to_string (arr ws) ≡ ok (join (codes ",") ts)
unfolding to_string
to_string-arr ws ts h = rw h

module _ (rt : Runtime) (request : Request) where
  pub type_list-runs :
      (v : Value) (vs : Items)
      → All (IsProtocol rt.number_of) (v ∷ elements vs)
      → (t : Text) × (type_list rt request (arr (cons v vs)) ≡ ok t)
  unfolding type_list or_else truthy elements
  type_list-runs v vs h =
      let (ws, ts, mapped, printed) = types_text rt.number_of (cons v vs) h in
      let values : map_value (λ p. get p (codes "type")) (arr (cons v vs)) ≡ ok (arr ws) =
        map_value-arr _ (cons v vs) ws mapped in
      (join (codes ",") ts, ap join_types values ∙ to_string-arr ws ts printed)

  unfoldable pub plain :
      (body : Value) → IsNode rt.number_of body → IsTextual body → IsPlain rt body
  unfolding json_stringify
  plain body n t =
      let (version, is_version) = is_natural-num n.version 1 n.version_1 in
      record {
        node_id = t.node_id;
        has_node_id = t.has_node_id;
        name = t.name;
        has_name = t.has_name;
        region = t.region;
        has_region = t.has_region;
        region_text = t.region_text;
        is_region = t.is_region;
        host = t.host;
        has_host = t.has_host;
        ip = t.ip;
        has_ip = t.has_ip;
        ip_text = t.ip_text;
        is_ip = t.is_ip;
        protocols = arr (cons n.head n.rest);
        has_protocols = n.has_protocols;
        protocols_text = stringify (arr (cons n.head n.rest));
        is_protocols = refl;
        version = version;
        has_version = n.has_version ∙ ap ok is_version;
      }

  abbrev IsDone : Response → Type 0
  IsDone r = r ≡ json_ok

  accept-Returns :
      (meta : Meta) (row : TokenRow) (body : Value)
      → IsNode rt.number_of body
      → IsTextual body
      → IsRuntime rt
      → IsHealthy rt
      → Returns IsDone (accept rt request meta row body)
  unfolding accept
  accept-Returns meta row body n t r healthy =
      let (types, is_types) = type_list-runs n.head n.rest n.protocols_valid in
      Returns-after _ _ _ (upsert_node-Returns rt body (plain body n t) r healthy) λ _.
        Returns-get _ _ _ _ t.has_node_id (
          Returns-after _ _ _ (write_audit-Returns rt _) λ _. Returns-get _ _ _ _ t.has_host (
            Returns-get _ _ _ _ n.has_protocols (
              Returns-get _ _ types _ is_types (
                Returns-after _ _ _ (log_info-Returns _ _) λ _. Returns-pure IsDone json_ok refl))))

  register-Returns :
      (meta : Meta) (token : Text) (row : TokenRow) (body : Value)
      → read_limited_json rt request max_register_bytes ≡ ok body
      → validate_node rt.number_of body ≡ ok tt
      → IsTextual body
      → IsRuntime rt
      → IsHealthy rt
      → Returns IsDone (register rt request meta token (some row))
  unfolding register check
  register-Returns meta token row body read valid t r healthy = Returns-get _ _ body _ read (
      rw valid
        (accept-Returns meta row body ((validate_node_iff rt.number_of body).0 valid) t r healthy))

-- A POST with an enabled register token and a body within the limit that the validator accepts, whose
-- columns are texts, is answered with 200 and `{"status":"ok"}` while the database is in reach.
pub handle_register_succeeds :
    (rt : Runtime) (request : Request) (w : World) (row : TokenRow) (body : Value)
    → IsRuntime rt
    → IsHealthy rt
    → method_is request (codes "POST") ≡ true
    → is_empty (bearer_token request) ≡ false
    → select_token (hash_token rt (bearer_token request)) (codes "register") w.db.tokens ≡ some row
    → read_limited_json rt request max_register_bytes ≡ ok body
    → validate_node rt.number_of body ≡ ok tt
    → IsTextual body
    → (handle_register rt request w).0 ≡ ok json_ok
unfolding handle_register
handle_register_succeeds rt request w row body r healthy post given selected read valid t =
    let found =
      find_enabled_token-run rt (codes "register") (bearer_token request) row w healthy given
        selected in
    let (answer, answered, done) =
      (register-Returns rt request (request_meta request) (bearer_token request) row body read valid
          t r healthy).at
        (find_enabled_token rt (codes "register") (bearer_token request) w).1 in
    rw post (
      ap (λ x. x.0)
        (bind_run _ (register rt request (request_meta request) (bearer_token request)) w (some row)
          found)
      ∙ answered
      ∙ ap ok done)
