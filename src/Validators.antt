-- ===== src/Validators.antt =====
-- cloudflare-registry/src/validators.js
pub mod Patterns
pub mod Hosts
pub mod Protocols
pub mod Nodes
use vpn_register_kit.Prelude.{
  ℕ, Bool, true, false, not, ◌&&◌, ◌||◌, List, [], ◌∷◌, ◌++◌, Option, Text, codes, leb, ◌==◌,
  is_empty, if◌then◌else◌,
}
use vpn_register_kit.Js.Number.{Number, is_integer, below_natural, exceeds_natural}
use vpn_register_kit.Js.Regex.{Regex, unit, seq, repeat, test}
use vpn_register_kit.Js.Value.{
  Value, undefined, null, bool, num, str, arr, obj, cons, truthy, or_else, get, is_object, is_text,
  is_natural, to_string, exceeds, includes, elements,
}
use vpn_register_kit.Js.Result.{Result, ok, err, error, throw_if, ◌>>=◌, ◌>>◌}

unfoldable pub is_digit : ℕ → Bool
is_digit c = leb b'0' c && leb c b'9'

-- [A-Za-z0-9], [A-Za-z0-9._-], [A-Za-z0-9.-]
unfoldable pub is_alnum : ℕ → Bool
unfolding is_digit
is_alnum c = (leb b'A' c && leb c b'Z') || (leb b'a' c && leb c b'z') || is_digit c

unfoldable pub is_id_unit : ℕ → Bool
unfolding is_alnum
is_id_unit c = is_alnum c || (c == b'.') || (c == b'_') || (c == b'-')

unfoldable pub is_host_unit : ℕ → Bool
unfolding is_alnum
is_host_unit c = is_alnum c || (c == b'.') || (c == b'-')

unfoldable pub node_id_pattern : Regex
node_id_pattern = seq (unit is_alnum) (repeat 1 63 (unit is_id_unit))

unfoldable pub host_pattern : Regex
host_pattern = seq (unit is_alnum) (seq (repeat 0 252 (unit is_host_unit)) (unit is_alnum))

-- \d{1,3}(\.\d{1,3}){3}
unfoldable pub ip_pattern : Regex
ip_pattern =
    seq (repeat 1 3 (unit is_digit))
      (repeat 3 3 (seq (unit (λ c. c == b'.')) (repeat 1 3 (unit is_digit))))

-- The tests of `isValidHost` on a host that is neither falsy nor too long.
unfoldable pub host_shape : Value → Result Bool
host_shape host = do
  s ← to_string host
  if test ip_pattern s
      then ok true
      else (do dotted ← includes host b'.'; ok (dotted && test host_pattern s))

abbrev pub valid_port : Value → Bool
valid_port (num n) = is_integer n && (not (below_natural n 1) && not (exceeds_natural n 65535))
valid_port _ = false

module _ (number_of : Text → Option Number) where
  unfoldable pub is_valid_host : Value → Result Bool
  is_valid_host host = if not (truthy host) then ok false else do
    size ← get host (codes "length")
    long ← exceeds number_of size 253
    if long then ok false else host_shape host

  -- `protocol.sni && !isValidHost(protocol.sni)`
  unfoldable pub bad_sni : Value → Result Bool
  bad_sni sni = if truthy sni then (do valid ← is_valid_host sni; ok (not valid)) else ok false

  -- `throw new Error(`… ${protocol.type}`)`
  unfoldable pub reject_type : Text → Value → Result (Unit {0})
  reject_type prefix type = do name ← to_string type; err (error (prefix ++ name))

  unfoldable pub validate_trojan : Value → Result (Unit {0})
  validate_trojan protocol = do
    password ← get protocol (codes "password")
    throw_if (not (truthy password)) (error (codes "trojan password is required"))
    sni ← get protocol (codes "sni")
    bad ← bad_sni sni
    throw_if bad (error (codes "invalid trojan sni"))

  unfoldable pub validate_shadowsocks : Value → Result (Unit {0})
  validate_shadowsocks protocol = do
    method ← get protocol (codes "method")
    password ← get protocol (codes "password")
    throw_if (not (truthy method) || not (truthy password))
        (error (codes "shadowsocks method and password are required"))

  unfoldable pub validate_protocol : Value → Result (Unit {0})
  validate_protocol protocol = do
    port ← get protocol (codes "port")
    type ← get protocol (codes "type")
    if not (valid_port port)
        then reject_type (codes "invalid port for ") type
        else if is_text type (codes "trojan")
        then validate_trojan protocol
        else if is_text type (codes "shadowsocks")
        then validate_shadowsocks protocol
        else reject_type (codes "unsupported protocol ") type

  -- the loop over `node.protocols`
  unfoldable pub validate_protocols : List Value → Result (Unit {0})
  validate_protocols [] = ok tt
  validate_protocols (protocol ∷ protocols) =
      validate_protocol protocol >> validate_protocols protocols

  -- `!node.name || node.name.length > 80`
  unfoldable pub bad_name : Value → Result Bool
  bad_name name =
      if truthy name
      then (do size ← get name (codes "length"); exceeds number_of size 80)
      else ok true

  -- `!Array.isArray(node.protocols) || node.protocols.length === 0`, then the loop
  unfoldable pub validate_list : Value → Result (Unit {0})
  validate_list (arr (cons protocol protocols)) =
      validate_protocols (elements (cons protocol protocols))
  validate_list _ = err (error (codes "at least one protocol is required"))

  unfoldable pub validate_node : Value → Result (Unit {0})
  validate_node node = do
    throw_if (not (truthy node) || not (is_object node)) (error (codes "node must be an object"))
    version ← get node (codes "schema_version")
    throw_if (not (is_natural version 1)) (error (codes "schema_version must be 1"))
    node_id ← get node (codes "node_id")
    id ← to_string (or_else node_id (str []))
    throw_if (not (test node_id_pattern id)) (error (codes "invalid node_id"))
    name ← get node (codes "name")
    unnamed ← bad_name name
    throw_if unnamed (error (codes "invalid name"))
    host ← get node (codes "host")
    hosted ← is_valid_host host
    throw_if (not hosted) (error (codes "invalid host"))
    protocols ← get node (codes "protocols")
    validate_list protocols
