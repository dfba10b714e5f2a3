-- ===== src/Tests/Demo.antt =====
-- A runtime with fixed answers, and a registry with one node and two tokens.
use vpn_register_kit.Prelude.{
  ◌+◌, ◌%◌, [], ◌∷◌, ◌++◌, Option, none, some, Text, codes, text_eq, take, replicate, map, false,
  if◌then◌else◌,
}
use vpn_register_kit.Js.Number.{Number, natural}
use vpn_register_kit.Js.Value.{Fields, Value, num, str, arr, obj, nil, cons, end, field}
use vpn_register_kit.Runtime.{Runtime}
use vpn_register_kit.Auth.{hash_token}
use vpn_register_kit.Http.{Request}
use vpn_register_kit.Act.{World}
use vpn_register_kit.Db.Rows.{Node}
use vpn_register_kit.Db.Tables.{NodeRow, TokenRow}

abbrev pub trojan_fields : Fields
trojan_fields =
    field (codes "type") (str (codes "trojan"))
      (field (codes "port") (num (natural 443)) (field (codes "password") (str (codes "pw")) end))

abbrev pub trojan : Value
trojan = obj trojan_fields

abbrev pub tokyo : Value
tokyo = obj (
    field (codes "schema_version") (num (natural 1)) (
      field (codes "node_id") (str (codes "jp-1")) (
        field (codes "name") (str (codes "Tokyo")) (
          field (codes "host") (str (codes "jp.example.com"))
            (field (codes "protocols") (arr (cons trojan nil)) end)))))

-- `JSON.parse` knows two texts.
abbrev known_json : Text → Option Value
known_json t =
    if text_eq t (codes "{tokyo}")
    then some tokyo
    else if text_eq t (codes "[trojan]")
    then some (arr (cons trojan nil))
    else none

abbrev known_text : Value → Option Text
known_text (str s) = some s
known_text _ = none

abbrev known_number : Value → Option Number
known_number (num n) = some n
known_number _ = none

abbrev pub demo : Runtime
demo = record {
  digest = λ bytes. map (λ b. b % 256) (take 32 (bytes ++ replicate 32 0));
  random_bytes = λ call. replicate 24 (call % 256);
  random_uuid = λ call. replicate (call + 1) b'u';
  now_iso = λ call. codes "2024-05-01T00:00:00.000Z";
  json_parse = known_json;
  lower_wide = λ c. c ∷ [];
  number_of = λ t. none;
  describe = λ f. codes "error";
  stack = λ e. codes "Error: at fetch";
  d1_fails = λ call. false;
  bind_text = known_text;
  bind_integer = known_number;
}

abbrev pub secret : Option Text
secret = some (codes "secret")

abbrev pub seoul : NodeRow
seoul = record {
  node_id = codes "kr-1";
  name = codes "Seoul";
  region = [];
  host = codes "kr.example.com";
  ip = [];
  protocols_json = codes "[trojan]";
  schema_version = natural 1;
  created_at = codes "2024-01-01";
  updated_at = codes "2024-01-01";
}

abbrev pub osaka : NodeRow
osaka = record seoul { node_id = codes "jp-2"; name = codes "Osaka"; host = codes "os.example.com" }

abbrev pub register_row : TokenRow
register_row = record {
  id = codes "t1";
  kind = codes "register";
  token_hash = hash_token demo (codes "reg");
  token_hint = codes "***";
  enabled = 1;
  created_at = codes "2024-01-01";
  last_used_at = none;
}

abbrev pub subscribe_row : TokenRow
subscribe_row = record register_row {
  id = codes "t2";
  kind = codes "subscribe";
  token_hash = hash_token demo (codes "sub");
}

abbrev pub start : World
start = record {
  db = record { nodes = seoul ∷ []; tokens = register_row ∷ subscribe_row ∷ []; audit_logs = [] };
  calls = 0;
  console = [];
}

abbrev pub request_with : Text → Text → Text → Text → Request
request_with method pathname bearer body = record {
  method = method;
  origin = codes "https://vpn.example.com";
  pathname = pathname;
  search = [];
  headers = (codes "authorization", codes "Bearer " ++ bearer) ∷ [];
  body = body;
}

abbrev pub registration : Request
registration = request_with (codes "POST") (codes "/register") (codes "reg") (codes "{tokyo}")

abbrev pub deletion : Request
deletion = request_with (codes "DELETE") (codes "/admin/nodes/kr-1") (codes "secret") []

abbrev pub intrusion : Request
intrusion = request_with (codes "POST") (codes "/register") (codes "guess") (codes "{tokyo}")

abbrev pub subscription : Request
subscription = record {
  method = codes "GET";
  origin = codes "https://vpn.example.com";
  pathname = codes "/sub";
  search = (codes "token", codes "sub") ∷ [];
  headers = [];
  body = [];
}

abbrev pub listing : Request
listing = request_with (codes "GET") (codes "/admin/nodes") (codes "guess") []

-- Two protocols of a node that differ in their password.
abbrev pub other_trojan : Value
other_trojan = obj (
    field (codes "type") (str (codes "trojan"))
      (field (codes "port") (num (natural 443)) (field (codes "password") (str (codes "xy")) end)))

abbrev pub node_with : Value → Node
node_with protocols = record {
  schema_version = natural 1;
  node_id = codes "kr-1";
  name = codes "Seoul";
  region = [];
  host = codes "kr.example.com";
  ip = [];
  protocols = protocols;
  created_at = codes "2024-01-01";
  updated_at = codes "2024-01-01";
}
