-- ===== src/Tests/Clients.antt =====
-- The clients of the administration, against a server that answers every call.
use vpn_register_kit.Prelude.{
  ◌≡◌, refl, List, [], ◌∷◌, Option, none, some, Text, codes, arith, map, inr, all, ltb, not, true,
  if◌then◌else◌,
}
use vpn_register_kit.Js.Value.{Value, str, num, arr, obj, nil, cons, end, field, Items}
use vpn_register_kit.Js.Result.{Thrown, Result, ok}
use vpn_register_kit.Validators.Patterns.{IsNodeId, node_id_pattern_iff}
use vpn_register_kit.Scripts.{Environment, Call, Reply, arg_value, node_path, delete_node_script}
use vpn_register_kit.Scripts.Requests.{Answers}
use vpn_register_kit.Scripts.Paths.{DeleteRun, delete_node_script_lem}
use vpn_register_kit.Js.Number.{natural}
use vpn_register_kit.Js.Regex.{test}
use vpn_register_kit.Js.Uri.{encode_uri_component}
use vpn_register_kit.Http.{Request, json, text}
use vpn_register_kit.Act.{pure}
use vpn_register_kit.Validators.{node_id_pattern}
use vpn_register_kit.Worker.Nodes.{delete_valid, delete_node_from_path}
use vpn_register_kit.Scripts.Remote.{delete_node_from_path-node_path}
use vpn_register_kit.Db.Rows.{Node, TokenInfo}
use vpn_register_kit.Worker.Reply.{node_summaries}
use vpn_register_kit.Worker.Admin.{create_payload}
use vpn_register_kit.Scripts.Commands.{
  kind_body, list_tokens_script, list_nodes_script, create_token_script,
}
use vpn_register_kit.Scripts.Commands.Tokens.{token_text, token_list, list_tokens_script_lem}
use vpn_register_kit.Scripts.Commands.Nodes.{
  IsListing, Listing, node_text, node_list, list_nodes_script_lem,
}
use vpn_register_kit.Scripts.Commands.Created.{created_text, create_token_script_lem}
use vpn_register_kit.Tests.Demo.{demo, subscription, request_with, start}
use vpn_register_kit.Tests.Runs.{runs}

abbrev admin_env : Environment
admin_env = record {
  registry_url = some (codes "https://vpn.example.com/");
  admin_token = some (codes "secret");
}

abbrev delete_args : List Text
delete_args = codes "node" ∷ codes "delete-node.js" ∷ codes "--id" ∷ codes "kr-1" ∷ []

abbrev done_reply : Reply
done_reply = record { status = 200; text = codes "{}" }

abbrev always : Call → Result Reply
always call = ok done_reply

abbrev no_json : Text → Option Value
no_json t = none

abbrev failure : Thrown → Text
failure e = codes "failed"

valid_id : IsNodeId (codes "kr-1")
unfolding runs
valid_id = (node_id_pattern_iff (codes "kr-1")).0 refl

delete_node_script_lem_example :
    DeleteRun always admin_env
      (codes "kr-1")
      (delete_node_script no_json always failure admin_env delete_args)
unfolding runs arg_value
delete_node_script_lem_example =
    delete_node_script_lem no_json always failure admin_env delete_args (codes "kr-1") refl valid_id

-- A server that answers with one body, which reads as one value.
abbrev replying : Value → Reply
replying v = record { status = 200; text = (json v 200).body }

abbrev served : Value → Call → Result Reply
served v call = ok (replying v)

abbrev reads : Value → Text → Option Value
reads v t = some v

abbrev Gets : Value → Text → Text → Option Text → Type 0
Gets v path method body = Answers (served v) admin_env path method body (replying v)

served_answers : (v : Value) (path method : Text) (body : Option Text) → Gets v path method body
unfolding runs
served_answers v path method body = record {
  url = codes "https://vpn.example.com/";
  has_url = refl;
  url_given = refl;
  token = codes "secret";
  has_token = refl;
  token_given = refl;
  answered = refl;
  low = omega arith;
  high = omega arith;
}

abbrev two_tokens : List TokenInfo
two_tokens =
    record {
      id = codes "1";
      kind = codes "register";
      token_hint = codes "...c0de";
      enabled = 1;
      created_at = codes "2026-07-01T00:00:00.000Z";
      last_used_at = none;
    }
    ∷ record {
      id = codes "2";
      kind = codes "subscribe";
      token_hint = codes "...beef";
      enabled = 0;
      created_at = codes "2026-07-02T00:00:00.000Z";
      last_used_at = some (codes "2026-07-03T00:00:00.000Z");
    }
    ∷ []

list_tokens_script_lem_example :
    list_tokens_script
      (reads (token_list two_tokens))
      (served (token_list two_tokens))
      failure
      admin_env
    ≡ record { lines = codes "Tokens:" ∷ map token_text two_tokens; exit_code = 0 }
list_tokens_script_lem_example =
    list_tokens_script_lem (reads (token_list two_tokens)) (served (token_list two_tokens)) failure
      admin_env (replying (token_list two_tokens)) two_tokens
      (served_answers (token_list two_tokens) (codes "/admin/tokens") (codes "GET") none) refl refl

abbrev kr_protocol : Value
kr_protocol =
    obj (field (codes "type") (str (codes "trojan")) (field (codes "port") (num (natural 443)) end))

abbrev kr_node : Node
kr_node = record {
  schema_version = natural 1;
  node_id = codes "kr-1";
  name = codes "Seoul";
  region = codes "kr";
  host = codes "kr.example.com";
  ip = [];
  protocols = arr (cons kr_protocol nil);
  created_at = codes "2026-07-01T00:00:00.000Z";
  updated_at = codes "2026-07-02T00:00:00.000Z";
}

abbrev kr_items : Items
kr_items =
    cons
      (obj (
        field (codes "node_id") (str (codes "kr-1")) (
          field (codes "name") (str (codes "Seoul")) (
            field (codes "region") (str (codes "kr")) (
              field (codes "host") (str (codes "kr.example.com")) (
                field (codes "ip") (str []) (
                  field (codes "protocols") (arr (cons kr_protocol nil))
                    (field (codes "updated_at") (str (codes "2026-07-02T00:00:00.000Z")) end))))))))
      nil

kr_summaries : node_summaries (kr_node ∷ []) ≡ ok kr_items
unfolding runs
kr_summaries = refl

abbrev kr_listing : Listing
kr_listing = record {
  node = kr_node;
  protocols = cons kr_protocol nil;
  ports = (codes "trojan", natural 443) ∷ [];
}

kr_IsListing : IsListing kr_listing
unfolding runs
kr_IsListing = record { is_list = refl; has_ports = (refl, refl, tt) }

list_nodes_script_lem_example :
    list_nodes_script (reads (node_list kr_items)) (served (node_list kr_items)) failure admin_env
    ≡ record { lines = codes "Registered nodes:" ∷ node_text kr_listing ∷ []; exit_code = 0 }
list_nodes_script_lem_example =
    list_nodes_script_lem (reads (node_list kr_items)) (served (node_list kr_items)) failure
      admin_env (replying (node_list kr_items)) (kr_listing ∷ []) kr_items (kr_IsListing, tt)
      kr_summaries (served_answers (node_list kr_items) (codes "/admin/nodes") (codes "GET") none)
      refl refl

-- what list-nodes.js prints for the node
kr_line :
    node_text kr_listing
    ≡ codes
        "- kr-1             Seoul            kr     kr.example.com                   trojan:443 updated=2026-07-02T00:00:00.000Z"
unfolding runs node_text
kr_line = refl

abbrev payload : Value
payload = create_payload demo subscription (codes "3") (codes "subscribe") (codes "c0ffee")

abbrev create_args : List Text
create_args = codes "node" ∷ codes "create-token.js" ∷ []

no_kind : arg_value (codes "--kind") (codes "subscribe") create_args ≡ codes "subscribe"
unfolding runs arg_value
no_kind = refl

create_token_script_lem_example :
    create_token_script (reads payload) (served payload) failure admin_env create_args ≡ record {
      lines = created_text subscription.origin (codes "subscribe") (codes "c0ffee");
      exit_code = 0;
    }
create_token_script_lem_example =
    create_token_script_lem (reads payload) (served payload) failure admin_env (replying payload)
      demo subscription (codes "3") (codes "c0ffee") create_args (codes "subscribe") no_kind
      (inr refl)
      (served_answers payload (codes "/admin/tokens/create") (codes "POST")
        (some (kind_body (codes "subscribe"))))
      refl refl

abbrev spaced_request : Request
spaced_request = request_with (codes "DELETE") (codes "/admin/nodes/kr%201") (codes "secret") []

spaced_path : node_path (codes "kr 1") ≡ ok spaced_request.pathname
unfolding runs node_path encode_uri_component
spaced_path = refl

few_units : all (λ c. ltb c 0x10000) (codes "kr 1") ≡ true
unfolding runs
few_units = refl

delete_node_from_path-node_path_example :
    delete_node_from_path demo spaced_request (codes "/admin/nodes/") start
    ≡ (if not (test node_id_pattern (codes "kr 1"))
          then pure (text (codes "invalid node_id") 400)
          else delete_valid demo spaced_request (codes "kr 1"))
        start
delete_node_from_path-node_path_example =
    delete_node_from_path-node_path demo spaced_request (codes "kr 1") start few_units spaced_path
