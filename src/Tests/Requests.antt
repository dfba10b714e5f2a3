-- ===== src/Tests/Requests.antt =====
-- Requests of the demo registry.
use vpn_register_kit.Prelude.{◌≡◌, refl, codes, [], ◌∷◌, false}
use vpn_register_kit.Js.Value.{undefined, arr, cons, nil}
use vpn_register_kit.Js.Result.{ok}
use vpn_register_kit.Http.{Response}
use vpn_register_kit.Db.Integrity.{IsSound}
use vpn_register_kit.Db.History.{Remembers, Unchanged}
use vpn_register_kit.Worker.Register.{handle_register}
use vpn_register_kit.Worker.Nodes.{delete_node_from_path}
use vpn_register_kit.Worker.Reply.{json_ok}
use vpn_register_kit.Worker.Route.{fetch}
use vpn_register_kit.Worker.Access.{IsStranger}
use vpn_register_kit.Worker.Status.{Answered, fetch_answers}
use vpn_register_kit.Worker.Outcome.{RegisterRun, handle_register_outcome}
use vpn_register_kit.Worker.Deletion.{PathOutcome, delete_node_from_path_outcome}
use vpn_register_kit.Worker.Safety.{fetch-IsSound, fetch-Remembers, stranger-Unchanged}
use vpn_register_kit.Auth.{require_admin}
use vpn_register_kit.Worker.Reply.{node_summaries}
use vpn_register_kit.Worker.Admin.{create_token}
use vpn_register_kit.Worker.Subscription.{handle_sub}
use vpn_register_kit.Worker.Gate.{Refuses, admin_gate}
use vpn_register_kit.Act.{World}
use vpn_register_kit.Db.Registry.{view, Changes}
use vpn_register_kit.Worker.Runs.{
  no_rows, fresh, after, fetch-Changes, IsRegistry, Reachable-IsRegistry,
}
use vpn_register_kit.Worker.Privacy.{AllShown, node_summaries_hide}
use vpn_register_kit.Worker.Success.{IsTextual}
use vpn_register_kit.Worker.Storage.{IsStored, handle_register_stores}
use vpn_register_kit.Worker.Delivery.{SubRun, handle_sub_delivers}
use vpn_register_kit.Worker.Creation.{Created, create_token_outcome}
use vpn_register_kit.Tests.Demo.{
  demo, secret, start, registration, deletion, intrusion, subscription, listing, register_row,
  subscribe_row, trojan, other_trojan, tokyo, node_with,
}
use vpn_register_kit.Tests.Laws.{demo-IsRuntime}
use vpn_register_kit.Tests.Runs.{runs}

registered : (handle_register demo registration start).0 ≡ ok json_ok
unfolding runs
registered = refl

deleted : (delete_node_from_path demo deletion (codes "/admin/nodes/") start).0 ≡ ok json_ok
unfolding runs
deleted = refl

start-IsSound : IsSound start.db
unfolding runs
start-IsSound = record {
  nodes_keyed = (refl, tt);
  tokens_keyed = (refl, (refl, tt));
  hashes_unique = (refl, (refl, tt));
  kinds_known = (refl, (refl, tt));
  audit_keyed = tt;
}

guesser : IsStranger demo intrusion secret start
unfolding runs
guesser = record { unknown = refl; no_admin = refl }

fetch_answers_example : Answered demo registration secret start
fetch_answers_example = fetch_answers demo registration secret start

handle_register_outcome_example :
    RegisterRun demo registration
      (handle_register demo registration start).0
      start.db.nodes
      (handle_register demo registration start).1.db.nodes
handle_register_outcome_example = handle_register_outcome demo registration start

delete_node_from_path_outcome_example :
    PathOutcome demo deletion
      (codes "/admin/nodes/")
      json_ok
      start.db.nodes
      (delete_node_from_path demo deletion (codes "/admin/nodes/") start).1.db.nodes
delete_node_from_path_outcome_example =
    delete_node_from_path_outcome demo deletion (codes "/admin/nodes/") start json_ok deleted

fetch-IsSound_example : IsSound (fetch demo secret registration start).1.db
fetch-IsSound_example = fetch-IsSound demo secret registration start start-IsSound

fetch-Remembers_example : Remembers start.db (fetch demo secret registration start).1.db
fetch-Remembers_example = fetch-Remembers demo secret registration start

stranger-Unchanged_example : Unchanged start.db (fetch demo secret intrusion start).1.db
stranger-Unchanged_example = stranger-Unchanged demo secret intrusion start guesser

nobody : require_admin listing secret ≡ false
unfolding runs
nobody = refl

admin_gate_example : Refuses start (fetch demo secret listing)
unfolding runs
admin_gate_example = admin_gate demo secret listing start refl nobody

tokyo-IsTextual : IsTextual tokyo
unfolding runs
tokyo-IsTextual = record {
  node_id = codes "jp-1";
  has_node_id = refl;
  name = codes "Tokyo";
  has_name = refl;
  host = codes "jp.example.com";
  has_host = refl;
  region = undefined;
  has_region = refl;
  region_text = [];
  is_region = refl;
  ip = undefined;
  has_ip = refl;
  ip_text = [];
  is_ip = refl;
}

handle_register_stores_example :
    ((handle_register demo registration start).0 ≡ ok json_ok)
    × IsStored tokyo tokyo-IsTextual start.db.nodes
        (handle_register demo registration start).1.db.nodes
unfolding runs
handle_register_stores_example =
    handle_register_stores demo registration start register_row tokyo demo-IsRuntime (λ call. refl)
      refl refl refl refl refl tokyo-IsTextual

handle_sub_delivers_example :
    SubRun demo subscription start.db.nodes (handle_sub demo subscription start).0
unfolding runs
handle_sub_delivers_example =
    handle_sub_delivers demo subscription start subscribe_row (λ call. refl) refl refl refl

created : (r : Response) × ((create_token demo registration (codes "register") start).0 ≡ ok r)
unfolding runs
created = (_, refl)

create_token_outcome_example :
    Created demo registration
      (codes "register")
      created.0
      start
      (create_token demo registration (codes "register") start).1
create_token_outcome_example =
    create_token_outcome demo registration (codes "register") start created.0 created.1

alike :
    AllShown (node_with (arr (cons trojan nil)) ∷ []) (node_with (arr (cons other_trojan nil)) ∷ [])
unfolding runs
alike = (
  record {
    node_id = refl;
    name = refl;
    region = refl;
    host = refl;
    ip = refl;
    updated_at = refl;
    items_a = cons trojan nil;
    items_b = cons other_trojan nil;
    protocols_a = refl;
    protocols_b = refl;
    protocols = (refl, refl, tt);
  },
  tt,
)

node_summaries_hide_example :
    node_summaries (node_with (arr (cons trojan nil)) ∷ [])
    ≡ node_summaries (node_with (arr (cons other_trojan nil)) ∷ [])
node_summaries_hide_example =
    node_summaries_hide (node_with (arr (cons trojan nil)) ∷ [])
      (node_with (arr (cons other_trojan nil)) ∷ []) alike

fetch-Changes_example :
    Changes demo (view start.db) (view (fetch demo secret registration start).1.db)
fetch-Changes_example = fetch-Changes demo secret registration start

abbrev blank : World
blank = record { db = no_rows; calls = 0; console = [] }

Reachable-IsRegistry_example :
    IsRegistry demo (fetch demo secret deletion (fetch demo secret registration blank).1).1.db
Reachable-IsRegistry_example =
    Reachable-IsRegistry demo secret
      (fetch demo secret deletion (fetch demo secret registration blank).1).1
      (after deletion (after registration (fresh 0 [])))
