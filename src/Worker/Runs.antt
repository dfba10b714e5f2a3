-- ===== src/Worker/Runs.antt =====
-- What a sequence of requests makes of an empty registry.
use vpn_register_kit.Prelude.{ℕ, List, [], Option, Text}
use vpn_register_kit.Runtime.{Runtime}
use vpn_register_kit.Http.{Request}
use vpn_register_kit.Act.{World}
use vpn_register_kit.Db.Tables.{Db}
use vpn_register_kit.Db.Integrity.{IsSound}
use vpn_register_kit.Db.Stored.{AllStored, AllStored-frame}
use vpn_register_kit.Db.Registry.{view, Changes, unchanged, Changes-trans, Changes-frame}
use vpn_register_kit.Worker.Route.{fetch}
use vpn_register_kit.Worker.Writes.{fetch-Steps}
use vpn_register_kit.Worker.Safety.{fetch-IsSound}

abbrev pub no_rows : Db
no_rows = record { nodes = []; tokens = []; audit_logs = [] }

-- The worlds that requests make of empty tables, one request after the other.
pub data Reachable (rt : Runtime) (admin_token : Option Text) : World → Type 0 where
  fresh :
      (calls : ℕ) (console : List Text)
      → Reachable rt admin_token (record { db = no_rows; calls = calls; console = console })
  after :
      {w : World} (request : Request)
      → Reachable rt admin_token w
      → Reachable rt admin_token (fetch rt admin_token request w).1

-- A request, however it ends, changes the registry of maps only by changes of the specification: a
-- stamp, a new token of a known kind under an unknown hash, an accepted registration, a removal.
pub fetch-Changes :
    (rt : Runtime) (admin_token : Option Text) (request : Request) (w : World)
    → Changes rt (view w.db) (view (fetch rt admin_token request w).1.db)
fetch-Changes rt admin_token request w =
    (fetch-Steps rt request (Changes-frame rt) admin_token).at w

-- What is true of a world that is reached from empty tables.
pub record IsRegistry (rt : Runtime) (db : Db) : Type 0 where
  pub sound : IsSound db
  pub stored : AllStored rt db
  pub history : Changes rt (view no_rows) (view db)

-- After any sequence of requests on empty tables, the keys are distinct and the kinds known, every
-- row of the node table is that of a body which validateNode accepts, but for the date of its
-- creation, and the registry of maps has come about by changes of the specification.
pub Reachable-IsRegistry :
    (rt : Runtime) (admin_token : Option Text) (w : World)
    → Reachable rt admin_token w
    → IsRegistry rt w.db
Reachable-IsRegistry rt admin_token w (fresh calls console) = record {
  sound = record {
    nodes_keyed = tt;
    tokens_keyed = tt;
    hashes_unique = tt;
    kinds_known = tt;
    audit_keyed = tt;
  };
  stored = tt;
  history = unchanged;
}
Reachable-IsRegistry rt admin_token _ (after {w = w} request r) =
    let before = Reachable-IsRegistry rt admin_token w r in
    record {
      sound = fetch-IsSound rt admin_token request w before.sound;
      stored = (fetch-Steps rt request (AllStored-frame rt) admin_token).at w before.stored;
      history = Changes-trans before.history (fetch-Changes rt admin_token request w);
    }
