-- ===== src/Worker/Safety.antt =====
-- What every request keeps, and what no request can do without its credentials.
use vpn_register_kit.Prelude.{Option, Text}
use vpn_register_kit.Runtime.{Runtime}
use vpn_register_kit.Http.{Request}
use vpn_register_kit.Act.{World}
use vpn_register_kit.Db.Integrity.{IsSound, IsSound-frame}
use vpn_register_kit.Db.History.{Remembers, Remembers-frame, Unchanged, Unchanged-quiet}
use vpn_register_kit.Worker.Access.{IsStranger, fetch-Kept}
use vpn_register_kit.Worker.Route.{fetch}
use vpn_register_kit.Worker.Writes.{fetch-Steps}

-- From sound tables every request, whatever it asks and however it ends, leads to sound tables.
pub fetch-IsSound :
    (rt : Runtime) (admin_token : Option Text) (request : Request) (w : World)
    → IsSound w.db
    → IsSound (fetch rt admin_token request w).1.db
fetch-IsSound rt admin_token request w =
    (fetch-Steps rt request (IsSound-frame rt) admin_token).at w

-- No request removes or rewrites a row of the audit log, and none removes a token or changes it but
-- for the stamp of its last use: both tables only grow at the end.
pub fetch-Remembers :
    (rt : Runtime) (admin_token : Option Text) (request : Request) (w : World)
    → Remembers w.db (fetch rt admin_token request w).1.db
fetch-Remembers rt admin_token request w =
    (fetch-Steps rt request (Remembers-frame rt) admin_token).at w

-- A request that bears neither an enabled register token nor the admin secret leaves the nodes and
-- the tokens as they are, but for stamps of last use, and adds at most rows to the audit log.
pub stranger-Unchanged :
    (rt : Runtime) (admin_token : Option Text) (request : Request) (w : World)
    → IsStranger rt request admin_token w
    → Unchanged w.db (fetch rt admin_token request w).1.db
stranger-Unchanged rt admin_token request w stranger =
    fetch-Kept rt request admin_token w stranger Unchanged-quiet
