-- ===== src/Db/Lookup.antt =====
-- What `findEnabledToken` finds.
use vpn_register_kit.Prelude.{◌≡◌, false, Option, none, some, Text, arith, is_empty, ◌+◌}
use vpn_register_kit.Js.Result.{ok}
use vpn_register_kit.Auth.{hash_token}
use vpn_register_kit.Runtime.{Runtime}
use vpn_register_kit.Act.{World, ◌>>=◌, statement, next_call}
use vpn_register_kit.Db.Tables.{TokenRow, select_token}
use vpn_register_kit.Db.{now_iso, touch_found, find_enabled_token}

-- An action that returns `some row` only where the row is the given one.
touch_found-row :
    (rt : Runtime) (token_hash kind : Text) (found : Option TokenRow) (row : TokenRow) (w : World)
    → (touch_found rt token_hash kind found w).0 ≡ ok (some row)
    → found ≡ some row
unfolding touch_found now_iso ◌>>=◌ statement next_call
touch_found-row rt token_hash kind none row w h = ground arith
touch_found-row rt token_hash kind (some r) row w h = ground arith

-- A found token is one that the table selects; an empty token is never found.
pub find_enabled_token-found :
    (rt : Runtime) (kind token : Text) (row : TokenRow) (w : World)
    → (find_enabled_token rt kind token w).0 ≡ ok (some row)
    → (select_token (hash_token rt token) kind w.db.tokens ≡ some row) × (is_empty token ≡ false)
unfolding find_enabled_token ◌>>=◌ statement
find_enabled_token-found rt kind token row w h = ground (
  arith,
  touch_found-row rt (hash_token rt token) kind
      (select_token (hash_token rt token) kind w.db.tokens) row (record w { calls = w.calls + 1 }),
)
