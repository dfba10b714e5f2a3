-- ===== src/Act.antt =====
-- Asynchronous code of the Worker: an action reads and changes the world, and returns or throws.
-- The world has the tables of D1, the number of calls of the runtime so far, and the console.
pub mod Steps
pub mod Performs
pub mod Answers
pub mod Returns
pub mod Spares
use vpn_register_kit.Prelude.{
  ℕ, ◌+◌, ◌≡◌, refl, List, [], ◌∷◌, ◌++◌, Option, none, some, Text, if◌then◌else◌, Bool, true,
  false,
}
use vpn_register_kit.Js.Result.{Thrown, Result, ok, err, fault, database}
use vpn_register_kit.Db.Tables.{Db}
use vpn_register_kit.Runtime.{Runtime}

pub record World : Type 0 where
  pub db : Db
  pub calls : ℕ
  pub console : List Text

abbrev pub Act {ℓ} : Type ℓ → Type ℓ
Act A = World → Result A × World

abbrev pub pure {ℓ} : {A : Type ℓ} → A → Act A
pure a w = (ok a, w)

abbrev pub lift {ℓ} : {A : Type ℓ} → Result A → Act A
lift r w = (r, w)

abbrev pub continue {ℓ κ} :
    {A : Type ℓ} {B : Type κ} → (A → Act B) → Result A → World → Result B × World
continue f (ok a) w = f a w
continue f (err e) w = (err e, w)

infixl 5 ◌>>=◌ ◌>>◌
unfoldable pub ◌>>=◌ {ℓ κ} : {A : Type ℓ} {B : Type κ} → Act A → (A → Act B) → Act B
◌>>=◌ m f w = let (r, w') = m w in continue f r w'

abbrev pub ◌>>◌ {ℓ} : {B : Type ℓ} → Act (Unit {0}) → Act B → Act B
m >> k = m >>= λ _. k

abbrev pub handle {ℓ} : {A : Type ℓ} → (Thrown → Act A) → Result A → World → Result A × World
handle f (ok a) w = (ok a, w)
handle f (err e) w = f e w

-- `try { m } catch (e) { f(e) }`
unfoldable pub try_catch {ℓ} : {A : Type ℓ} → Act A → (Thrown → Act A) → Act A
try_catch m f w = let (r, w') = m w in handle f r w'

-- The number of the next call of the runtime.
unfoldable pub next_call : Act ℕ
next_call w = (ok w.calls, record w { calls = w.calls + 1 })

unfoldable pub print : Text → Act (Unit {0})
print line w = (ok tt, record w { console = w.console ++ line ∷ [] })

abbrev pub finish {ℓ} : {A : Type ℓ} → Option (A × Db) → World → Result A × World
finish none w = (err (fault database), w)
finish (some (a, db)) w = (ok a, record w { db = db })

-- A statement of D1: it is out of reach, it is refused (none), or it has run.
unfoldable pub statement {ℓ} : {A : Type ℓ} → Runtime → (Db → Option (A × Db)) → Act A
statement rt run w =
    let w' = record w { calls = w.calls + 1 } in
    if rt.d1_fails w.calls then (err (fault database), w') else finish (run w.db) w'
