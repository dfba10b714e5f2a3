-- ===== src/Act/Returns.antt =====
-- Actions that return from every world, and actions that have returned.
use vpn_register_kit.Prelude.{ℕ, ◌≡◌, refl, ap, ◌∙◌, false, Option, some, Text}
use vpn_register_kit.Js.Result.{Thrown, Result, ok, err}
use vpn_register_kit.Runtime.{Runtime}
use vpn_register_kit.Db.Tables.{Db}
use vpn_register_kit.Act.{
  World, Act, pure, lift, continue, handle, finish, ◌>>=◌, try_catch, next_call, print, statement,
}

-- From every world `m` returns a value of Q.
pub record Returns {A : Type 0} (Q : A → Type 0) (m : Act A) : Type 0 where
  pub at : (w : World) → (a : A) × ((m w).0 ≡ ok a) × Q a

-- No statement finds the database out of reach.
abbrev pub IsHealthy : Runtime → Type 0
IsHealthy rt = (call : ℕ) → rt.d1_fails call ≡ false

module _ {A : Type 0} (Q : A → Type 0) where
  pub Returns-pure : (a : A) → Q a → Returns Q (pure a)
  Returns-pure a q = record { at = λ w. (a, refl, q) }

  finish_returns :
      (ran : Option (A × Db)) (w : World) (a : A) (d : Db)
      → ran ≡ some (a, d)
      → (finish ran w).0 ≡ ok a
  finish_returns ran w a d e = ap (λ o. (finish o w).0) e

  -- A statement that is not refused.
  pub Returns-statement :
      (rt : Runtime) (run : Db → Option (A × Db))
      → IsHealthy rt
      → ((d : Db) → (a : A) × (d' : Db) × (run d ≡ some (a, d')) × Q a)
      → Returns Q (statement rt run)
  unfolding statement
  Returns-statement rt run healthy runs = record {
    at = λ w.
        let (a, d', e, q) = runs w.db in
        (a, rw (healthy w.calls) (finish_returns (run w.db) _ a d' e), q);
  }

pub Returns-next_call : Returns (λ n. Unit) next_call
unfolding next_call
Returns-next_call = record { at = λ w. (w.calls, refl, tt) }

pub Returns-print : (line : Text) → Returns (λ t. Unit) (print line)
unfolding print
Returns-print line = record { at = λ w. (tt, refl, tt) }

-- An action that is caught returns if its handler does.
pub Returns-try :
    {A : Type 0} (m : Act A) (f : Thrown → Act A)
    → ((e : Thrown) → Returns (λ a. Unit) (f e))
    → Returns (λ a. Unit) (try_catch m f)
unfolding try_catch
Returns-try {A} m f caught = record { at = λ w. go (m w).0 (m w).1 }
  where
    go : (r : Result A) (w : World) → (a : A) × ((handle f r w).0 ≡ ok a) × Unit {0}
    go (ok a) w = (a, refl, tt)
    go (err e) w = (caught e).at w

module _ {A B : Type 0} where
  continue_ok :
      (f : A → Act B) (r : Result A) (a : A) (w : World) → r ≡ ok a → continue f r w ≡ f a w
  continue_ok f r a w e = ap (λ x. continue f x w) e

  -- The run of a chain whose first action returned.
  pub bind_run :
      (m : Act A) (f : A → Act B) (w : World) (a : A) → (m w).0 ≡ ok a → (m >>= f) w ≡ f a (m w).1
  unfolding ◌>>=◌
  bind_run m f w a e = continue_ok f (m w).0 a (m w).1 e

  pub Returns-bind :
      (P : A → Type 0) (Q : B → Type 0) (m : Act A) (f : A → Act B)
      → Returns P m
      → ((a : A) → P a → Returns Q (f a))
      → Returns Q (m >>= f)
  Returns-bind P Q m f rm rf = record {
    at = λ w.
        let (a, e, p) = rm.at w in
        let (b, e', q) = (rf a p).at (m w).1 in (b, ap (λ x. x.0) (bind_run m f w a e) ∙ e', q);
  }

  -- An action in front whose value is not used.
  pub Returns-after :
      (Q : B → Type 0) (m : Act A) (f : A → Act B)
      → Returns (λ a. Unit) m
      → ((a : A) → Returns Q (f a))
      → Returns Q (m >>= f)
  Returns-after Q m f rm rf = Returns-bind (λ a. Unit) Q m f rm (λ a _. rf a)

  -- A value in front that is known.
  pub Returns-get :
      (Q : B → Type 0) (r : Result A) (a : A) (f : A → Act B)
      → r ≡ ok a
      → Returns Q (f a)
      → Returns Q (lift r >>= f)
  unfolding ◌>>=◌
  Returns-get Q r a f e rf = record {
    at = λ w. let (b, e', q) = rf.at w in (b, ap (λ x. x.0) (continue_ok f r a w e) ∙ e', q);
  }

  continue_done :
      (f : A → Act B) (r : Result A) (w : World) (b : B)
      → (continue f r w).0 ≡ ok b
      → (a : A) × (r ≡ ok a) × (continue f r w ≡ f a w)
  continue_done f (ok a) w b e = (a, refl, refl)
  continue_done f (err t) w b e = cc

  -- A chain that returned: its first action did, and the rest ran from there.
  pub bind_done :
      (m : Act A) (f : A → Act B) (w : World) (b : B)
      → ((m >>= f) w).0 ≡ ok b
      → (a : A) × ((m w).0 ≡ ok a) × ((m >>= f) w ≡ f a (m w).1)
  unfolding ◌>>=◌
  bind_done m f w b e = continue_done f (m w).0 (m w).1 b e

-- A statement that reads.
pub read_run :
    {A : Type 0} (rt : Runtime) (read : Db → A) (w : World)
    → IsHealthy rt
    → (statement rt (λ db. some (read db, db)) w).0 ≡ ok (read w.db)
unfolding statement
read_run rt read w healthy = rw (healthy w.calls)
