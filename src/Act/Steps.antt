-- ===== src/Act/Steps.antt =====
-- What an action does to the tables, whether it returns or throws: rules for each way to build one.
use vpn_register_kit.Prelude.{◌≡◌, refl, Bool, true, false, Option, none, some, Text, if◌then◌else◌}
use vpn_register_kit.Js.Result.{Thrown, Result, ok, err}
use vpn_register_kit.Runtime.{Runtime}
use vpn_register_kit.Db.Tables.{Db}
use vpn_register_kit.Act.{
  World, Act, pure, lift, continue, handle, finish, ◌>>=◌, try_catch, next_call, print, statement,
}

-- Every run of `m` takes the tables along R.
pub record Steps {A : Type 0} (R : Db → Db → Type 0) (m : Act A) : Type 0 where
  pub at : (w : World) → R w.db (m w).1.db

-- The run from one world does.
pub record Moves {A : Type 0} (R : Db → Db → Type 0) (w : World) (m : Act A) : Type 0 where
  pub at : R w.db (m w).1.db

pub record IsPreorder (R : Db → Db → Type 0) : Type 0 where
  pub same : (d : Db) → R d d
  pub chain : {a b c : Db} → R a b → R b c → R a c

module _ {A : Type 0} (R : Db → Db → Type 0) where
  finish_step :
      (w : World) (ran : Option (A × Db)) (d : Db)
      → R d w.db
      → ((a : A) (d' : Db) → ran ≡ some (a, d') → R d d')
      → R d (finish ran w).1.db
  finish_step w none d h moves = h
  finish_step w (some (a, d')) d h moves = moves a d' refl

  failing_step :
      (fails : Bool) (e : Thrown) (w : World) (ran : Option (A × Db)) (d : Db)
      → R d w.db
      → ((a : A) (d' : Db) → ran ≡ some (a, d') → R d d')
      → R d (if fails then (err e, w) else finish ran w).1.db
  failing_step true e w ran d h moves = h
  failing_step false e w ran d h moves = finish_step w ran d h moves

module _ {A : Type 0} {R : Db → Db → Type 0} where
  pub Steps-pure : (a : A) → IsPreorder R → Steps R (pure a)
  Steps-pure a o = record { at = λ w. o.same w.db }

  pub Steps-lift : (r : Result A) → IsPreorder R → Steps R (lift r)
  Steps-lift r o = record { at = λ w. o.same w.db }

  pub Steps-if : (b : Bool) (m n : Act A) → Steps R m → Steps R n → Steps R (if b then m else n)
  Steps-if true m n km kn = km
  Steps-if false m n km kn = kn

  -- A statement, by what it does where it runs.
  pub Steps-statement :
      (rt : Runtime) (run : Db → Option (A × Db))
      → IsPreorder R
      → ((d d' : Db) (a : A) → run d ≡ some (a, d') → R d d')
      → Steps R (statement rt run)
  unfolding statement
  Steps-statement rt run o moves = record {
    at = λ w.
        failing_step R (rt.d1_fails w.calls) _ _ (run w.db) w.db (o.same w.db)
          (λ a d' e. moves w.db d' a e);
  }

  pub handle_step :
      (f : Thrown → Act A) (r : Result A) (w : World) (d : Db)
      → IsPreorder R
      → R d w.db
      → ((e : Thrown) → Steps R (f e))
      → R d (handle f r w).1.db
  handle_step f (ok a) w d o h kf = h
  handle_step f (err e) w d o h kf = o.chain h ((kf e).at w)

  pub Steps-try :
      (m : Act A) (f : Thrown → Act A)
      → IsPreorder R
      → Steps R m
      → ((e : Thrown) → Steps R (f e))
      → Steps R (try_catch m f)
  unfolding try_catch
  Steps-try m f o km kf = record { at = λ w. handle_step f (m w).0 (m w).1 w.db o (km.at w) kf }

pub Steps-print : {R : Db → Db → Type 0} (line : Text) → IsPreorder R → Steps R (print line)
unfolding print
Steps-print line o = record { at = λ w. o.same w.db }

pub Steps-next_call : {R : Db → Db → Type 0} → IsPreorder R → Steps R next_call
unfolding next_call
Steps-next_call o = record { at = λ w. o.same w.db }

module _ {A B : Type 0} {R : Db → Db → Type 0} where
  pub continue_step :
      (f : A → Act B) (r : Result A) (w : World) (d : Db)
      → IsPreorder R
      → R d w.db
      → ((a : A) → r ≡ ok a → Steps R (f a))
      → R d (continue f r w).1.db
  continue_step f (ok a) w d o h k = o.chain h ((k a refl).at w)
  continue_step f (err e) w d o h k = h

  pub Steps-bind :
      (m : Act A) (f : A → Act B)
      → IsPreorder R
      → Steps R m
      → ((a : A) → Steps R (f a))
      → Steps R (m >>= f)
  unfolding ◌>>=◌
  Steps-bind m f o km kf = record {
    at = λ w. continue_step f (m w).0 (m w).1 w.db o (km.at w) (λ a _. kf a);
  }

  -- the rest may use that `r` did not throw
  pub Steps-bind-lift :
      (r : Result A) (f : A → Act B)
      → IsPreorder R
      → ((a : A) → r ≡ ok a → Steps R (f a))
      → Steps R (lift r >>= f)
  unfolding ◌>>=◌
  Steps-bind-lift r f o kf = record { at = λ w. continue_step f r w w.db o (o.same w.db) kf }

pub ruleset step_rules =
    (Steps-pure, Steps-lift, Steps-if, Steps-print, Steps-next_call, Steps-bind, Steps-try)
