-- ===== src/Act/Spares.antt =====
-- What an action that throws has done to the node table: nothing, by rules for each way to build one.
use vpn_register_kit.Prelude.{◌≡◌, refl, ◌∙◌, Bool, true, false, Option, none, some, if◌then◌else◌}
use vpn_register_kit.Js.Result.{Thrown, Result, ok, err}
use vpn_register_kit.Runtime.{Runtime}
use vpn_register_kit.Db.Tables.{Db}
use vpn_register_kit.Act.{World, Act, lift, continue, finish, ◌>>=◌, statement}
use vpn_register_kit.Act.Steps.{Steps}
use vpn_register_kit.Act.Performs.{SameNodes}
use vpn_register_kit.Act.Returns.{Returns}

-- Where `m` throws, the nodes are as they were.
pub record Spares {A : Type 0} (m : Act A) : Type 0 where
  pub at : (w : World) (e : Thrown) → (m w).0 ≡ err e → SameNodes w.db (m w).1.db

module _ {A : Type 0} where
  -- An action that leaves the nodes alone.
  pub Spares-quiet : (m : Act A) → Steps SameNodes m → Spares m
  Spares-quiet m km = record { at = λ w e h. km.at w }

  pub Spares-if : (b : Bool) (m n : Act A) → Spares m → Spares n → Spares (if b then m else n)
  Spares-if true m n pm pn = pm
  Spares-if false m n pm pn = pn

  failing :
      (fails : Bool) (t e : Thrown) (d : Db) (w : World) (ran : Option (A × Db))
      → SameNodes d w.db
      → (if fails then (err t, w) else finish ran w).0 ≡ err e
      → SameNodes d (if fails then (err t, w) else finish ran w).1.db
  failing true t e d w ran h thrown = h
  failing false t e d w none h thrown = h
  failing false t e d w (some (a, d')) h thrown = absurd (cc)

  -- A statement that is refused, or that does not reach the database, changes nothing.
  pub Spares-statement : (rt : Runtime) (run : Db → Option (A × Db)) → Spares (statement rt run)
  unfolding statement
  Spares-statement rt run = record {
    at = λ w e h. failing (rt.d1_fails w.calls) _ e w.db _ (run w.db) refl h;
  }

module _ {A B : Type 0} where
  then-Spares :
      (f : A → Act B) (r : Result A) (d : Db) (w : World) (e : Thrown)
      → SameNodes d w.db
      → ((a : A) → r ≡ ok a → Spares (f a))
      → (continue f r w).0 ≡ err e
      → SameNodes d (continue f r w).1.db
  then-Spares f (ok a) d w e same k h = (k a refl).at w e h ∙ same
  then-Spares f (err t) d w e same k h = same

  -- `m` leaves the nodes alone, and the rest spares them.
  pub Spares-after :
      (m : Act A) (f : A → Act B) → Steps SameNodes m → ((a : A) → Spares (f a)) → Spares (m >>= f)
  unfolding ◌>>=◌
  Spares-after m f km kf = record {
    at = λ w e h. then-Spares f (m w).0 w.db (m w).1 e (km.at w) (λ a _. kf a) h;
  }

  pub Spares-lift :
      (r : Result A) (f : A → Act B) → ((a : A) → r ≡ ok a → Spares (f a)) → Spares (lift r >>= f)
  unfolding ◌>>=◌
  Spares-lift r f kf = record { at = λ w e h. then-Spares f r w.db w e refl kf h }

  then_returned :
      (Q : B → Type 0) (f : A → Act B) (r : Result A) (d : Db) (w : World) (e : Thrown)
      → ((t : Thrown) → r ≡ err t → SameNodes d w.db)
      → ((a : A) → Returns Q (f a))
      → (continue f r w).0 ≡ err e
      → SameNodes d (continue f r w).1.db
  then_returned Q f (ok a) d w e thrown k h = let (b, returned, _) = (k a).at w in absurd (cc)
  then_returned Q f (err t) d w e thrown k h = thrown t refl

  -- `m` spares the nodes, and what follows it never throws, whatever D1 does.
  pub Spares-bind :
      (Q : B → Type 0) (m : Act A) (f : A → Act B)
      → Spares m
      → ((a : A) → Returns Q (f a))
      → Spares (m >>= f)
  unfolding ◌>>=◌
  Spares-bind Q m f pm rf = record {
    at = λ w e h. then_returned Q f (m w).0 w.db (m w).1 e (pm.at w) rf h;
  }
