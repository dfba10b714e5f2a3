-- ===== src/Act/Performs.antt =====
-- What an action that returns has done to the node table: rules for each way to build one.
use vpn_register_kit.Prelude.{◌≡◌, refl, Bool, true, false, List, Option, none, some, if◌then◌else◌}
use mathlib.Core.Path.{subst, ap₂}
use vpn_register_kit.Js.Result.{Thrown, Result, ok, err}
use vpn_register_kit.Runtime.{Runtime}
use vpn_register_kit.Db.Tables.{Db, NodeRow}
use vpn_register_kit.Act.{World, Act, pure, lift, continue, finish, ◌>>=◌, statement}
use vpn_register_kit.Act.Steps.{Steps}

abbrev pub SameNodes : Db → Db → Type 0
SameNodes a b = b.nodes ≡ a.nodes

-- Where `m` returns a, the nodes were taken along Q a.
pub record Performs {A : Type 0} (Q : A → List NodeRow → List NodeRow → Type 0) (m : Act A)
    : Type 0 where
  pub at : (w : World) (a : A) → (m w).0 ≡ ok a → Q a w.db.nodes (m w).1.db.nodes

module _ {A : Type 0} (Q : A → List NodeRow → List NodeRow → Type 0) where
  pub Performs-pure : (a : A) → ((rows : List NodeRow) → Q a rows rows) → Performs Q (pure a)
  Performs-pure a q = record {
    at = λ w b e. subst (λ x. Q x w.db.nodes w.db.nodes) (unwrap a b e) (q _);
  }
    where
      unwrap : (a b : A) → ◌≡◌ {A = Result A} (ok a) (ok b) → a ≡ b
      unwrap a b e = cc

  pub Performs-if :
      (b : Bool) (m n : Act A) → Performs Q m → Performs Q n → Performs Q (if b then m else n)
  Performs-if true m n pm pn = pm
  Performs-if false m n pm pn = pn

  failing :
      (fails : Bool) (t : Thrown) (v w : World) (ran : Option (A × Db)) (a : A)
      → ((d : Db) → ran ≡ some (a, d) → Q a v.db.nodes d.nodes)
      → (if fails then (err t, w) else finish ran w).0 ≡ ok a
      → Q a v.db.nodes (if fails then (err t, w) else finish ran w).1.db.nodes
  failing true t v w ran a h e = cc
  failing false t v w none a h e = cc
  failing false t v w (some (b, d)) a h e =
      let same : b ≡ a = cc in h d (ap₂ (λ x y. some (x, y)) same refl)

  pub Performs-statement :
      (rt : Runtime) (run : Db → Option (A × Db))
      → ((d d' : Db) (a : A) → run d ≡ some (a, d') → Q a d.nodes d'.nodes)
      → Performs Q (statement rt run)
  unfolding statement
  Performs-statement rt run h = record {
    at = λ w a e. failing (rt.d1_fails w.calls) _ w _ (run w.db) a (λ d e. h w.db d a e) e;
  }

pub Performs-mono :
    {A : Type 0} (P Q : A → List NodeRow → List NodeRow → Type 0) (m : Act A)
    → ((a : A) (rows rows' : List NodeRow) → P a rows rows' → Q a rows rows')
    → Performs P m
    → Performs Q m
Performs-mono P Q m h p = record { at = λ w a e. h a _ _ (p.at w a e) }

module _ {A B : Type 0} (Q : B → List NodeRow → List NodeRow → Type 0) where
  before :
      (f : A → Act B) (r : Result A) (w : World) (rows : List NodeRow) (b : B)
      → w.db.nodes ≡ rows
      → ((a : A) → r ≡ ok a → Performs Q (f a))
      → (continue f r w).0 ≡ ok b
      → Q b rows (continue f r w).1.db.nodes
  before f (ok a) w rows b same k e =
      subst (λ rs. Q b rs (f a w).1.db.nodes) same ((k a refl).at w b e)
  before f (err t) w rows b same k e = cc

  -- `m` leaves the nodes alone, and the rest performs.
  pub Performs-after :
      (m : Act A) (f : A → Act B)
      → Steps SameNodes m
      → ((a : A) → Performs Q (f a))
      → Performs Q (m >>= f)
  unfolding ◌>>=◌
  Performs-after m f km kf = record {
    at = λ w b e. before f (m w).0 (m w).1 w.db.nodes b (km.at w) (λ a _. kf a) e;
  }

  pub Performs-lift :
      (r : Result A) (f : A → Act B)
      → ((a : A) → r ≡ ok a → Performs Q (f a))
      → Performs Q (lift r >>= f)
  unfolding ◌>>=◌
  Performs-lift r f kf = record { at = λ w b e. before f r w w.db.nodes b refl kf e }

  then_quiet :
      (P : A → List NodeRow → List NodeRow → Type 0) (f : A → Act B) (r : Result A) (w : World)
      (rows : List NodeRow) (b : B)
      → ((a : A) → r ≡ ok a → P a rows w.db.nodes)
      → ((a : A) → Performs (λ b rs rs'. (ns : List NodeRow) → P a ns rs → Q b ns rs') (f a))
      → (continue f r w).0 ≡ ok b
      → Q b rows (continue f r w).1.db.nodes
  then_quiet P f (ok a) w rows b h k e = (k a).at w b e rows (h a refl)
  then_quiet P f (err t) w rows b h k e = cc

  -- `m` performs P, and the rest takes P to Q.
  pub Performs-bind :
      (P : A → List NodeRow → List NodeRow → Type 0) (m : Act A) (f : A → Act B)
      → Performs P m
      → ((a : A) → Performs (λ b rs rs'. (ns : List NodeRow) → P a ns rs → Q b ns rs') (f a))
      → Performs Q (m >>= f)
  unfolding ◌>>=◌
  Performs-bind P m f pm pf = record {
    at = λ w b e. then_quiet P f (m w).0 (m w).1 w.db.nodes b (pm.at w) pf e;
  }
