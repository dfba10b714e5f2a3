-- ===== src/Scripts/Deploy/Keeps.antt =====
-- Steps of deploy-interactive.js that leave wrangler.toml alone.
use vpn_register_kit.Prelude.{◌≡◌, refl, ◌∙◌, Bool, true, false, List, [], ◌∷◌, Text, if◌then◌else◌}
use vpn_register_kit.Scripts.Terminal.{
  Command, Machine, Session, Ended, done, threw, abandoned, Step, pure, throw, continue, ◌>>=◌,
  print, question, answer_from, spawn,
}
use vpn_register_kit.Scripts.Wrangler.{ask_required, ask_default, confirm, run_capture}
use vpn_register_kit.Scripts.Deploy.{id_from, choose_database}

pub record Keeps {A : Type 0} (m : Step A) : Type 0 where
  pub at : (w : Session) → (m w).1.wrangler_toml ≡ w.wrangler_toml

module _ {A : Type 0} where
  Keeps-pure : (a : A) → Keeps (pure a)
  Keeps-pure a = record { at = λ w. refl }

  Keeps-throw : (message : Text) → Keeps {A = A} (throw message)
  Keeps-throw message = record { at = λ w. refl }

  Keeps-if : (b : Bool) (m n : Step A) → Keeps m → Keeps n → Keeps (if b then m else n)
  Keeps-if true m n hm hn = hm
  Keeps-if false m n hm hn = hn

module _ {A B : Type 0} where
  kept :
      (f : A → Step B) (e : Ended A) (w : Session)
      → ((a : A) → Keeps (f a))
      → (continue f e w).1.wrangler_toml ≡ w.wrangler_toml
  kept f (done a) w h = (h a).at w
  kept f (threw message) w h = refl
  kept f abandoned w h = refl

  Keeps-bind : (m : Step A) (f : A → Step B) → Keeps m → ((a : A) → Keeps (f a)) → Keeps (m >>= f)
  unfolding ◌>>=◌
  Keeps-bind m f hm hf = record { at = λ w. kept f (m w).0 (m w).1 hf ∙ hm.at w }

Keeps-print : (line : Text) → Keeps (print line)
unfolding print
Keeps-print line = record { at = λ w. refl }

answered :
    (lines : List Text) (w : Session) → (answer_from lines w).1.wrangler_toml ≡ w.wrangler_toml
answered [] w = refl
answered (line ∷ lines) w = refl

Keeps-question : (prompt : Text) → Keeps (question prompt)
unfolding question
Keeps-question prompt = record { at = λ w. answered w.answers _ }

-- The commands leave the file alone.
pub record IsTidy (machine : Machine) : Type 0 where
  pub untouched : (w : Session) (c : Command) → (machine.spawn w c).wrangler_toml ≡ w.wrangler_toml

module _ (machine : Machine) where
  pub confirm-Keeps :
      (prompt : Text) (default_yes : Bool) → Keeps (confirm machine prompt default_yes)
  unfolding confirm
  confirm-Keeps prompt default_yes = Keeps-bind _ _ (Keeps-question _) λ line. Keeps-pure _

  ask_required-Keeps : (prompt : Text) → Keeps (ask_required prompt)
  unfolding ask_required
  ask_required-Keeps prompt =
      Keeps-bind _ _ (Keeps-question _) λ line. Keeps-if _ _ _ (Keeps-throw _) (Keeps-pure _)

  ask_default-Keeps : (prompt fallback : Text) → Keeps (ask_default prompt fallback)
  unfolding ask_default
  ask_default-Keeps prompt fallback = Keeps-bind _ _ (Keeps-question _) λ line. Keeps-pure _

  id_from-Keeps : (output : Text) → Keeps (id_from machine output)
  unfolding id_from
  id_from-Keeps output = Keeps-if _ _ _ (ask_required-Keeps _) (Keeps-pure _)

  Keeps-spawn : IsTidy machine → (c : Command) → Keeps (spawn machine c)
  unfolding spawn
  Keeps-spawn tidy c = record { at = λ w. tidy.untouched w c }

  run_capture-Keeps : IsTidy machine → (c : Command) → Keeps (run_capture machine c)
  unfolding run_capture
  run_capture-Keeps tidy c =
      Keeps-bind _ _ (Keeps-print _)
        λ _. Keeps-bind _ _ (Keeps-spawn tidy c) λ f. Keeps-if _ _ _ (Keeps-pure _) (Keeps-throw _)

  pub choose_database-Keeps :
      IsTidy machine → (name : Text) (create : Bool) → Keeps (choose_database machine name create)
  unfolding choose_database
  choose_database-Keeps tidy name true = Keeps-bind _ _ (run_capture-Keeps tidy _) λ output.
      Keeps-bind _ _ (Keeps-print _) λ _. Keeps-bind _ _ (id_from-Keeps output) λ id. Keeps-pure _
  choose_database-Keeps tidy name false =
      Keeps-bind _ _ (ask_default-Keeps _ _)
        λ chosen. Keeps-bind _ _ (ask_required-Keeps _) λ id. Keeps-pure _

-- A chain that has returned: so has its first part, and the rest from there.
module _ {A B : Type 0} where
  went :
      (f : A → Step B) (e : Ended A) (w : Session) (b : B)
      → (continue f e w).0 ≡ done b
      → (a : A) × (e ≡ done a) × (continue f e w ≡ f a w)
  went f (done a) w b h = (a, refl, refl)
  went f (threw message) w b h = absurd (cc)
  went f abandoned w b h = absurd (cc)

  pub >>=-eq-done :
      (m : Step A) (f : A → Step B) (w : Session) (b : B)
      → ((m >>= f) w).0 ≡ done b
      → (a : A) × ((m w).0 ≡ done a) × ((m >>= f) w ≡ f a (m w).1)
  unfolding ◌>>=◌
  >>=-eq-done m f w b h = went f (m w).0 (m w).1 b h
