-- ===== src/Scripts/Deploy/Leads.antt =====
-- What a step of deploy-interactive.js adds to a path of the diagram: rules for each way to build
-- a step.
use vpn_register_kit.Prelude.{
  ℕ, ◌≡◌, refl, sym, ap, Bool, true, false, List, [], ◌∷◌, Option, none, some, Text, is_empty,
  if◌then◌else◌, arith,
}
use mathlib.Core.Path.{subst}
use vpn_register_kit.Scripts.Terminal.{
  Command, Finished, Machine, Session, ran, Ended, done, threw, abandoned, Step, pure, throw,
  continue, ◌>>=◌, print, print_some, question, answer_from, after_command, exited_well, spawn,
}
use vpn_register_kit.Scripts.Wrangler.{ask_required, ask_default, confirm, run, run_capture}
use vpn_register_kit.Scripts.Deploy.Diagram.{
  Stage, stopped, running, Leg, Edge, says, asks, passes, fails, Trace, follow,
}

-- The session is on a path, at a stage of P.
pub record At (P : Stage → Type 0) (w : Session) : Type 0 where
  pub stage : Stage
  pub path : Trace w.events stage
  pub here : P stage

abbrev pub Anywhere : Stage → Type 0
Anywhere s = Unit {0}

abbrev pub Running : Stage → Type 0
Running s = running s ≡ true

-- Where a step that returns has led to Q; one that waits for ever has not failed.
abbrev pub Arrives : {A : Type 0} → (A → Stage → Type 0) → Ended A → Session → Type 0
Arrives Q (done a) w = At (Q a) w
Arrives Q (threw message) w = At Anywhere w
Arrives Q abandoned w = At Running w

-- From every stage of P, m leads to Q.
pub record Leads {A : Type 0} (P : Stage → Type 0) (m : Step A) (Q : A → Stage → Type 0)
    : Type 0 where
  pub at : (w : Session) → At P w → Arrives Q (m w).0 (m w).1

module _ {A : Type 0} where
  pub Leads-pure :
      (P : Stage → Type 0) (a : A) (Q : A → Stage → Type 0)
      → ((s : Stage) → P s → Q a s)
      → Leads P (pure a) Q
  Leads-pure P a Q h = record {
    at = λ w p. record { stage = p.stage; path = p.path; here = h p.stage p.here };
  }

  pub Leads-throw :
      (P : Stage → Type 0) (message : Text) (Q : A → Stage → Type 0) → Leads P (throw message) Q
  Leads-throw P message Q = record {
    at = λ w p. record { stage = p.stage; path = p.path; here = tt };
  }

  pub Leads-if :
      (P : Stage → Type 0) (b : Bool) (m n : Step A) (Q : A → Stage → Type 0)
      → Leads P m Q
      → Leads P n Q
      → Leads P (if b then m else n) Q
  Leads-if P true m n Q hm hn = hm
  Leads-if P false m n Q hm hn = hn

module _ {A B : Type 0} where
  Arrives-continue :
      (R : A → Stage → Type 0) (f : A → Step B) (Q : B → Stage → Type 0) (e : Ended A) (w : Session)
      → Arrives R e w
      → ((a : A) → Leads (R a) (f a) Q)
      → Arrives Q (continue f e w).0 (continue f e w).1
  Arrives-continue R f Q (done a) w h k = (k a).at w h
  Arrives-continue R f Q (threw message) w h k = h
  Arrives-continue R f Q abandoned w h k = h

  pub Leads-bind :
      (P : Stage → Type 0) (m : Step A) (f : A → Step B) (R : A → Stage → Type 0)
      (Q : B → Stage → Type 0)
      → Leads P m R
      → ((a : A) → Leads (R a) (f a) Q)
      → Leads P (m >>= f) Q
  unfolding ◌>>=◌
  Leads-bind P m f R Q hm hf = record {
    at = λ w p. Arrives-continue R f Q (m w).0 (m w).1 (hm.at w p) hf;
  }

-- What says or asks stays at its stage.
abbrev pub Stays : {A : Type 0} → (Stage → Type 0) → Step A → Type 0
Stays P m = Leads P m (λ _. P)

pub print-Stays : (P : Stage → Type 0) (line : Text) → Stays P (print line)
unfolding print
print-Stays P line = record {
  at = λ w p. record { stage = p.stage; path = follow p.path (says line); here = p.here };
}

pub print_some-Stays : (P : Stage → Type 0) (line : Text) → Stays P (print_some line)
print_some-Stays P line =
    Leads-if P (is_empty line) _ _ _ (Leads-pure P tt _ (λ s h. h)) (print-Stays P line)

-- The stages of P have not failed.
abbrev pub Live : (Stage → Type 0) → Type 0
Live P = (s : Stage) → P s → running s ≡ true

answered :
    (P : Stage → Type 0) (lines : List Text) (w : Session)
    → Live P
    → At P w
    → Arrives (λ _. P) (answer_from lines w).0 (answer_from lines w).1
answered P [] w live p = record { stage = p.stage; path = p.path; here = live p.stage p.here }
answered P (line ∷ lines) w live p = record { stage = p.stage; path = p.path; here = p.here }

module _ (P : Stage → Type 0) (live : Live P) where
  pub question-Stays : (prompt : Text) → Stays P (question prompt)
  unfolding question
  question-Stays prompt = record {
    at = λ w p.
        answered P w.answers _ live
          (record { stage = p.stage; path = follow p.path (asks prompt); here = p.here });
  }

  pub ask_required-Stays : (prompt : Text) → Stays P (ask_required prompt)
  unfolding ask_required
  ask_required-Stays prompt =
      Leads-bind P _ _ _ _ (question-Stays _)
        λ line. Leads-if P _ _ _ _ (Leads-throw P _ _) (Leads-pure P _ _ (λ s h. h))

  pub ask_default-Stays : (prompt fallback : Text) → Stays P (ask_default prompt fallback)
  unfolding ask_default
  ask_default-Stays prompt fallback =
      Leads-bind P _ _ _ _ (question-Stays _) λ line. Leads-pure P _ _ (λ s h. h)

  pub confirm-Stays :
      (machine : Machine) (prompt : Text) (default_yes : Bool)
      → Stays P (confirm machine prompt default_yes)
  unfolding confirm
  confirm-Stays machine prompt default_yes =
      Leads-bind P _ _ _ _ (question-Stays _) λ line. Leads-pure P _ _ (λ s h. h)

abbrev pub Reached : Stage → Stage → Type 0
Reached t s = s ≡ t

pub exited_well-some : (status : Option ℕ) → exited_well status ≡ true → status ≡ some 0
exited_well-some none e = absurd (cc)
exited_well-some (some n) e = let zero_ : n ≡ 0 = ground arith in ap some zero_

module _ {A : Type 0} (machine : Machine) (P : Stage → Type 0) (c : Command) (t : Stage)
    (leg : (s : Stage) → P s → Leg s c t) (f : Finished → Step A) (message : Finished → Text)
    (Q : A → Stage → Type 0) where
  finished :
      (b : Bool) (r : Finished) (w : Session)
      → exited_well r.status ≡ b
      → At P w
      → ((r : Finished) → Leads (Reached t) (f r) Q)
      → Arrives Q
          ((if b then f r else throw (message r)) (after_command c r w)).0
          ((if b then f r else throw (message r)) (after_command c r w)).1
  finished true r w e p h = (h r).at (after_command c r w) (record {
    stage = t;
    path = follow p.path (
        subst (λ status. Edge p.stage (ran c status) t) (sym (exited_well-some r.status e))
          (passes (leg p.stage p.here)));
    here = refl;
  })
  finished false r w e p h = record {
    stage = stopped;
    path = follow p.path (fails r.status (leg p.stage p.here) e);
    here = tt;
  }

  -- A command that is checked: it takes its leg of the diagram, or the step throws.
  pub Leads-command :
      ((r : Finished) → Leads (Reached t) (f r) Q)
      → Leads P
          (spawn machine c >>= (λ r. if exited_well r.status then f r else throw (message r)))
          Q
  unfolding spawn ◌>>=◌
  Leads-command h = record {
    at = λ w p. finished (exited_well (machine.spawn w c).status) (machine.spawn w c) w refl p h;
  }

module _ (machine : Machine) (P : Stage → Type 0) (c : Command) (t : Stage)
    (leg : (s : Stage) → P s → Leg s c t) where
  pub run-Leads : Leads P (run machine c) (λ _. Reached t)
  unfolding run
  run-Leads =
      Leads-bind P _ _ _ _ (print-Stays P _)
        λ _. Leads-command machine P c t leg _ _ _ (λ r. Leads-pure _ tt _ (λ s h. h))

  pub run_capture-Leads : Leads P (run_capture machine c) (λ _. Reached t)
  unfolding run_capture
  run_capture-Leads =
      Leads-bind P _ _ _ _ (print-Stays P _)
        λ _. Leads-command machine P c t leg _ _ _ (λ r. Leads-pure _ _ _ (λ s h. h))

-- A weaker place to start from, and a weaker one to arrive at.
module _ {A : Type 0} (m : Step A) where
  weakened :
      (Q R : A → Stage → Type 0) (e : Ended A) (w : Session)
      → ((a : A) (s : Stage) → Q a s → R a s)
      → Arrives Q e w
      → Arrives R e w
  weakened Q R (done a) w h p = record { stage = p.stage; path = p.path; here = h a p.stage p.here }
  weakened Q R (threw message) w h p = p
  weakened Q R abandoned w h p = p

  pub Leads-mono :
      (P P' : Stage → Type 0) (Q Q' : A → Stage → Type 0)
      → ((s : Stage) → P' s → P s)
      → ((a : A) (s : Stage) → Q a s → Q' a s)
      → Leads P m Q
      → Leads P' m Q'
  Leads-mono P P' Q Q' before behind h = record {
    at = λ w p.
        weakened Q Q' (m w).0 (m w).1 behind
          (h.at w (record { stage = p.stage; path = p.path; here = before p.stage p.here }));
  }
