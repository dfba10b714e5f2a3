-- ===== src/Scripts/Deploy/Diagram.antt =====
-- The order in which a deployment by deploy-interactive.js may run its commands, as a diagram of
-- stages, and what a path of the diagram has passed.
use vpn_register_kit.Prelude.{
  ℕ, zero, ◌≡◌, ◌≤◌, Bool, true, false, List, [], ◌∷◌, Option, some, Text, codes, text_eq, ◌&&◌,
}
use vpn_register_kit.Scripts.Terminal.{Command, Event, printed, asked, ran, wrote, exited_well}
use vpn_register_kit.Scripts.Wrangler.{
  version_command, install_command, whoami_command, login_command, create_command, migrate_command,
  deploy_command, put_secret, token_command,
}

pub data Stage : Type 0 where
  fresh tooled installed : Stage
  -- wrangler is not signed in, or could not say; `login` has run
  signed_out logged_in : Stage
  signed_in created bound : Stage
  secret_stored migrated deployed : Stage
  registered subscribed : Stage
  -- a command has failed
  stopped : Stage

abbrev pub running : Stage → Bool
running stopped = false
running _ = true

-- The stages from which the later steps, all of which may be declined, go on; 0 for the others.
abbrev pub rank : Stage → ℕ
rank signed_in = 1
rank bound = 2
rank secret_stored = 3
rank migrated = 4
rank deployed = 5
rank _ = 0

pub record IsReady (n : ℕ) (s : Stage) : Type 0 where
  pub signed : 1 ≤ rank s
  pub early : rank s ≤ n

-- The command may run at the first stage, and takes the deployment to the second where it succeeds.
pub data Leg : Stage → Command → Stage → Type 0 where
  find_tool : Leg fresh (version_command (codes "pnpm")) tooled
  install_tools : Leg tooled install_command installed
  log_in : Leg signed_out login_command logged_in
  create_database : (name : Text) → Leg signed_in (create_command name) created
  store_secret : {s : Stage} (token : Text) → IsReady 2 s → Leg s (put_secret token) secret_stored
  migrate : {s : Stage} → IsReady 3 s → Leg s migrate_command migrated
  publish : {s : Stage} → IsReady 4 s → Leg s deploy_command deployed
  create_register :
      {s : Stage} (url token : Text)
      → IsReady 5 s
      → Leg s (token_command url token (codes "register")) registered
  create_subscribe :
      (url token : Text) → Leg registered (token_command url token (codes "subscribe")) subscribed

pub data IsAsking : Stage → Type 0 where
  with_tools : IsAsking tooled
  with_new_tools : IsAsking installed

pub data Edge : Stage → Event → Stage → Type 0 where
  says : {s : Stage} (t : Text) → Edge s (printed t) s
  asks : {s : Stage} (t : Text) → Edge s (asked t) s
  passes : {s s' : Stage} {c : Command} → Leg s c s' → Edge s (ran c (some 0)) s'
  fails :
      {s s' : Stage} {c : Command} (status : Option ℕ)
      → Leg s c s'
      → exited_well status ≡ false
      → Edge s (ran c status) stopped
  recognised : {s : Stage} → IsAsking s → Edge s (ran whoami_command (some 0)) signed_in
  unknown :
      {s : Stage} (status : Option ℕ) → IsAsking s → Edge s (ran whoami_command status) signed_out
  welcomed : Edge logged_in (ran whoami_command (some 0)) signed_in
  refused : (status : Option ℕ) → Edge logged_in (ran whoami_command status) stopped
  binds : (t : Text) → Edge signed_in (wrote t) bound
  binds_new : (t : Text) → Edge created (wrote t) bound

-- The events, the newest first, lead from `fresh` to the stage.
pub data Trace : List Event → Stage → Type 0 where
  start : Trace [] fresh
  follow :
      {events : List Event} {s s' : Stage} {e : Event}
      → Trace events s
      → Edge s e s'
      → Trace (e ∷ events) s'

unfoldable pub words_eq : List Text → List Text → Bool
words_eq [] [] = true
words_eq (a ∷ as_) (b ∷ bs) = text_eq a b && words_eq as_ bs
words_eq _ _ = false

-- The command has been run, with any status; wrangler has said who is signed in, and exited with 0.
unfoldable pub runs_command : Command → Event → Bool
runs_command c (ran d status) = words_eq d.words c.words
runs_command c _ = false

unfoldable pub signs_in : Event → Bool
signs_in (ran d (some zero)) = words_eq d.words whoami_command.words
signs_in _ = false

unfoldable pub past_sign_in : Stage → Bool
past_sign_in fresh = false
past_sign_in tooled = false
past_sign_in installed = false
past_sign_in signed_out = false
past_sign_in logged_in = false
past_sign_in stopped = false
past_sign_in _ = true
