-- ===== src/Scripts/Deploy/Published.antt =====
-- What a deployment by deploy-interactive.js has done before it publishes the Worker.
use vpn_register_kit.Prelude.{
  ℕ, ◌≡◌, refl, Bool, true, false, ◌||◌, List, [], Option, some, codes, text_eq, any, arith, ◌⊎◌,
  inl, inr,
}
use vpn_register_kit.Scripts.Terminal.{Command, Machine, Session, Event, ran}
use vpn_register_kit.Scripts.Wrangler.{whoami_command, deploy_command}
use vpn_register_kit.Scripts.Deploy.{main}
use vpn_register_kit.Scripts.Deploy.Diagram.{
  Stage, fresh, tooled, installed, signed_out, logged_in, signed_in, created, bound, secret_stored,
  migrated, deployed, registered, subscribed, stopped, IsReady, Leg, Trace, words_eq, runs_command,
  signs_in, past_sign_in, start, follow, says, asks, passes, fails, recognised, unknown, welcomed,
  refused, binds, binds_new, find_tool, install_tools, log_in, create_database, store_secret,
  migrate, publish, create_register, create_subscribe,
}
use vpn_register_kit.Scripts.Deploy.Order.{IsDeployment, main_lem}

ready_past : (n : ℕ) (s : Stage) → IsReady n s → past_sign_in s ≡ true
unfolding past_sign_in
ready_past n fresh h = absurd (let l = h.signed in omega arith)
ready_past n tooled h = absurd (let l = h.signed in omega arith)
ready_past n installed h = absurd (let l = h.signed in omega arith)
ready_past n signed_out h = absurd (let l = h.signed in omega arith)
ready_past n logged_in h = absurd (let l = h.signed in omega arith)
ready_past n created h = refl
ready_past n registered h = refl
ready_past n subscribed h = refl
ready_past n stopped h = absurd (let l = h.signed in omega arith)
ready_past n signed_in h = refl
ready_past n bound h = refl
ready_past n secret_stored h = refl
ready_past n migrated h = refl
ready_past n deployed h = refl

Leg-past :
    {s s' : Stage} {c : Command} → Leg s c s' → past_sign_in s' ≡ true → past_sign_in s ≡ true
unfolding past_sign_in
Leg-past find_tool h = h
Leg-past install_tools h = h
Leg-past log_in h = h
Leg-past (create_database name) h = refl
Leg-past (store_secret token r) h = ready_past 2 _ r
Leg-past (migrate r) h = ready_past 3 _ r
Leg-past (publish r) h = ready_past 4 _ r
Leg-past (create_register url token r) h = ready_past 5 _ r
Leg-past (create_subscribe url token) h = refl

or_right : (b : Bool) {c : Bool} → c ≡ true → (b || c) ≡ true
or_right b h = ground arith

or_tail : (b : Bool) {c : Bool} → b ≡ false → (b || c) ≡ true → c ≡ true
or_tail b e h = ground arith

-- Past the sign-in, wrangler has recognised the user.
past_signed :
    {es : List Event} {s : Stage} → Trace es s → past_sign_in s ≡ true → any signs_in es ≡ true
unfolding past_sign_in signs_in words_eq text_eq codes
past_signed start h = cc
past_signed (follow p (says t)) h = past_signed p h
past_signed (follow p (asks t)) h = past_signed p h
past_signed (follow p (passes {c = c} leg)) h =
    or_right (signs_in (ran c (some 0))) (past_signed p (Leg-past leg h))
past_signed (follow p (fails status leg e)) h = cc
past_signed (follow p (recognised a)) h = refl
past_signed (follow p (unknown status a)) h = cc
past_signed (follow p welcomed) h = refl
past_signed (follow p (refused status)) h = cc
past_signed (follow p (binds t)) h = past_signed p refl
past_signed (follow p (binds_new t)) h = past_signed p refl

abbrev publishes : Event → Bool
publishes = runs_command deploy_command

Leg-cases :
    {s s' : Stage} {c : Command} (status : Option ℕ)
    → Leg s c s'
    → (publishes (ran c status) ≡ false) ⊎ (past_sign_in s ≡ true)
unfolding runs_command words_eq text_eq codes
Leg-cases status find_tool = inl refl
Leg-cases status install_tools = inl refl
Leg-cases status log_in = inl refl
Leg-cases status (create_database name) = inl refl
Leg-cases status (store_secret token r) = inl refl
Leg-cases status (migrate r) = inl refl
Leg-cases status (publish r) = inr (ready_past 4 _ r)
Leg-cases status (create_register url token r) = inl refl
Leg-cases status (create_subscribe url token) = inl refl

published_signed :
    {es : List Event} {s : Stage} → Trace es s → any publishes es ≡ true → any signs_in es ≡ true
unfolding runs_command signs_in words_eq text_eq codes
published_signed start h = cc
published_signed (follow p (says t)) h = published_signed p h
published_signed (follow p (asks t)) h = published_signed p h
published_signed (follow p (passes {c = c} leg)) h =
    or_right (signs_in (ran c (some 0))) (elim (Leg-cases (some 0) leg) [
      | inl other ↦ published_signed p (or_tail (publishes (ran c (some 0))) other h)
      | inr past ↦ past_signed p past
    ])
published_signed (follow p (fails {c = c} status leg e)) h =
    or_right (signs_in (ran c status)) (elim (Leg-cases status leg) [
      | inl other ↦ published_signed p (or_tail (publishes (ran c status)) other h)
      | inr past ↦ past_signed p past
    ])
published_signed (follow p (recognised a)) h = refl
published_signed (follow p (unknown status a)) h =
    or_right (signs_in (ran whoami_command status)) (published_signed p h)
published_signed (follow p welcomed) h = refl
published_signed (follow p (refused status)) h =
    or_right (signs_in (ran whoami_command status)) (published_signed p h)
published_signed (follow p (binds t)) h = published_signed p h
published_signed (follow p (binds_new t)) h = published_signed p h

-- Where the script, from a session without events, has run the command that publishes the Worker,
-- it has also run `wrangler whoami` with exit status 0.
pub main-published :
    (machine : Machine) (w : Session)
    → w.events ≡ []
    → any (runs_command deploy_command) (main machine w).1.events ≡ true
    → any signs_in (main machine w).1.events ≡ true
main-published machine w h = published_signed (IsDeployment.path (main_lem machine w h))
