-- ===== src/Scripts/Deploy/Order.antt =====
-- Every step of deploy-interactive.js runs its commands along the diagram.
use vpn_register_kit.Prelude.{
  ℕ, ◌+◌, ◌≤◌, ◌≡◌, refl, sym, Bool, true, false, [], Option, none, some, Text, arith,
}
use mathlib.Core.Path.{subst}
use vpn_register_kit.Scripts.Toml.{Parsed}
use vpn_register_kit.Scripts.Terminal.{
  Command, Machine, Session, wrote, Ended, done, threw, abandoned, print, write_toml, written,
}
use vpn_register_kit.Scripts.Deploy.{
  id_from, choose_database, update_wrangler_toml, bind_database, use_or_bind, ensure_d1_database,
  store_token, ensure_admin_token, run_if, run_migrations, deploy_worker, create_tokens,
  maybe_create_initial_tokens, deploy, exit, main,
}
use vpn_register_kit.Scripts.Deploy.Diagram.{
  Stage, fresh, tooled, installed, signed_out, logged_in, signed_in, created, bound, secret_stored,
  migrated, deployed, registered, subscribed, stopped, running, IsReady, Leg, create_database,
  store_secret, migrate, publish, create_register, create_subscribe, IsAsking, Edge, binds,
  binds_new, Trace, start, follow, says,
}
use vpn_register_kit.Scripts.Deploy.Leads.{
  At, Running, Arrives, Leads, Leads-pure, Leads-if, Leads-bind, Leads-command, Leads-mono, Stays,
  Live, Reached, print-Stays, ask_required-Stays, ask_default-Stays, confirm-Stays, run-Leads,
  run_capture-Leads,
}
use vpn_register_kit.Scripts.Deploy.SignIn.{
  Reached-live, read_toml-Stays, assert_project_root-Stays, Leg-Reached, ensure_pnpm_install-Leads,
  ensure_wrangler_login-Leads,
}

-- The path that a deployment has taken, and where it leaves with the exit code.
pub record IsDeployment (code : ℕ) (w : Session) : Type 0 where
  pub stage : Stage
  pub path : Trace w.events stage
  pub succeeded : code ≡ 0 → running stage ≡ true

module _ (machine : Machine) where
  -- From these stages the file may be written.
  data IsBinding : Stage → Type 0 where
    with_old : IsBinding signed_in
    with_new : IsBinding created

  binding_live : Live IsBinding
  binding_live _ with_old = refl
  binding_live _ with_new = refl

  binding : (t : Stage) → IsBinding t → (s : Stage) → Reached t s → IsBinding s
  binding t h s e = subst IsBinding (sym e) h

  write-Edge : (t : Text) (s : Stage) → IsBinding s → Edge s (wrote t) bound
  write-Edge t _ with_old = binds t
  write-Edge t _ with_new = binds_new t

  writes :
      (t : Text) (failure : Option Text) (w : Session)
      → At IsBinding w
      → Arrives (λ _. Reached bound) (written machine t failure w).0 (written machine t failure w).1
  writes t none w p = record {
    stage = bound;
    path = follow p.path (write-Edge t p.stage p.here);
    here = refl;
  }
  writes t (some message) w p = record { stage = p.stage; path = p.path; here = tt }

  update_wrangler_toml-Leads :
      (b : Parsed) → Leads IsBinding (update_wrangler_toml machine b) (λ _. Reached bound)
  unfolding update_wrangler_toml write_toml
  update_wrangler_toml-Leads b =
      Leads-bind _ _ _ _ _ (read_toml-Stays machine IsBinding)
        λ text. record { at = λ w p. writes _ (machine.write_error w) w p }

  id_from-Stays : (P : Stage → Type 0) → Live P → (output : Text) → Stays P (id_from machine output)
  unfolding id_from
  id_from-Stays P live output =
      Leads-if P _ _ _ _ (ask_required-Stays P live _) (Leads-pure P _ _ (λ s h. h))

  choose_database-Leads :
      (name : Text) (create : Bool)
      → Leads (Reached signed_in) (choose_database machine name create) (λ _. IsBinding)
  unfolding choose_database
  choose_database-Leads name true =
      Leads-bind _ _ _ (λ _. Reached created) _
        (run_capture-Leads machine _ _ created (Leg-Reached machine (create_database name)))
        λ output. Leads-bind _ _ _ _ _ (print-Stays _ _) λ _.
          Leads-bind _ _ _ _ _ (id_from-Stays _ (Reached-live created refl) output)
            λ id. Leads-pure _ _ _ (binding created with_new)
  choose_database-Leads name false =
      Leads-bind _ _ _ _ _ (ask_default-Stays _ (Reached-live signed_in refl) _ _) λ chosen.
        Leads-bind _ _ _ _ _ (ask_required-Stays _ (Reached-live signed_in refl) _)
          λ id. Leads-pure _ _ _ (binding signed_in with_old)

  ready : (n : ℕ) (t : Stage) → IsReady n t → (s : Stage) → Reached t s → IsReady n s
  ready n t h s e = subst (IsReady n) (sym e) h

  bind_database-Leads :
      (name : Text) → Leads (Reached signed_in) (bind_database machine name) (λ _. IsReady 2)
  unfolding bind_database
  bind_database-Leads name =
      Leads-bind _ _ _ _ _ (confirm-Stays _ (Reached-live signed_in refl) machine _ _) λ create.
        Leads-bind _ _ _ (λ _. IsBinding) _ (choose_database-Leads name create)
          λ b.
            Leads-bind _ _ _ (λ _. Reached bound) _ (update_wrangler_toml-Leads b)
              λ _. Leads-bind _ _ _ _ _ (print-Stays _ _) λ _.
                Leads-pure _ _ _
                  (ready 2 bound (record { signed = omega arith; early = omega arith }))

  ensure_d1_database-Leads : Leads (Reached signed_in) (ensure_d1_database machine) (λ _. IsReady 2)
  unfolding ensure_d1_database use_or_bind
  ensure_d1_database-Leads = Leads-bind _ _ _ _ _ (read_toml-Stays machine _) λ text.
      Leads-if _ _ _ _ _
        (Leads-bind _ _ _ _ _ (print-Stays _ _) λ _.
          Leads-pure _ _ _
            (ready 2 signed_in (record { signed = omega arith; early = omega arith })))
        (bind_database-Leads _)

  IsReady-live : (n : ℕ) → Live (IsReady n)
  IsReady-live n stopped h = absurd (let l = h.signed in omega arith)
  IsReady-live n fresh h = refl
  IsReady-live n tooled h = refl
  IsReady-live n installed h = refl
  IsReady-live n signed_out h = refl
  IsReady-live n logged_in h = refl
  IsReady-live n signed_in h = refl
  IsReady-live n created h = refl
  IsReady-live n bound h = refl
  IsReady-live n secret_stored h = refl
  IsReady-live n migrated h = refl
  IsReady-live n deployed h = refl
  IsReady-live n registered h = refl
  IsReady-live n subscribed h = refl

  later : (n k : ℕ) → n ≤ k → (s : Stage) → IsReady n s → IsReady k s
  later n k le s h = record { signed = h.signed; early = let e = h.early in omega arith }

  -- A step that may be declined goes on from where it is, or from its own stage.
  run_if-Leads :
      (n : ℕ) (c : Command) (t : Stage) (yes_ : Bool)
      → ((s : Stage) → IsReady n s → Leg s c t)
      → IsReady (n + 1) t
      → Leads (IsReady n) (run_if machine c yes_) (λ _. IsReady (n + 1))
  run_if-Leads n c t false leg r = Leads-pure _ _ _ (later n (n + 1) (omega arith))
  run_if-Leads n c t true leg r =
      Leads-mono _ _ _ _ _ (λ s h. h) (λ _. ready (n + 1) t r) (run-Leads machine _ c t leg)

  store_token-Leads :
      (token : Text) (yes_ : Bool)
      → Leads (IsReady 2) (store_token machine token yes_) (λ _. IsReady 3)
  unfolding store_token
  store_token-Leads token false =
      Leads-mono _ _ _ _ _ (λ s h. h) (λ _. later 2 3 (omega arith)) (print-Stays (IsReady 2) _)
  store_token-Leads token true =
      Leads-command machine _ _ secret_stored (λ s h. store_secret token h) _ _ _
        λ r. Leads-bind _ _ _ _ _ (print-Stays _ _) λ _.
          Leads-mono _ _ _ _ _ (λ s h. h)
            (λ _. ready 3 secret_stored (record { signed = omega arith; early = omega arith }))
            (print-Stays (Reached secret_stored) _)

  ensure_admin_token-Leads : Leads (IsReady 2) (ensure_admin_token machine) (λ _. IsReady 3)
  unfolding ensure_admin_token
  ensure_admin_token-Leads = Leads-bind _ _ _ _ _ (print-Stays _ _) λ _.
      Leads-bind _ _ _ _ _ (print-Stays _ _) λ _. Leads-bind _ _ _ _ _ (print-Stays _ _) λ _.
        Leads-bind _ _ _ _ _ (ask_default-Stays _ (IsReady-live 2) _ _) λ token.
          Leads-bind _ _ _ _ _ (confirm-Stays _ (IsReady-live 2) machine _ _)
            (store_token-Leads token)

  run_migrations-Leads : Leads (IsReady 3) (run_migrations machine) (λ _. IsReady 4)
  unfolding run_migrations
  run_migrations-Leads = Leads-bind _ _ _ _ _ (confirm-Stays _ (IsReady-live 3) machine _ _) λ yes_.
      run_if-Leads 3 _ migrated yes_ (λ s h. migrate h)
        (record { signed = omega arith; early = omega arith })

  deploy_worker-Leads : Leads (IsReady 4) (deploy_worker machine) (λ _. IsReady 5)
  unfolding deploy_worker
  deploy_worker-Leads = Leads-bind _ _ _ _ _ (confirm-Stays _ (IsReady-live 4) machine _ _) λ yes_.
      run_if-Leads 4 _ deployed yes_ (λ s h. publish h)
        (record { signed = omega arith; early = omega arith })

  create_tokens-Leads :
      (yes_ : Bool) → Leads (IsReady 5) (create_tokens machine yes_) (λ _. Running)
  unfolding create_tokens
  create_tokens-Leads false = Leads-pure _ _ _ (IsReady-live 5)
  create_tokens-Leads true = Leads-bind _ _ _ _ _ (ask_required-Stays _ (IsReady-live 5) _) λ url.
      Leads-bind _ _ _ _ _ (ask_required-Stays _ (IsReady-live 5) _) λ token.
        Leads-bind _ _ _ (λ _. Reached registered) _
          (run-Leads machine _ _ registered (λ s h. create_register url token h))
          λ _.
            Leads-mono _ _ _ _ _ (λ s h. h) (λ _. Reached-live subscribed refl)
              (run-Leads machine (Reached registered) _ subscribed
                (Leg-Reached machine (create_subscribe url token)))

  deploy-Leads : Leads (Reached fresh) (deploy machine) (λ _. Running)
  unfolding deploy maybe_create_initial_tokens
  deploy-Leads = Leads-bind _ _ _ _ _ (assert_project_root-Stays machine _) λ _.
      Leads-bind _ _ _ (λ _. IsAsking) _ (ensure_pnpm_install-Leads machine)
        λ _.
          Leads-bind _ _ _ (λ _. Reached signed_in) _ (ensure_wrangler_login-Leads machine)
            λ _.
              Leads-bind _ _ _ (λ _. IsReady 2) _ ensure_d1_database-Leads
                λ database.
                  Leads-bind _ _ _ (λ _. IsReady 3) _ ensure_admin_token-Leads
                    λ _.
                      Leads-bind _ _ _ (λ _. IsReady 4) _ run_migrations-Leads
                        λ _.
                          Leads-bind _ _ _ (λ _. IsReady 5) _ deploy_worker-Leads
                            λ _.
                              Leads-bind _ _ _ (λ _. Running) _
                                (Leads-bind _ _ _ _ _ (confirm-Stays _ (IsReady-live 5) machine _ _)
                                  create_tokens-Leads)
                                (λ _. print-Stays Running _)

  exits :
      (e : Ended (Unit {0})) (w : Session)
      → Arrives (λ _. Running) e w
      → IsDeployment (exit machine e w).0 (exit machine e w).1
  unfolding print
  exits (done u) w p = record { stage = p.stage; path = p.path; succeeded = λ h. p.here }
  exits (threw message) w p = record {
    stage = p.stage;
    path = follow p.path (says _);
    succeeded = λ h. absurd (let e : 1 ≡ 0 = h in omega arith);
  }
  exits abandoned w p = record { stage = p.stage; path = p.path; succeeded = λ h. p.here }

  fresh-At : (w : Session) → w.events ≡ [] → At (Reached fresh) w
  fresh-At w h = record {
    stage = fresh;
    path = subst (λ es. Trace es fresh) (sym h) start;
    here = refl;
  }

  -- From a session without events, the script leaves a trace of the diagram, and where its exit code
  -- is 0 the trace does not end at a failed command.
  pub main_lem : (w : Session) → w.events ≡ [] → IsDeployment (main machine w).0 (main machine w).1
  unfolding main
  main_lem w h = exits (deploy machine w).0 (deploy machine w).1 (deploy-Leads.at w (fresh-At w h))
