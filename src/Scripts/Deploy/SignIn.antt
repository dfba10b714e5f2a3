-- ===== src/Scripts/Deploy/SignIn.antt =====
-- deploy-interactive.js up to the sign-in runs its commands along the diagram.
use vpn_register_kit.Prelude.{
  ℕ, ◌≡◌, refl, sym, ap, ◌∙◌, Bool, true, false, not, ◌&&◌, Option, none, some, Text, if◌then◌else◌,
}
use mathlib.Core.Path.{subst}
use vpn_register_kit.Scripts.Terminal.{
  Command, Finished, Machine, Session, ran, Step, ◌>>=◌, exited_well, spawn, read_toml, toml_exists,
  exists_file, found, after_command,
}
use vpn_register_kit.Scripts.Wrangler.{
  Whoami, whoami_command, is_wrangler_unauthenticated, require_command, run_wrangler_whoami,
}
use vpn_register_kit.Scripts.Deploy.{
  assert_project_root, install, ensure_pnpm_install, after_login, login, ensure_wrangler_login,
}
use vpn_register_kit.Scripts.Deploy.Diagram.{
  Stage, fresh, tooled, installed, signed_out, logged_in, signed_in, stopped, running, Leg,
  find_tool, install_tools, log_in, IsAsking, with_tools, with_new_tools, Edge, recognised, unknown,
  welcomed, refused, follow,
}
use vpn_register_kit.Scripts.Deploy.Leads.{
  At, Arrives, Leads, Leads-pure, Leads-throw, Leads-if, Leads-bind, Leads-command, Leads-mono,
  Stays, Live, Reached, print_some-Stays, confirm-Stays, exited_well-some, run-Leads,
}

pub Reached-live : (t : Stage) → running t ≡ true → Live (Reached t)
Reached-live t h s e = ap running e ∙ h

module _ (machine : Machine) (P : Stage → Type 0) where
  toml_exists-Stays : Stays P (toml_exists machine)
  unfolding toml_exists
  toml_exists-Stays = record { at = λ w p. p }

  exists_file-Stays : (path : Text) → Stays P (exists_file machine path)
  unfolding exists_file
  exists_file-Stays path = record { at = λ w p. p }

  found_stays :
      (t : Option Text) (w : Session)
      → At P w
      → Arrives (λ _. P) (found machine t w).0 (found machine t w).1
  found_stays none w p = record { stage = p.stage; path = p.path; here = tt }
  found_stays (some t) w p = p

  pub read_toml-Stays : Stays P (read_toml machine)
  unfolding read_toml
  read_toml-Stays = record { at = λ w p. found_stays w.wrangler_toml w p }

  pub assert_project_root-Stays : Stays P (assert_project_root machine)
  unfolding assert_project_root
  assert_project_root-Stays = Leads-bind P _ _ _ _ toml_exists-Stays λ has_toml.
      Leads-bind P _ _ _ _ (exists_file-Stays _)
        λ has_entry. Leads-if P _ _ _ _ (Leads-pure P tt _ (λ s h. h)) (Leads-throw P _ _)

module _ (machine : Machine) where
  ask_live : Live IsAsking
  ask_live _ with_tools = refl
  ask_live _ with_new_tools = refl

  asking : (t : Stage) → IsAsking t → (s : Stage) → Reached t s → IsAsking s
  asking t h s e = subst IsAsking (sym e) h

  pub Leg-Reached :
      {t0 t : Stage} {c : Command} → Leg t0 c t → (s : Stage) → Reached t0 s → Leg s c t
  Leg-Reached {t0} {t} {c} leg s e = subst (λ x. Leg x c t) (sym e) leg

  install-Leads : (yes_ : Bool) → Leads (Reached tooled) (install machine yes_) (λ _. IsAsking)
  unfolding install
  install-Leads false = Leads-throw _ _ _
  install-Leads true =
      Leads-mono _ _ _ _ _ (λ s h. h) (λ _. asking installed with_new_tools)
        (run-Leads machine (Reached tooled) _ installed (Leg-Reached install_tools))

  pub ensure_pnpm_install-Leads :
      Leads (Reached fresh) (ensure_pnpm_install machine) (λ _. IsAsking)
  unfolding ensure_pnpm_install require_command
  ensure_pnpm_install-Leads =
      Leads-bind _ _ _ (λ _. Reached tooled) _
        (Leads-command machine (Reached fresh) _ tooled (Leg-Reached find_tool) _ _ _
          (λ r. Leads-pure _ tt _ (λ s h. h)))
        λ _. Leads-bind _ _ _ _ _ (exists_file-Stays machine _ _) λ present.
          Leads-if _ _ _ _ _ (Leads-pure _ tt _ (asking tooled with_tools)) (
            Leads-bind _ _ _ _ _ (confirm-Stays _ (Reached-live tooled refl) machine _ _)
              install-Leads)

  -- Where `wrangler whoami` leads, by what it has found.
  abbrev Told : Stage → Whoami → Stage → Type 0
  Told otherwise w s = s ≡ (if w.signed_in then signed_in else otherwise)

  whoami_step :
      (P : Stage → Type 0) (otherwise : Stage)
      → ((s : Stage) → P s → Edge s (ran whoami_command (some 0)) signed_in)
      → ((s : Stage) (status : Option ℕ) → P s → Edge s (ran whoami_command status) otherwise)
      → Leads P (run_wrangler_whoami machine) (Told otherwise)
  unfolding run_wrangler_whoami spawn ◌>>=◌
  whoami_step P otherwise good bad = record {
    at = λ w p. told (machine.spawn w whoami_command) w p (is_wrangler_unauthenticated _);
  }
    where
      edge :
          (s : Stage) (status : Option ℕ) (unsure b : Bool)
          → exited_well status ≡ b
          → P s
          → Edge s (ran whoami_command status) (if b && not unsure then signed_in else otherwise)
      edge s status false true e h =
          subst (λ x. Edge s (ran whoami_command x) signed_in) (sym (exited_well-some status e))
            (good s h)
      edge s status true true e h = bad s status h
      edge s status unsure false e h = bad s status h

      told :
          (r : Finished) (w : Session) (p : At P w) (unsure : Bool)
          → At
              (λ s. s ≡ (if exited_well r.status && not unsure then signed_in else otherwise))
              (after_command whoami_command r w)
      told r w p unsure = record {
        stage = if exited_well r.status && not unsure then signed_in else otherwise;
        path = follow p.path (edge p.stage r.status unsure (exited_well r.status) refl p.here);
        here = refl;
      }

  -- where `signed_in` is told, it is reached
  settle :
      (otherwise : Stage) (b : Bool) (m n : Step (Unit {0})) (Q : Unit {0} → Stage → Type 0)
      → Leads (Reached signed_in) m Q
      → Leads (Reached otherwise) n Q
      → Leads (λ s. s ≡ (if b then signed_in else otherwise)) (if b then m else n) Q
  settle otherwise true m n Q hm hn = hm
  settle otherwise false m n Q hm hn = hn

  after_login-Leads :
      (w : Whoami) → Leads (Told stopped w) (after_login machine w) (λ _. Reached signed_in)
  after_login-Leads w =
      Leads-bind _ _ _ (λ _. Told stopped w) _ (print_some-Stays _ _)
        λ _. settle stopped w.signed_in _ _ _ (Leads-pure _ tt _ (λ s h. h)) (Leads-throw _ _ _)

  login-Leads :
      (yes_ : Bool) → Leads (Reached signed_out) (login machine yes_) (λ _. Reached signed_in)
  unfolding login
  login-Leads false = Leads-throw _ _ _
  login-Leads true =
      Leads-bind _ _ _ (λ _. Reached logged_in) _
        (run-Leads machine _ _ logged_in (Leg-Reached log_in))
        λ _.
          Leads-bind _ _ _ (Told stopped) _
            (whoami_step (Reached logged_in) stopped
              (λ s e. subst (λ x. Edge x (ran whoami_command (some 0)) signed_in) (sym e) welcomed)
              (λ s status e.
                subst (λ x. Edge x (ran whoami_command status) stopped) (sym e) (refused status)))
            after_login-Leads

  pub ensure_wrangler_login-Leads :
      Leads IsAsking (ensure_wrangler_login machine) (λ _. Reached signed_in)
  unfolding ensure_wrangler_login
  ensure_wrangler_login-Leads =
      Leads-bind _ _ _ (Told signed_out) _
        (whoami_step IsAsking signed_out (λ s h. recognised h) (λ s status h. unknown status h))
        λ w.
          Leads-bind _ _ _ (λ _. Told signed_out w) _ (print_some-Stays _ _)
            λ _. settle signed_out w.signed_in _ _ _ (Leads-pure _ tt _ (λ s h. h)) (
              Leads-bind _ _ _ _ _ (confirm-Stays _ (Reached-live signed_out refl) machine _ _)
                login-Leads)
