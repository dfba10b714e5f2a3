-- ===== src/Scripts/Deploy.antt =====
-- cloudflare-registry/scripts/deploy-interactive.js: the guided deployment, a step for each of its
-- functions.
pub mod Diagram
pub mod Leads
pub mod SignIn
pub mod Order
pub mod Published
pub mod Keeps
pub mod Rerun
use vpn_register_kit.Prelude.{
  ℕ, zero, suc, Bool, true, false, not, ◌&&◌, ◌||◌, List, [], ◌∷◌, ◌++◌, Option, none, some, Text,
  codes, text_eq, starts_with, join, trim, is_empty, take, if◌then◌else◌, leb, ◌+◌, ◌==◌, any,
}
use vpn_register_kit.Js.Lower.{to_lower_case}
use vpn_register_kit.Js.Regex.{Regex, unit, seq, repeat, test}
use vpn_register_kit.Auth.{hex}
use vpn_register_kit.Scripts.Toml.{Match, match_here, Parsed, parsed_toml, updated_toml, name_key}
use vpn_register_kit.Scripts.Terminal.{
  Command, Finished, Machine, Session, Ended, done, threw, abandoned, Step, pure, throw, ◌>>=◌,
  ◌>>◌, print, print_some, question, exited_well, spawn, read_toml, write_toml, toml_exists,
  exists_file,
}
use vpn_register_kit.Scripts.Wrangler.{
  exec, install_command, login_command, create_command, migrate_command, deploy_command, put_secret,
  token_command, extract_database_id, extract_database_name, Whoami, ask_required, ask_default,
  confirm, require_command, run, run_capture, run_wrangler_whoami,
}

module _ (machine : Machine) where
  -- `assertProjectRoot`
  unfoldable pub assert_project_root : Step (Unit {0})
  assert_project_root = do
    has_toml ← toml_exists machine
    has_entry ← exists_file machine (codes "src/index.js")
    if has_toml && has_entry
        then pure tt
        else throw (codes "run this script from cloudflare-registry/")

  pub install : Bool → Step (Unit {0})
  install false = throw (codes "pnpm install is required before deployment")
  install true = run machine install_command

  -- `ensurePnpmInstall`
  unfoldable pub ensure_pnpm_install : Step (Unit {0})
  ensure_pnpm_install = do
    require_command machine (codes "pnpm")
    installed ← exists_file machine (codes "node_modules/.bin/wrangler")
    if installed
        then pure tt
        else (confirm machine (codes "node_modules is missing. Run pnpm install now?") true
            >>= install)

  abbrev pub after_login : Whoami → Step (Unit {0})
  after_login w = do
    print_some w.output
    if w.signed_in then pure tt else throw (codes "Wrangler still is not authenticated after login")

  pub login : Bool → Step (Unit {0})
  login false = throw (codes "Cloudflare login is required")
  login true = do run machine login_command; w ← run_wrangler_whoami machine; after_login w

  -- `ensureWranglerLogin`
  unfoldable pub ensure_wrangler_login : Step (Unit {0})
  ensure_wrangler_login = do
    w ← run_wrangler_whoami machine
    print_some w.output
    if w.signed_in
        then pure tt
        else (confirm machine (codes "Wrangler is not logged in. Run wrangler login now?") true
            >>= login)

  abbrev placeholder : Text
  placeholder = codes "replace-with-d1-database-id"

  abbrev pub default_name : Parsed → Text
  default_name current =
      if is_empty current.database_name then codes "vpn-register-kit" else current.database_name

  -- the id of a database that the file names already
  abbrev pub is_bound : Parsed → Bool
  is_bound current =
      not (is_empty current.database_id) && not (text_eq current.database_id placeholder)

  -- the id that the output has, or one that is pasted
  pub id_from : Text → Step Text
  id_from output =
      let id = extract_database_id output in
      if is_empty id
      then ask_required
          (codes "Could not parse database_id. Paste database_id from wrangler output")
      else pure id

  unfoldable pub choose_database : Text → Bool → Step Parsed
  choose_database name true = do
    output ← run_capture machine (create_command name)
    print output
    id ← id_from output
    let extracted = extract_database_name output in
        pure (record {
          database_name = if is_empty extracted then name else extracted;
          database_id = id;
        })
  choose_database name false = do
    chosen ← ask_default (codes "D1 database_name") name
    id ← ask_required (codes "D1 database_id")
    pure (record { database_name = chosen; database_id = id })

  -- `updateWranglerToml`
  unfoldable pub update_wrangler_toml : Parsed → Step (Unit {0})
  update_wrangler_toml binding = do
    text ← read_toml machine
    write_toml machine (updated_toml text binding.database_name binding.database_id)

  unfoldable pub bind_database : Text → Step Parsed
  bind_database name = do
    create ← confirm machine (codes "Create D1 database \"" ++ (name ++ codes "\" now?")) true
    binding ← choose_database name create
    update_wrangler_toml binding
    print (codes "Updated wrangler.toml with D1 database binding.")
    pure binding

  unfoldable pub use_or_bind : Parsed → Step Parsed
  use_or_bind current =
      if is_bound current
      then (do
        print (codes "Using existing D1 database_id from wrangler.toml: " ++ current.database_id)
        pure (record { database_name = default_name current; database_id = current.database_id }))
      else bind_database (default_name current)

  -- `ensureD1Database`
  unfoldable pub ensure_d1_database : Step Parsed
  ensure_d1_database = do text ← read_toml machine; use_or_bind (parsed_toml text)

  unfoldable pub store_token : Text → Bool → Step (Unit {0})
  store_token token false = print (
      codes
        "Skipping secret upload. Store it later with: pnpm exec wrangler secret put ADMIN_TOKEN")
  store_token token true = do
    f ← spawn machine (put_secret token)
    if exited_well f.status
        then (do
          print (codes "\nSave this ADMIN_TOKEN locally; Cloudflare will not show it again:")
          print (codes "  " ++ token))
        else throw (codes "wrangler secret put ADMIN_TOKEN failed")

  -- `ensureAdminToken`
  unfoldable pub ensure_admin_token : Step (Unit {0})
  ensure_admin_token = do
    print (codes "\nADMIN_TOKEN is the token used by local CLI/admin API.")
    print (codes "A strong token has been generated for this setup:")
    print (codes "  " ++ hex machine.random_bytes)
    token ←
        ask_default (codes "ADMIN_TOKEN to store in Cloudflare Secret") (hex machine.random_bytes)
    yes_ ← confirm machine (codes "Store ADMIN_TOKEN with wrangler secret put now?") true
    store_token token yes_

  abbrev pub run_if : Command → Bool → Step (Unit {0})
  run_if command yes_ = if yes_ then run machine command else pure tt

  -- `runMigrations`
  unfoldable pub run_migrations : Step (Unit {0})
  run_migrations =
      confirm machine (codes "Apply D1 migrations to remote database now?") true
      >>= run_if migrate_command

  -- `deployWorker`
  unfoldable pub deploy_worker : Step (Unit {0})
  deploy_worker = confirm machine (codes "Deploy Worker now?") true >>= run_if deploy_command

  unfoldable pub create_tokens : Bool → Step (Unit {0})
  create_tokens false = pure tt
  create_tokens true = do
    url ← ask_required (
        codes
          "Worker public URL, e.g. https://sub.example.com or https://vpn-register-kit.<account>.workers.dev")
    token ← ask_required (codes "ADMIN_TOKEN")
    run machine (token_command url token (codes "register"))
    run machine (token_command url token (codes "subscribe"))

  -- `maybeCreateInitialTokens`
  unfoldable pub maybe_create_initial_tokens : Step (Unit {0})
  maybe_create_initial_tokens =
      confirm machine (codes "Create initial register and subscribe tokens now?") true
      >>= create_tokens

  -- the `try` of `main`
  unfoldable pub deploy : Step (Unit {0})
  deploy = do
    assert_project_root
    ensure_pnpm_install
    ensure_wrangler_login
    database ← ensure_d1_database
    ensure_admin_token
    run_migrations
    deploy_worker
    maybe_create_initial_tokens
    print (codes "\nCloudflare registry deployment flow complete.")

  -- the exit code, and the session at the end
  abbrev pub exit : Ended (Unit {0}) → Session → ℕ × Session
  exit (done u) s = (0, s)
  exit (threw message) s = (1, (print (codes "\nerror: " ++ message) s).1)
  exit abandoned s = (0, s)

  -- `main`
  unfoldable pub main : Session → ℕ × Session
  main s = let (e, s') = deploy s in exit e s'
