-- ===== src/Tests/Deployments.antt =====
-- deploy-interactive.js at a machine where every command succeeds.
use vpn_register_kit.Prelude.{
  ℕ, ◌≡◌, refl, Bool, true, [], ◌∷◌, ◌++◌, Option, none, some, Text, codes, text_eq, any, trim,
  includes_unit, is_space, join,
}
use vpn_register_kit.Js.Lower.{to_lower_case}
use vpn_register_kit.Js.Regex.{test}
use vpn_register_kit.Scripts.Toml.{
  strip, until_quote, match_here, find, match_value, expand, replace_from, assignment,
  replace_value, id_key, Parsed, updated_toml,
}
use vpn_register_kit.Scripts.Toml.Stays.{IsKey, has_pair}
use vpn_register_kit.Scripts.Toml.ReadBack.{IsPlain, set_reads}
use vpn_register_kit.Scripts.Toml.Binding.{layout, IsEntry}
use vpn_register_kit.Scripts.Toml.Update.{updated_toml_lem}
use vpn_register_kit.Scripts.Terminal.{
  Command, Finished, Machine, Session, ◌>>=◌, print, question, spawn, read_toml, toml_exists,
  exists_file,
}
use vpn_register_kit.Scripts.Wrangler.{
  deploy_command, extract_database_id, extract_database_name, starts_with_i, contains_i,
  is_wrangler_unauthenticated, ask_default, meaning, confirm, require_command, run,
  run_wrangler_whoami,
}
use vpn_register_kit.Scripts.Deploy.{
  update_wrangler_toml, assert_project_root, ensure_pnpm_install, ensure_wrangler_login,
  update_wrangler_toml, use_or_bind, ensure_d1_database, store_token, ensure_admin_token,
  run_migrations, deploy_worker, create_tokens, maybe_create_initial_tokens, deploy, main,
}
use vpn_register_kit.Scripts.Deploy.Diagram.{words_eq, runs_command, signs_in}
use vpn_register_kit.Scripts.Deploy.Order.{IsDeployment, main_lem}
use vpn_register_kit.Scripts.Deploy.Published.{main-published}

abbrev succeeds : Session → Command → Finished
succeeds s command = record {
  status = some 0;
  stdout = codes "admin@example.com";
  stderr = [];
  answers = s.answers;
  wrangler_toml = s.wrangler_toml;
}

abbrev always_there : Session → Text → Bool
always_there s path = true

abbrev no_error : Session → Option Text
no_error s = none

abbrev as_it_is : ℕ → Text
as_it_is c = c ∷ []

abbrev good_machine : Machine
good_machine = record {
  spawn = succeeds;
  exists_file = always_there;
  no_file = codes "ENOENT";
  write_error = no_error;
  random_bytes = 7 ∷ 255 ∷ [];
  lower_wide = as_it_is;
}

abbrev head_lines : Text
head_lines = codes "main = \"src/index.js\"\n[[d1_databases]]\n"

abbrev bound_before : Parsed
bound_before = record { database_name = codes "vpn"; database_id = codes "1-2-3" }

abbrev first_binding : Parsed
first_binding = record {
  database_name = codes "vpn-register-kit";
  database_id = codes "replace-with-d1-database-id";
}

-- A run that only publishes: a token is generated, and each other offer is declined.
abbrev publishing : Session
publishing = record {
  events = [];
  answers = codes "" ∷ codes "n" ∷ codes "n" ∷ codes " Yes" ∷ codes "n" ∷ [];
  wrangler_toml = some (layout head_lines bound_before (codes "\n"));
}

main_lem_example : IsDeployment (main good_machine publishing).0 (main good_machine publishing).1
main_lem_example = main_lem good_machine publishing refl

published : any (runs_command deploy_command) (main good_machine publishing).1.events ≡ true
unfolding codes text_eq trim join to_lower_case match_value layout assignment test ◌>>=◌ print
    question spawn read_toml toml_exists exists_file is_wrangler_unauthenticated contains_i
    starts_with_i ask_default meaning confirm require_command run run_wrangler_whoami
    assert_project_root ensure_pnpm_install ensure_wrangler_login use_or_bind ensure_d1_database
    store_token ensure_admin_token run_migrations deploy_worker create_tokens
    maybe_create_initial_tokens deploy main words_eq runs_command find match_here strip until_quote
published = refl

main-published_example : any signs_in (main good_machine publishing).1.events ≡ true
main-published_example = main-published good_machine publishing refl published

-- The run ends with exit code 0.
completed : (main good_machine publishing).0 ≡ 0
unfolding codes text_eq trim join to_lower_case match_value layout assignment test ◌>>=◌ print
    question spawn read_toml toml_exists exists_file is_wrangler_unauthenticated contains_i
    starts_with_i ask_default meaning confirm require_command run run_wrangler_whoami
    assert_project_root ensure_pnpm_install ensure_wrangler_login use_or_bind ensure_d1_database
    store_token ensure_admin_token run_migrations deploy_worker create_tokens
    maybe_create_initial_tokens deploy main find match_here strip until_quote
completed = refl

-- What wrangler prints for a new database.
found_id :
    extract_database_id (codes "database_id = \"01234567-89ab-cdef-0123-456789ABCDEF\"\n")
    ≡ codes "01234567-89ab-cdef-0123-456789ABCDEF"
unfolding extract_database_id test codes
found_id = refl

found_name : extract_database_name (codes "x database_name =\"vpn\"\n") ≡ codes "vpn"
unfolding extract_database_name match_here strip until_quote codes trim
found_name = refl

-- `replace` reads the patterns of its replacement, so that an id with `$&` is written otherwise.
pattern_expanded :
    replace_value id_key (codes "a$&") (codes "database_id = \"x\"")
    ≡ codes "database_id = \"adatabase_id = \"x\"\""
unfolding replace_value replace_from expand assignment match_here strip until_quote codes trim
pattern_expanded = refl

id_IsKey : IsKey b'd' b'a' (codes "tabase_id")
unfolding has_pair trim codes
id_IsKey = record {
  once = refl;
  no_space = refl;
  a_no_space = refl;
  no_sign = refl;
  a_no_sign = refl;
  no_quote = refl;
}

plain_id : IsPlain (codes "4-5-6")
unfolding includes_unit codes
plain_id = record { unquoted = refl; literal = refl }

name-IsEntry : IsEntry (codes "vpn")
unfolding includes_unit codes
name-IsEntry = record { plain = record { unquoted = refl; literal = refl }; single = refl }

abbrev id_line : Text
id_line = codes "name = \"x\"\ndatabase_id=\"old\""

set_reads_example :
    match_value (replace_value (codes "database_id") (codes "4-5-6") id_line) (codes "database_id")
    ≡ codes "4-5-6"
unfolding find match_here strip until_quote includes_unit codes trim
set_reads_example =
    set_reads b'd' b'a' (codes "tabase_id") id_IsKey refl (codes "4-5-6") plain_id id_line
      (record { value = codes "old"; rest = [] }) refl

abbrev second_binding : Parsed
second_binding = record { database_name = codes "vpn"; database_id = codes "4-5-6" }

-- A file whose keys are spelled otherwise, with a line between them.
abbrev spelled_otherwise : Text
spelled_otherwise =
    head_lines
    ++ codes
        "database_name=\"old\" # production\nmigrations_dir = \"x\"\ndatabase_id  =  \"replace\"\n"

updated_toml_lem_example :
    updated_toml spelled_otherwise (codes "vpn") (codes "4-5-6")
    ≡ head_lines
      ++ codes
          "database_name = \"vpn\" # production\nmigrations_dir = \"x\"\ndatabase_id = \"4-5-6\"\n"
unfolding includes_unit codes assignment is_space
updated_toml_lem_example =
    updated_toml_lem head_lines (codes " # production\nmigrations_dir = \"x\"\n") (codes "\n") refl
      refl [] [] (codes "  ") (codes "  ") (codes "old") (codes "replace") (codes "vpn")
      (codes "4-5-6") (refl, refl) (refl, refl) refl refl name-IsEntry plain_id

-- No database is created: the name and the id are typed.
abbrev typing : Session
typing = record {
  events = [];
  answers = codes "n" ∷ codes "vpn" ∷ codes " 4-5-6 " ∷ [];
  wrangler_toml = some (layout head_lines first_binding (codes "\n"));
}

-- The input ends at the first question: the script leaves with 0, and without the message of success.
abbrev silent : Session
silent = record { events = []; answers = []; wrangler_toml = publishing.wrangler_toml }

silent_exit : (main good_machine silent).0 ≡ 0
unfolding codes text_eq trim join to_lower_case match_value layout assignment test ◌>>=◌ print
    question spawn read_toml toml_exists exists_file is_wrangler_unauthenticated contains_i
    starts_with_i ask_default meaning confirm require_command run run_wrangler_whoami
    assert_project_root ensure_pnpm_install ensure_wrangler_login use_or_bind ensure_d1_database
    store_token ensure_admin_token run_migrations deploy_worker create_tokens
    maybe_create_initial_tokens deploy main find match_here strip until_quote
silent_exit = refl
