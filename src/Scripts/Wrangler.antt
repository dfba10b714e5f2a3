-- ===== src/Scripts/Wrangler.antt =====
-- cloudflare-registry/scripts/deploy-interactive.js: its commands, what it reads in their output, and
-- its questions.
use vpn_register_kit.Prelude.{
  ℕ, Bool, true, false, not, ◌&&◌, ◌||◌, List, [], ◌∷◌, ◌++◌, Option, none, some, Text, codes,
  text_eq, join, trim, is_empty, take, if◌then◌else◌, leb, ◌+◌, ◌==◌,
}
use vpn_register_kit.Js.Lower.{to_lower_case}
use vpn_register_kit.Js.Regex.{Regex, unit, seq, repeat, test}
use vpn_register_kit.Scripts.Toml.{Match, match_here, name_key}
use vpn_register_kit.Scripts.Terminal.{
  Command, Machine, Step, pure, throw, ◌>>=◌, ◌>>◌, print, question, exited_well, spawn,
}

-- a command with its arguments, and no more
abbrev pub plain : List Text → Command
plain words = record { words = words; input = none; variables = [] }

abbrev spaced : List Text → Text
spaced = join (codes " ")

abbrev pub exec : List Text → List Text
exec args = codes "pnpm" ∷ codes "exec" ∷ codes "wrangler" ∷ args

abbrev pub version_command : Text → Command
version_command command = plain (command ∷ codes "--version" ∷ [])

abbrev pub install_command : Command
install_command = plain (codes "pnpm" ∷ codes "install" ∷ [])

abbrev pub whoami_command : Command
whoami_command = plain (exec (codes "whoami" ∷ []))

abbrev pub login_command : Command
login_command = plain (exec (codes "login" ∷ []))

abbrev pub create_command : Text → Command
create_command name = plain (exec (codes "d1" ∷ codes "create" ∷ name ∷ []))

abbrev pub migrate_command : Command
migrate_command = plain (codes "pnpm" ∷ codes "db:migrate:remote" ∷ [])

abbrev pub deploy_command : Command
deploy_command = plain (exec (codes "deploy" ∷ []))

abbrev pub put_secret : Text → Command
put_secret token = record {
  words = exec (codes "secret" ∷ codes "put" ∷ codes "ADMIN_TOKEN" ∷ []);
  input = some (token ++ codes "\n");
  variables = [];
}

abbrev pub token_command : Text → Text → Text → Command
token_command url token kind = record {
  words = codes "node" ∷ codes "scripts/create-token.js" ∷ codes "--kind" ∷ kind ∷ [];
  input = none;
  variables = (codes "CF_REGISTRY_URL", url) ∷ (codes "CF_ADMIN_TOKEN", token) ∷ [];
}

-- `[0-9a-f]` with the flag `i`
abbrev pub is_hex_unit : ℕ → Bool
is_hex_unit c =
    (leb b'0' c && leb c b'9') || (leb b'a' c && leb c b'f') || (leb b'A' c && leb c b'F')

abbrev hex_units : ℕ → Regex
hex_units n = repeat n n (unit is_hex_unit)

abbrev dash : Regex
dash = unit (λ c. c == b'-')

abbrev pub uuid_pattern : Regex
uuid_pattern = seq (hex_units 8) (
    seq dash (
      seq (hex_units 4)
        (seq dash (seq (hex_units 4) (seq dash (seq (hex_units 4) (seq dash (hex_units 12))))))))

-- `extractDatabaseID`; a match has 36 units
unfoldable pub extract_database_id : Text → Text
extract_database_id [] = []
extract_database_id (c ∷ s) =
    let later = extract_database_id s in
    if test uuid_pattern (take 36 (c ∷ s)) then take 36 (c ∷ s) else later

-- `([^"]+)`
abbrev nonempty_value : Option Match → Text
nonempty_value none = []
nonempty_value (some m) = m.value

-- `extractDatabaseName`
unfoldable pub extract_database_name : Text → Text
extract_database_name [] = []
extract_database_name (c ∷ s) =
    let later = extract_database_name s in
    let here = nonempty_value (match_here name_key (c ∷ s)) in if is_empty here then later else here

abbrev lower_ascii : ℕ → ℕ
lower_ascii c = if leb b'A' c && leb c b'Z' then c + 32 else c

-- with the flag `i`; the pattern is in lower case
unfoldable pub starts_with_i : Text → Text → Bool
starts_with_i s [] = true
starts_with_i [] (b ∷ p) = false
starts_with_i (a ∷ s) (b ∷ p) = (lower_ascii a == b) && starts_with_i s p

unfoldable pub contains_i : Text → Text → Bool
contains_i pattern [] = is_empty pattern
contains_i pattern (c ∷ s) = starts_with_i (c ∷ s) pattern || contains_i pattern s

-- `isWranglerUnauthenticated`
unfoldable pub is_wrangler_unauthenticated : Text → Bool
is_wrangler_unauthenticated output =
    contains_i (codes "not authenticated") output
    || contains_i (codes "wrangler login") output
    || contains_i (codes "you are not authenticated") output

pub record Whoami : Type 0 where
  pub signed_in : Bool
  pub output : Text

-- `askRequired`
unfoldable pub ask_required : Text → Step Text
ask_required prompt = do
  line ← question (prompt ++ codes ": ")
  if is_empty (trim line) then throw (prompt ++ codes " is required") else pure (trim line)

-- `askDefault`
unfoldable pub ask_default : Text → Text → Step Text
ask_default prompt fallback = do
  line ← question (prompt ++ (codes " [" ++ (fallback ++ codes "]: ")))
  pure (if is_empty (trim line) then fallback else trim line)

module _ (machine : Machine) where
  unfoldable pub meaning : Bool → Text → Bool
  meaning default_yes line =
      let answer = to_lower_case machine.lower_wide (trim line) in
      if is_empty answer
      then default_yes
      else text_eq answer (codes "y") || text_eq answer (codes "yes")

  -- `confirm`
  unfoldable pub confirm : Text → Bool → Step Bool
  confirm prompt default_yes = do
    line ← question (
        prompt
        ++ (codes " [" ++ ((if default_yes then codes "Y/n" else codes "y/N") ++ codes "]: ")))
    pure (meaning default_yes line)

  -- `requireCommand`
  unfoldable pub require_command : Text → Step (Unit {0})
  require_command command = do
    f ← spawn machine (version_command command)
    if exited_well f.status then pure tt else throw (command ++ codes " is required")

  -- `run`
  unfoldable pub run : Command → Step (Unit {0})
  run command = do
    print (codes "\n$ " ++ spaced command.words)
    f ← spawn machine command
    if exited_well f.status then pure tt else throw (spaced command.words ++ codes " failed")

  -- `runCapture`
  unfoldable pub run_capture : Command → Step Text
  run_capture command = do
    print (codes "\n$ " ++ spaced command.words)
    f ← spawn machine command
    if exited_well f.status
        then pure f.stdout
        else throw (spaced command.words ++ (codes " failed\n" ++ (f.stdout ++ f.stderr)))

  -- `runWranglerWhoami`
  unfoldable pub run_wrangler_whoami : Step Whoami
  run_wrangler_whoami = do
    f ← spawn machine whoami_command
    pure (record {
      signed_in =
          exited_well f.status && not (is_wrangler_unauthenticated (trim (f.stdout ++ f.stderr)));
      output = trim (f.stdout ++ f.stderr);
    })
