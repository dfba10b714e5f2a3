-- ===== src/Scripts/Terminal.antt =====
-- What deploy-interactive.js runs on: a session at a terminal, in a folder with wrangler.toml. A
-- step of the script returns, throws an error with a message, or waits for an answer that never
-- comes, since the input has ended: Node then leaves the loop, and the rest of the script is not run.
use vpn_register_kit.Prelude.{
  ℕ, Bool, true, false, List, [], ◌∷◌, Option, none, some, Text, is_empty, if◌then◌else◌, ◌==◌,
}

-- A program with its arguments; `input` and `variables` are options of `spawnSync`.
pub record Command : Type 0 where
  pub words : List Text
  pub input : Option Text
  pub variables : List (Text × Text)

-- What the script does that can be seen; a command has the status that it exited with, if any.
pub data Event : Type 0 where
  printed : Text → Event
  asked : Text → Event
  ran : Command → Option ℕ → Event
  wrote : Text → Event

-- The events so far, the newest first, the lines that the input has left, and wrangler.toml.
pub record Session : Type 0 where
  pub events : List Event
  pub answers : List Text
  pub wrangler_toml : Option Text

-- What a command leaves behind. It may read the input and change the file.
pub record Finished : Type 0 where
  pub status : Option ℕ
  pub stdout : Text
  pub stderr : Text
  pub answers : List Text
  pub wrangler_toml : Option Text

-- The world around the script: its commands, the other files, the messages of failing calls on
-- files, `randomBytes(32)`, and the lower case of the units above 127.
pub record Machine : Type 0 where
  pub spawn : Session → Command → Finished
  pub exists_file : Session → Text → Bool
  pub no_file : Text
  pub write_error : Session → Option Text
  pub random_bytes : List ℕ
  pub lower_wide : ℕ → Text

pub data Ended {ℓ} (A : Type ℓ) : Type ℓ where
  done : A → Ended A
  threw : Text → Ended A
  abandoned : Ended A

abbrev pub Step {ℓ} : Type ℓ → Type ℓ
Step A = Session → Ended A × Session

abbrev pub pure {ℓ} : {A : Type ℓ} → A → Step A
pure a s = (done a, s)

-- `throw new Error(message)`
abbrev pub throw {ℓ} : {A : Type ℓ} → Text → Step A
throw message s = (threw message, s)

abbrev pub continue {ℓ κ} :
    {A : Type ℓ} {B : Type κ} → (A → Step B) → Ended A → Session → Ended B × Session
continue f (done a) s = f a s
continue f (threw message) s = (threw message, s)
continue f abandoned s = (abandoned, s)

infixl 5 ◌>>=◌ ◌>>◌
unfoldable pub ◌>>=◌ {ℓ κ} : {A : Type ℓ} {B : Type κ} → Step A → (A → Step B) → Step B
◌>>=◌ m f s = let (e, s') = m s in continue f e s'

abbrev pub ◌>>◌ {ℓ} : {B : Type ℓ} → Step (Unit {0}) → Step B → Step B
m >> k = m >>= λ _. k

abbrev pub happened : Event → Session → Session
happened e s = record s { events = e ∷ s.events }

-- `console.log`, `console.error`
unfoldable pub print : Text → Step (Unit {0})
print line s = (done tt, happened (printed line) s)

abbrev pub print_some : Text → Step (Unit {0})
print_some line = if is_empty line then pure tt else print line

abbrev pub answer_from : List Text → Session → Ended Text × Session
answer_from [] s = (abandoned, s)
answer_from (line ∷ lines) s = (done line, record s { answers = lines })

-- `rl.question`
unfoldable pub question : Text → Step Text
question prompt s = answer_from s.answers (happened (asked prompt) s)

abbrev pub exited_well : Option ℕ → Bool
exited_well none = false
exited_well (some n) = n == 0

abbrev pub after_command : Command → Finished → Session → Session
after_command command f s = record {
  events = ran command f.status ∷ s.events;
  answers = f.answers;
  wrangler_toml = f.wrangler_toml;
}

module _ (machine : Machine) where
  -- `spawnSync`, `execFileSync`
  unfoldable pub spawn : Command → Step Finished
  spawn command s = let f = machine.spawn s command in (done f, after_command command f s)

  abbrev pub found : Option Text → Step Text
  found none = throw machine.no_file
  found (some t) = pure t

  -- `readFileSync("wrangler.toml", "utf8")`
  unfoldable pub read_toml : Step Text
  read_toml s = found s.wrangler_toml s

  abbrev pub written : Text → Option Text → Step (Unit {0})
  written t (some message) s = (threw message, s)
  written t none s = (done tt, happened (wrote t) (record s { wrangler_toml = some t }))

  -- `writeFileSync("wrangler.toml", t)`
  unfoldable pub write_toml : Text → Step (Unit {0})
  write_toml t s = written t (machine.write_error s) s

  unfoldable pub toml_exists : Step Bool
  toml_exists s = (done (elim (s.wrangler_toml) [ none ↦ false | some t ↦ true ]), s)

  -- `existsSync`
  unfoldable pub exists_file : Text → Step Bool
  exists_file path s = (done (machine.exists_file s path), s)
