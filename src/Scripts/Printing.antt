-- ===== src/Scripts/Printing.antt =====
-- cloudflare-registry/scripts/: how the clients print. What a script has printed stays when a later
-- expression throws.
use vpn_register_kit.Prelude.{List, [], ◌∷◌, ◌++◌, Text, codes}
use vpn_register_kit.Js.Result.{Thrown, Result, ok, err}
use vpn_register_kit.Scripts.{Outcome}

-- The lines printed so far, and a value or what is thrown.
pub record Printed {ℓ} (A : Type ℓ) : Type ℓ where
  pub lines : List Text
  pub result : Result A

abbrev pub pure {ℓ} : {A : Type ℓ} → A → Printed A
pure a = record { lines = []; result = ok a }

abbrev pub lift {ℓ} : {A : Type ℓ} → Result A → Printed A
lift r = record { lines = []; result = r }

-- `console.log`
abbrev pub say : Text → Printed (Unit {0})
say line = record { lines = line ∷ []; result = ok tt }

abbrev pub continue {ℓ κ} : {A : Type ℓ} {B : Type κ} → (A → Printed B) → Result A → Printed B
continue f (ok a) = f a
continue f (err e) = record { lines = []; result = err e }

infixl 5 ◌>>=◌ ◌>>◌
abbrev pub ◌>>=◌ {ℓ κ} : {A : Type ℓ} {B : Type κ} → Printed A → (A → Printed B) → Printed B
m >>= f = let n = continue f m.result in record { lines = m.lines ++ n.lines; result = n.result }

abbrev pub ◌>>◌ {ℓ} : {B : Type ℓ} → Printed (Unit {0}) → Printed B → Printed B
m >> n = m >>= λ _. n

-- The `catch` of the scripts.
abbrev pub caught : (Thrown → Text) → List Text → Result (Unit {0}) → Outcome
caught message lines (ok u) = record { lines = lines; exit_code = 0 }
caught message lines (err e) = record {
  lines = lines ++ (codes "error: " ++ message e) ∷ [];
  exit_code = 1;
}

unfoldable pub outcome : (Thrown → Text) → Printed (Unit {0}) → Outcome
outcome message p = caught message p.lines p.result
