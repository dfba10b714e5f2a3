-- ===== src/Js/Result.antt =====
-- Exceptions as values. `error m` is `new Error(m)`; a `fault` is an error that the runtime throws.
use vpn_register_kit.Prelude.{Text, Bool, ◌≡◌, refl, if◌then◌else◌}

pub data Fault : Type 0 where
  -- a property of `undefined` or `null` is read
  no_property : Text → Fault
  -- a value that cannot be iterated over is
  not_iterable : Fault
  -- a method that the value lacks is called
  not_a_function : Text → Fault
  -- an object that cannot become a primitive value
  no_primitive : Fault
  -- `JSON.parse`, `decodeURIComponent` and `encodeURIComponent`, `btoa`
  bad_json : Fault
  bad_uri : Fault
  bad_character : Fault
  -- the database refuses a statement
  database : Fault

pub data Thrown : Type 0 where
  error : Text → Thrown
  fault : Fault → Thrown

pub data Result {ℓ} (A : Type ℓ) : Type ℓ where
  ok : A → Result A
  err : Thrown → Result A

module _ {ℓ κ} {A : Type ℓ} {B : Type κ} where
  infixl 5 ◌>>=◌
  -- What follows is skipped where an error is thrown.
  abbrev pub ◌>>=◌ : Result A → (A → Result B) → Result B
  err e >>= next = err e
  ok a >>= next = next a

  -- A chain that returned: so did its first part, and the rest from there.
  pub >>=-eq-ok :
      (r : Result A) (next : A → Result B) {b : B}
      → (r >>= next) ≡ ok b
      → (a : A) × (r ≡ ok a) × (next a ≡ ok b)
  >>=-eq-ok (err e) next returned = cc
  >>=-eq-ok (ok a) next returned = (a, refl, returned)

-- `if (bad) throw e;`
abbrev pub throw_if : Bool → Thrown → Result (Unit {0})
throw_if bad e = if bad then err e else ok tt

infixl 5 ◌>>◌
abbrev pub ◌>>◌ {ℓ} : {A : Type ℓ} → Result (Unit {0}) → Result A → Result A
checked >> rest = checked >>= λ _. rest
