-- ===== src/Runtime.antt =====
-- What the Worker calls and does not implement: the Workers runtime, the cryptography and D1. Every
-- call that reads a changing world is numbered, and its answer is a function of the number.
use vpn_register_kit.Prelude.{ℕ, ◌<◌, ◌≡◌, Bool, List, Option, some, Text, length, All}
use vpn_register_kit.Js.Number.{Number}
use vpn_register_kit.Js.Value.{Value, num, str}
use vpn_register_kit.Js.Result.{Fault, Thrown}

pub record Runtime : Type 0 where
  -- `crypto.subtle.digest("SHA-256", bytes)`
  pub digest : List ℕ → List ℕ
  -- `crypto.getRandomValues` over 24 bytes, `crypto.randomUUID()`, `new Date().toISOString()`
  pub random_bytes : ℕ → List ℕ
  pub random_uuid : ℕ → Text
  pub now_iso : ℕ → Text
  -- `JSON.parse`: none is a thrown error
  pub json_parse : Text → Option Value
  -- `toLowerCase` of one unit above 127
  pub lower_wide : ℕ → Text
  -- a text as a number: none is NaN
  pub number_of : Text → Option Number
  -- the message of an error that the runtime throws
  pub describe : Fault → Text
  -- `error.stack`
  pub stack : Thrown → Text
  -- whether D1 is out of reach at a statement
  pub d1_fails : ℕ → Bool
  -- what a TEXT and an INTEGER column hold after `bind`: none is a refused value
  pub bind_text : Value → Option Text
  pub bind_integer : Value → Option Number

-- What the documentation of the runtime promises.
pub record IsRuntime (rt : Runtime) : Type 0 where
  pub digest_length : (bytes : List ℕ) → length (rt.digest bytes) ≡ 32
  pub digest_bytes : (bytes : List ℕ) → All (λ b. b < 256) (rt.digest bytes)
  pub random_length : (call : ℕ) → length (rt.random_bytes call) ≡ 24
  pub random_are_bytes : (call : ℕ) → All (λ b. b < 256) (rt.random_bytes call)
  pub binds_text : (s : Text) → rt.bind_text (str s) ≡ some s
  pub binds_integer : (n : Number) → rt.bind_integer (num n) ≡ some n
