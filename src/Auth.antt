-- ===== src/Auth.antt =====
-- cloudflare-registry/src/auth.js
pub mod Hex
pub mod Hint
pub mod Bearer
use vpn_register_kit.Prelude.{
  ℕ, ◌+◌, ◌-◌, ◌/◌, ◌%◌, Bool, true, false, not, ◌&&◌, List, [], ◌∷◌, ◌++◌, Option, none, some,
  Text, String, codes, text_eq, starts_with, trim, is_empty, length, take, drop, replicate, ltb,
  leb, if◌then◌else◌,
}
use vpn_register_kit.Js.Json.{hex_digit}
use vpn_register_kit.Js.Utf8.{utf8}
use vpn_register_kit.Runtime.{Runtime}
use vpn_register_kit.Http.{Request, header}

-- `byte.toString(16)` of a byte
abbrev to_string_16 : ℕ → Text
to_string_16 b = if ltb b 16 then hex_digit b ∷ [] else hex_digit (b / 16) ∷ hex_digit (b % 16) ∷ []

-- `t.padStart(n, "0")`
abbrev pad_start : ℕ → Text → Text
pad_start n t = replicate (n - length t) b'0' ++ t

pub hex_byte : ℕ → Text
hex_byte b = pad_start 2 (to_string_16 b)

pub hex : List ℕ → Text
unfolding hex_byte
hex [] = []
hex (b ∷ bs) = hex_byte b ++ hex bs

unfoldable pub hash_token : Runtime → Text → Text
unfolding hex utf8
hash_token rt token = hex (rt.digest (utf8 token))

-- `t.slice(-n)`
abbrev pub slice_last : ℕ → Text → Text
slice_last n t = drop (length t - n) t

unfoldable pub token_hint : Text → Text
token_hint token =
    if is_empty token
    then codes "<empty>"
    else if leb (length token) 8
    then replicate (length token) b'*'
    else take 4 token ++ (codes "..." ++ slice_last 4 token)

unfoldable pub bearer_token : Request → Text
bearer_token request =
    let value = header request (codes "authorization") in
    if starts_with value (codes "Bearer ") then trim (drop 7 value) else []

-- `env.ADMIN_TOKEN` is none where the secret is not set.
unfoldable pub require_admin : Request → Option Text → Bool
unfolding bearer_token
require_admin request none = false
require_admin request (some admin_token) =
    not (is_empty admin_token) && text_eq (bearer_token request) admin_token

-- The random bytes are those of the numbered call.
unfoldable pub random_token : Runtime → ℕ → Text
unfolding hex
random_token rt call = hex (rt.random_bytes call)
