-- ===== src/Auth/Bearer.antt =====
-- `bearerToken` and `requireAdmin`: who the admin is.
use vpn_register_kit.Prelude.{
  ◌≡◌, refl, sym, ap, ◌∙◌, ◌↔◌, true, false, Option, none, some, Text, text_eq, text_eq_iff,
  is_empty, arith,
}
use vpn_register_kit.Http.{Request}
use vpn_register_kit.Auth.{bearer_token, require_admin}

-- The admin is who bears the secret, where one is set that is not empty.
pub require_admin_iff :
    (request : Request) (admin_token : Option Text)
    → (require_admin request admin_token ≡ true) ↔ (
        (secret : Text) × (admin_token ≡ some secret)
        × (is_empty secret ≡ false)
        × (bearer_token request ≡ secret))
unfolding require_admin
require_admin_iff request none = (λ h. cc, λ (s, e, given, same). cc)
require_admin_iff request (some secret) = (
  λ h. (secret, refl, ground arith, (text_eq_iff (bearer_token request) secret).0 (ground arith)),
  λ (s, e, given, same).
      let e' : s ≡ secret = ground arith in
      let b : text_eq (bearer_token request) secret ≡ true =
        (text_eq_iff (bearer_token request) secret).1 (same ∙ e') in
      let g : is_empty secret ≡ false = ap is_empty (sym e') ∙ given in ground arith,
)
