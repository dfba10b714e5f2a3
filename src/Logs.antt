-- ===== src/Logs.antt =====
-- cloudflare-registry/src/logs.js
use vpn_register_kit.Prelude.{
  Bool, true, false, List, [], ◌∷◌, ◌++◌, Text, codes, join, trim, is_empty, not, if◌then◌else◌,
}
use vpn_register_kit.Js.Value.{Value, undefined, str}
use vpn_register_kit.Js.Json.{stringify}
use vpn_register_kit.Http.{Request, header}
use vpn_register_kit.Act.{Act, print}

pub record Meta : Type 0 where
  pub remote_ip : Text
  pub user_agent : Text

unfoldable pub request_meta : Request → Meta
request_meta request = record {
  remote_ip = header request (codes "cf-connecting-ip");
  user_agent = header request (codes "user-agent");
}

-- `value !== undefined && value !== ""`
abbrev is_shown : Value → Bool
is_shown undefined = false
is_shown (str s) = not (is_empty s)
is_shown _ = true

field_texts : List (Text × Value) → List Text
field_texts [] = []
field_texts ((key, value) ∷ fields) =
    let rest = field_texts fields in
    if is_shown value then (key ++ (codes "=" ++ stringify value)) ∷ rest else rest

pub format_fields : List (Text × Value) → Text
unfolding field_texts
format_fields fields = join (codes " ") (field_texts fields)

log_line : Text → Text → List (Text × Value) → Text
unfolding format_fields
log_line level message fields = trim (level ++ (message ++ (codes " " ++ format_fields fields)))

unfoldable pub log_info : Text → List (Text × Value) → Act (Unit {0})
unfolding log_line
log_info message fields = print (log_line (codes "[INFO] ") message fields)

unfoldable pub log_warn : Text → List (Text × Value) → Act (Unit {0})
unfolding log_line
log_warn message fields = print (log_line (codes "[WARN] ") message fields)

unfoldable pub log_error : Text → List (Text × Value) → Act (Unit {0})
unfolding log_line
log_error message fields = print (log_line (codes "[ERROR] ") message fields)
