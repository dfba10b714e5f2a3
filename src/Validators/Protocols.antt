-- ===== src/Validators/Protocols.antt =====
-- What `validateProtocol` of validators.js accepts, in words.
use vpn_register_kit.Prelude.{
  ℕ, ◌≤◌, ◌≡◌, refl, ap, ◌∙◌, ◌↔◌, ◌⊎◌, inl, inr, true, false, not, List, [], ◌∷◌, Option, Text,
  codes, All, arith, Bool-cases, if◌then◌else◌, is_empty,
}
use vpn_register_kit.Js.Number.{Number, natural, is_integer, below_natural, exceeds_natural}
use vpn_register_kit.Js.Value.{
  Value, undefined, null, bool, num, str, arr, obj, truthy, get, is_text, to_string,
}
use vpn_register_kit.Js.Result.{Result, ok, throw_if, >>=-eq-ok}
use vpn_register_kit.Validators.{
  is_valid_host, valid_port, bad_sni, reject_type, validate_trojan, validate_shadowsocks,
  validate_protocol, validate_protocols,
}
use vpn_register_kit.Validators.Hosts.{Has, IsHost, is_valid_host_iff}

-- A natural number from 1 to 65535.
abbrev pub IsPort : Value → Type 0
IsPort v = (k : ℕ) × (v ≡ num (natural k)) × (1 ≤ k) × (k ≤ 65535)

natural_path : (n : Number) → n.negative ≡ false → n.fraction ≡ [] → n ≡ natural n.whole
natural_path n e f = λ i. record { negative = e i; whole = n.whole; fraction = f i }

is_empty_eq : (s : Text) → is_empty s ≡ true → s ≡ []
is_empty_eq [] h = refl
is_empty_eq (c ∷ s) h = cc

valid_port_sound : (v : Value) → valid_port v ≡ true → IsPort v
unfolding is_integer below_natural exceeds_natural
valid_port_sound (num n) h =
    let whole : n.fraction ≡ [] = is_empty_eq n.fraction (ground arith) in
    (n.whole, ap num (natural_path n (ground arith) whole), ground arith, ground arith)
valid_port_sound undefined h = cc
valid_port_sound null h = cc
valid_port_sound (bool b) h = cc
valid_port_sound (str s) h = cc
valid_port_sound (arr vs) h = cc
valid_port_sound (obj fs) h = cc

valid_port_complete : (v : Value) → IsPort v → valid_port v ≡ true
unfolding is_integer below_natural exceeds_natural
valid_port_complete v (k, e, low, high) = rw e (ground arith)

module _ (number_of : Text → Option Number) where
  -- No server name, or a host.
  abbrev pub IsServerName : Value → Type 0
  IsServerName sni = (truthy sni ≡ false) ⊎ IsHost number_of sni

  bad_sni_sound : (sni : Value) → bad_sni number_of sni ≡ ok false → IsServerName sni
  unfolding bad_sni
  bad_sni_sound sni h = elim (Bool-cases (truthy sni)) [
    | inr falsy ↦ inl falsy
    | inl given ↦
        let (valid, checked, h') = >>=-eq-ok (is_valid_host number_of sni) _ (rw given at h) in
        inr ((is_valid_host_iff number_of sni).0 (ground arith))
  ]

  bad_sni_complete : (sni : Value) → IsServerName sni → bad_sni number_of sni ≡ ok false
  unfolding bad_sni
  bad_sni_complete sni (inl falsy) = rw falsy
  bad_sni_complete sni (inr host) = rw (host.given, (is_valid_host_iff number_of sni).1 host)

  pub record IsTrojan (v : Value) : Type 0 where
    pub password : Value
    pub has_password : Has v (codes "password") password
    pub password_given : truthy password ≡ true
    pub sni : Value
    pub has_sni : Has v (codes "sni") sni
    pub sni_valid : IsServerName sni

  pub record IsShadowsocks (v : Value) : Type 0 where
    pub method : Value
    pub has_method : Has v (codes "method") method
    pub method_given : truthy method ≡ true
    pub password : Value
    pub has_password : Has v (codes "password") password
    pub password_given : truthy password ≡ true

  -- A port, and the fields of one of the two known types.
  pub record IsProtocol (v : Value) : Type 0 where
    pub port : Value
    pub has_port : Has v (codes "port") port
    pub port_valid : IsPort port
    pub type : Value
    pub has_type : Has v (codes "type") type
    pub fields :
        ((is_text type (codes "trojan") ≡ true) × IsTrojan v)
        ⊎ ((is_text type (codes "trojan") ≡ false)
            × (is_text type (codes "shadowsocks") ≡ true)
            × IsShadowsocks v)

  validate_trojan_sound : (v : Value) → validate_trojan number_of v ≡ ok tt → IsTrojan v
  unfolding validate_trojan
  validate_trojan_sound v h =
      let (password, has_password, h1) = >>=-eq-ok (get v (codes "password")) _ h in
      let (_, given, h2) = >>=-eq-ok (throw_if (not (truthy password)) _) _ h1 in
      let (sni, has_sni, h3) = >>=-eq-ok (get v (codes "sni")) _ h2 in
      let (bad, checked, h4) = >>=-eq-ok (bad_sni number_of sni) _ h3 in
      let fine : bad ≡ false = ground arith in
      record {
        password = password;
        has_password = has_password;
        password_given = ground arith;
        sni = sni;
        has_sni = has_sni;
        sni_valid = bad_sni_sound sni (checked ∙ ap ok fine);
      }

  validate_trojan_complete : (v : Value) → IsTrojan v → validate_trojan number_of v ≡ ok tt
  unfolding validate_trojan
  validate_trojan_complete v t =
      rw (t.has_password, t.password_given, t.has_sni, bad_sni_complete t.sni t.sni_valid)

  validate_shadowsocks_sound :
      (v : Value) → validate_shadowsocks number_of v ≡ ok tt → IsShadowsocks v
  unfolding validate_shadowsocks
  validate_shadowsocks_sound v h =
      let (method, has_method, h1) = >>=-eq-ok (get v (codes "method")) _ h in
      let (password, has_password, h2) = >>=-eq-ok (get v (codes "password")) _ h1 in
      record {
        method = method;
        has_method = has_method;
        method_given = ground arith;
        password = password;
        has_password = has_password;
        password_given = ground arith;
      }

  validate_shadowsocks_complete :
      (v : Value) → IsShadowsocks v → validate_shadowsocks number_of v ≡ ok tt
  unfolding validate_shadowsocks
  validate_shadowsocks_complete v t =
      rw (t.has_method, t.has_password, t.method_given, t.password_given)

  reject_type_throws :
      (prefix : Text) (type : Value) → reject_type number_of prefix type ≡ ok tt → ⊥
  unfolding reject_type
  reject_type_throws prefix type h =
      let (name, _, h') = >>=-eq-ok (to_string type) _ h in ground arith

  abbrev Fields : Value → Value → Type 0
  Fields v type =
      ((is_text type (codes "trojan") ≡ true) × IsTrojan v)
      ⊎ ((is_text type (codes "trojan") ≡ false)
          × (is_text type (codes "shadowsocks") ≡ true)
          × IsShadowsocks v)

  -- The code behind the two reads of `validateProtocol`.
  abbrev judge : Value → Value → Value → Result (Unit {0})
  judge v port type =
      if not (valid_port port)
      then reject_type number_of (codes "invalid port for ") type
      else if is_text type (codes "trojan")
      then validate_trojan number_of v
      else if is_text type (codes "shadowsocks")
      then validate_shadowsocks number_of v
      else reject_type number_of (codes "unsupported protocol ") type

  judge_sound :
      (v port type : Value) → judge v port type ≡ ok tt → (valid_port port ≡ true) × Fields v type
  judge_sound v port type h = elim (Bool-cases (valid_port port)) [
    | inr bad ↦ absurd (reject_type_throws _ type (rw bad at h))
    | inl fine ↦ elim (Bool-cases (is_text type (codes "trojan"))) [
      | inl trojan ↦ (fine, inl (trojan, validate_trojan_sound v (rw (fine, trojan) at h)))
      | inr other ↦ elim (Bool-cases (is_text type (codes "shadowsocks"))) [
        | inl shadowsocks ↦ (
          fine,
          inr (
            other,
            shadowsocks,
            validate_shadowsocks_sound v (rw (fine, other, shadowsocks) at h),
          ),
        )
        | inr unknown ↦ absurd (reject_type_throws _ type (rw (fine, other, unknown) at h))
      ]
    ]
  ]

  judge_complete :
      (v port type : Value) → valid_port port ≡ true → Fields v type → judge v port type ≡ ok tt
  judge_complete v port type fine (inl (trojan, t)) =
      rw (fine, trojan) (validate_trojan_complete v t)
  judge_complete v port type fine (inr (other, shadowsocks, t)) =
      rw (fine, other, shadowsocks) (validate_shadowsocks_complete v t)

  -- `validateProtocol` returns exactly on the protocols.
  pub validate_protocol_iff : (v : Value) → (validate_protocol number_of v ≡ ok tt) ↔ IsProtocol v
  unfolding validate_protocol
  validate_protocol_iff v = (
    λ h.
        let (port, has_port, h1) = >>=-eq-ok (get v (codes "port")) _ h in
        let (type, has_type, h2) = >>=-eq-ok (get v (codes "type")) _ h1 in
        let (fine, fields) = judge_sound v port type h2 in
        record {
          port = port;
          has_port = has_port;
          port_valid = valid_port_sound port fine;
          type = type;
          has_type = has_type;
          fields = fields;
        },
    λ p.
        rw (p.has_port, p.has_type)
          (judge_complete v p.port p.type (valid_port_complete p.port p.port_valid) p.fields),
  )

  -- The loop returns exactly where every element is a protocol.
  pub validate_protocols_iff :
      (vs : List Value) → (validate_protocols number_of vs ≡ ok tt) ↔ All IsProtocol vs
  unfolding validate_protocols
  validate_protocols_iff [] = (λ h. tt, λ h. refl)
  validate_protocols_iff (v ∷ vs) = (
    λ h.
        let (_, first_ok, rest) = >>=-eq-ok (validate_protocol number_of v) _ h in
        ((validate_protocol_iff v).0 first_ok, (validate_protocols_iff vs).0 rest),
    λ (p, ps). rw ((validate_protocol_iff v).1 p) ((validate_protocols_iff vs).1 ps),
  )
