-- ===== src/Validators/Hosts.antt =====
-- What `isValidHost` of validators.js accepts, in words.
use vpn_register_kit.Prelude.{
  ℕ, ◌≡◌, ◌↔◌, ◌⊎◌, inl, inr, Bool, true, false, Option, Text, codes, arith, Bool-cases,
}
use vpn_register_kit.Js.Number.{Number}
use vpn_register_kit.Js.Regex.{test}
use vpn_register_kit.Js.Value.{Value, truthy, get, to_string, exceeds, includes}
use vpn_register_kit.Js.Result.{Result, ok, >>=-eq-ok}
use vpn_register_kit.Validators.{ip_pattern, host_shape, is_valid_host}
use vpn_register_kit.Validators.Patterns.{IsHostName, IsDotted, host_pattern_iff, ip_pattern_iff}

-- The property k of v is x.
abbrev pub Has : Value → Text → Value → Type 0
Has v k x = get v k ≡ ok x

module _ (number_of : Text → Option Number) where
  -- The property `length` of a value is at most n, or no number.
  pub record IsShort (n : ℕ) (v : Value) : Type 0 where
    pub size : Value
    pub has_size : Has v (codes "length") size
    pub fits : exceeds number_of size n ≡ ok false

  -- An address or a host name with a dot, of at most 253 units.
  pub record IsHost (v : Value) : Type 0 where
    pub given : truthy v ≡ true
    pub short : IsShort 253 v
    pub spelling : Text
    pub spelled : to_string v ≡ ok spelling
    pub shape : IsDotted spelling ⊎ ((includes v b'.' ≡ ok true) × IsHostName spelling)

  host_shape_sound :
      (v : Value)
      → host_shape v ≡ ok true
      → (s : Text) × (to_string v ≡ ok s)
        × (IsDotted s ⊎ ((includes v b'.' ≡ ok true) × IsHostName s))
  unfolding host_shape
  host_shape_sound v h =
      let (s, spelled, h') = >>=-eq-ok (to_string v) _ h in
      elim (Bool-cases (test ip_pattern s)) [
        | inl dotted ↦ (s, spelled, inl ((ip_pattern_iff s).0 dotted))
        | inr other ↦
            let (b, has_dot, h'') = >>=-eq-ok (includes v b'.') _ (rw other at h') in
            (s, spelled, inr (ground arith, (host_pattern_iff s).0 (ground arith)))
      ]

  host_shape_complete :
      (v : Value) (s : Text)
      → to_string v ≡ ok s
      → IsDotted s ⊎ ((includes v b'.' ≡ ok true) × IsHostName s)
      → host_shape v ≡ ok true
  unfolding host_shape
  host_shape_complete v s spelled (inl dotted) = rw (spelled, (ip_pattern_iff s).1 dotted)
  host_shape_complete v s spelled (inr (dot, name)) =
      rw spelled (elim (Bool-cases (test ip_pattern s)) [
        | inl yes_ ↦ rw yes_
        | inr other ↦ rw (other, dot, (host_pattern_iff s).1 name)
      ])

  is_valid_host_sound : (v : Value) → is_valid_host number_of v ≡ ok true → IsHost v
  unfolding is_valid_host
  is_valid_host_sound v h = elim (Bool-cases (truthy v)) [
    | inr falsy ↦ let e : ◌≡◌ {A = Result Bool} (ok false) (ok true) = rw falsy at h in cc
    | inl given ↦
        let (size, has_size, h') = >>=-eq-ok (get v (codes "length")) _ (rw given at h) in
        let (long, measured, h'') = >>=-eq-ok (exceeds number_of size 253) _ h' in
        let short : long ≡ false = ground arith in
        let (s, spelled, shape) = host_shape_sound v (rw short at h'') in
        record {
          given = given;
          short = record { size = size; has_size = has_size; fits = rw (← short) measured };
          spelling = s;
          spelled = spelled;
          shape = shape;
        }
  ]

  -- `isValidHost` returns true exactly for the hosts.
  pub is_valid_host_iff : (v : Value) → (is_valid_host number_of v ≡ ok true) ↔ IsHost v
  unfolding is_valid_host
  is_valid_host_iff v = (
    is_valid_host_sound v,
    λ i.
        rw (i.given, i.short.has_size, i.short.fits)
          (host_shape_complete v i.spelling i.spelled i.shape),
  )
