-- ===== src/Auth/Hint.antt =====
-- What `tokenHint` shows of a token.
use vpn_register_kit.Prelude.{
  ◌<◌, ◌≤◌, ◌≡◌, refl, true, false, [], ◌∷◌, Text, is_empty, length, take, leb, arith, ◌⊎◌, inl,
  inr,
}
use vpn_register_kit.Auth.{slice_last, token_hint}

-- Two tokens that the hint does not tell apart: they have one length of at most 8, or are both longer
-- and have the same first four and last four units.
abbrev pub Alike : Text → Text → Type 0
Alike s t =
    ((length s ≡ length t) × (length s ≤ 8))
    ⊎ ((8 < length s) × (8 < length t) × (take 4 s ≡ take 4 t) × (slice_last 4 s ≡ slice_last 4 t))

is_empty-length : (s t : Text) → length s ≡ length t → is_empty s ≡ is_empty t
is_empty-length [] [] h = refl
is_empty-length [] (c ∷ t) h = absurd (omega arith)
is_empty-length (c ∷ s) [] h = absurd (omega arith)
is_empty-length (c ∷ s) (d ∷ t) h = refl

is_empty-long : (s : Text) → 8 < length s → is_empty s ≡ false
is_empty-long [] h = absurd (omega arith)
is_empty-long (c ∷ s) h = refl

-- The hint of a token of at most 8 units shows its length alone; that of a longer one shows its
-- first four and last four units, and neither the rest nor how many there are.
pub token_hint_hides : (s t : Text) → Alike s t → token_hint s ≡ token_hint t
unfolding token_hint
token_hint_hides s t (inl (same, short)) =
    let ls : leb (length t) 8 ≡ true = ground arith in rw (is_empty-length s t same, same, ls)
token_hint_hides s t (inr (long_s, long_t, head, tail)) =
    let ls : leb (length s) 8 ≡ false = ground arith in
    let lt_ : leb (length t) 8 ≡ false = ground arith in
    rw (is_empty-long s long_s, is_empty-long t long_t, ls, lt_, head, tail)
