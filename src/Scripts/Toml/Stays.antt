-- ===== src/Scripts/Toml/Stays.antt =====
-- Where a key of wrangler.toml does not match, as deploy-interactive.js looks for it: what stands
-- behind a later start of the key does not matter.
use vpn_register_kit.Prelude.{
  ℕ, ◌≡◌, refl, sym, ap, ◌∙◌, ◌⊎◌, inl, inr, Bool, true, false, ◌&&◌, ◌||◌, [], ◌∷◌, ◌++◌, Option,
  none, some, Text, codes, includes_unit, is_space, trim_start, arith, Bool-cases, ◌==◌,
  if◌then◌else◌,
}
use vpn_register_kit.Scripts.Toml.{strip, Match, until_quote, and_then, match_here}

-- The two units stand next to each other, in this order.
unfoldable pub has_pair : ℕ → ℕ → Text → Bool
has_pair d a [] = false
has_pair d a (x ∷ []) = false
has_pair d a (x ∷ y ∷ s) = ((x == d) && (y == a)) || has_pair d a (y ∷ s)

-- What `f` does in front of the units d and a does not depend on what follows them: it fails, it
-- stops before them, or between them.
data Passes (d a : ℕ) (f : Text → Option Text) (u : Text) : Type 0 where
  stuck : ((y : Text) → f (u ++ d ∷ a ∷ y) ≡ none) → Passes d a f u
  moved : (u' : Text) → ((y : Text) → f (u ++ d ∷ a ∷ y) ≡ some (u' ++ d ∷ a ∷ y)) → Passes d a f u
  between : ((y : Text) → f (u ++ d ∷ a ∷ y) ≡ some (a ∷ y)) → Passes d a f u

includes-later : (c a : ℕ) (s : Text) → includes_unit s c ≡ true → includes_unit (a ∷ s) c ≡ true
unfolding includes_unit
includes-later c a s h = ground arith

has_pair-later :
    (d a k : ℕ) (key : Text) → has_pair d a (k ∷ key) ≡ false → has_pair d a key ≡ false
unfolding has_pair
has_pair-later d a k [] h = refl
has_pair-later d a k (x ∷ key) h = ground arith

strip-Passes : (d a : ℕ) (key u : Text) → has_pair d a key ≡ false → Passes d a (strip key) u
unfolding strip has_pair
strip-Passes d a [] u h = moved u (λ y. refl)
strip-Passes d a (k ∷ []) [] h = elim (Bool-cases (k == d)) [
  | inl same ↦ between (λ y. rw same)
  | inr other ↦ stuck (λ y. rw other)
]
strip-Passes d a (k ∷ k' ∷ key) [] h = elim (Bool-cases (k == d)) [
  | inl same ↦ let apart : k' == a ≡ false = ground arith in stuck (λ y. rw (same, apart))
  | inr other ↦ stuck (λ y. rw other)
]
strip-Passes d a (k ∷ key) (c ∷ u) h = elim (Bool-cases (k == c)) [
  | inl same ↦ elim (strip-Passes d a key u (has_pair-later d a k key h)) [
    | stuck none_ ↦ stuck (λ y. rw (same, none_ y))
    | moved u' to ↦ moved u' (λ y. rw (same, to y))
    | between to ↦ between (λ y. rw (same, to y))
  ]
  | inr other ↦ stuck (λ y. rw other)
]

trim_start-passes :
    (d : ℕ) (u : Text)
    → is_space d ≡ false
    → (u' : Text) × ((y : Text) → trim_start (u ++ d ∷ y) ≡ u' ++ d ∷ y)
unfolding trim_start
trim_start-passes d [] h = ([], λ y. rw h)
trim_start-passes d (c ∷ u) h = elim (Bool-cases (is_space c)) [
  | inl space ↦ let (u', to) = trim_start-passes d u h in (u', λ y. rw (space, to y))
  | inr other ↦ (c ∷ u, λ y. rw other)
]

pub quote_found :
    (u y : Text) → includes_unit y b'"' ≡ true → (m : Match) × (until_quote (u ++ y) ≡ some m)
unfolding until_quote includes_unit
quote_found [] [] h = cc
quote_found [] (c ∷ y) h = elim (Bool-cases (c == b'"')) [
  | inl quote ↦ (record { value = []; rest = y }, rw quote)
  | inr other ↦
      let (m, found) = quote_found [] y (ground arith) in
      (record { value = c ∷ m.value; rest = m.rest }, rw (other, found))
]
quote_found (c ∷ u) y h = elim (Bool-cases (c == b'"')) [
  | inl quote ↦ (record { value = []; rest = u ++ y }, rw quote)
  | inr other ↦
      let (m, found) = quote_found u y h in
      (record { value = c ∷ m.value; rest = m.rest }, rw (other, found))
]

pub none-some : {m : Match} → ◌≡◌ {A = Option Match} none (some m) → ⊥
none-some e = cc

pub Option-cases {ℓ} : {A : Type ℓ} (o : Option A) → (o ≡ none) ⊎ ((a : A) × (o ≡ some a))
Option-cases none = inl refl
Option-cases (some a) = inr (a, refl)

pub and_then-some :
    {A B : Type 0} (o : Option A) (f : A → Option B) {b : B}
    → and_then o f ≡ some b
    → (a : A) × (o ≡ some a) × (f a ≡ some b)
and_then-some none f h = absurd (cc)
and_then-some (some a) f h = (a, refl, h)

pub unit_match :
    (d : ℕ) (key : Text) (c : ℕ) (s : Text)
    → match_here (d ∷ key) (c ∷ s) ≡ (if d == c then match_here key s else none)
unfolding match_here strip
unit_match d key c s = elim (Bool-cases (d == c)) [ inl same ↦ rw same | inr other ↦ rw other ]

-- A key starts with the units d and a, which it has next to each other nowhere else; neither is
-- white space, a sign or a quote.
pub record IsKey (d a : ℕ) (key : Text) : Type 0 where
  pub once : has_pair d a (a ∷ key) ≡ false
  pub no_space : is_space d ≡ false
  pub a_no_space : is_space a ≡ false
  pub no_sign : b'=' == d ≡ false
  pub a_no_sign : b'=' == a ≡ false
  pub no_quote : b'"' == d ≡ false

module _ (d a : ℕ) (key : Text) (k : IsKey d a key) where
  strip_unit :
      (c : ℕ) (u : Text)
      → c == d ≡ false
      → ((y : Text) → strip (c ∷ []) (u ++ d ∷ a ∷ y) ≡ none)
        ⊎ ((u' : Text) × ((y : Text) → strip (c ∷ []) (u ++ d ∷ a ∷ y) ≡ some (u' ++ d ∷ a ∷ y)))
  unfolding strip
  strip_unit c [] h = inl (λ y. rw h)
  strip_unit c (b ∷ u) h = elim (Bool-cases (c == b)) [
    | inl same ↦ inr (u, λ y. rw same)
    | inr other ↦ inl (λ y. rw other)
  ]

  after_a :
      (y : Text)
      → and_then
          (strip (codes "=") (trim_start (a ∷ y)))
          (λ after_sign. and_then (strip (codes "\"") (trim_start after_sign)) until_quote)
        ≡ none
  unfolding strip trim_start codes
  after_a y = rw (k.a_no_space, k.a_no_sign)

  -- Where no match starts in front of the two units, none does whatever follows them, with a quote.
  rest_stays :
      (u y y' : Text)
      → includes_unit y b'"' ≡ true
      → match_here (a ∷ key) (u ++ d ∷ a ∷ y) ≡ none
      → match_here (a ∷ key) (u ++ d ∷ a ∷ y') ≡ none
  unfolding match_here codes
  rest_stays u y y' quote h = elim (strip-Passes d a (a ∷ key) u k.once) [
    | stuck none_ ↦ rw (none_ y')
    | between to1 ↦ rw (to1 y') (after_a y')
    | moved u1 to1 ↦
        let (u2, to2) = trim_start-passes d u1 k.no_space in
        elim (strip_unit b'=' u2 k.no_sign) [
          | inl none_ ↦ rw (to1 y', to2 (a ∷ y'), none_ y')
          | inr (u3, to3) ↦
              let (u4, to4) = trim_start-passes d u3 k.no_space in
              elim (strip_unit b'"' u4 k.no_quote) [
                | inl none_ ↦ rw (to1 y', to2 (a ∷ y'), to3 y', to4 (a ∷ y'), none_ y')
                | inr (u5, to5) ↦
                    let (m, found) =
                      quote_found u5 (d ∷ a ∷ y)
                        (includes-later b'"' d (a ∷ y) (includes-later b'"' a y quote)) in
                    absurd (
                      none-some {m = m}
                        (sym h ∙ rw (to1 y, to2 (a ∷ y), to3 y, to4 (a ∷ y), to5 y, found)))
              ]
        ]
  ]

  pub unit_stays :
      (c : ℕ) (u y y' : Text)
      → includes_unit y b'"' ≡ true
      → match_here (d ∷ a ∷ key) (c ∷ (u ++ d ∷ a ∷ y)) ≡ none
      → match_here (d ∷ a ∷ key) (c ∷ (u ++ d ∷ a ∷ y')) ≡ none
  unit_stays c u y y' quote h = elim (Bool-cases (d == c)) [
    | inl same ↦
        unit_match d (a ∷ key) c _
        ∙ rw (same, rest_stays u y y' quote (rw same at (sym (unit_match d (a ∷ key) c _) ∙ h)))
    | inr other ↦ unit_match d (a ∷ key) c _ ∙ rw other
  ]

strip-includes :
    (key s r : Text) (c : ℕ)
    → strip key s ≡ some r
    → includes_unit r c ≡ true
    → includes_unit s c ≡ true
unfolding strip includes_unit
strip-includes [] s r c h i = ap (λ t. includes_unit t c) (stripped s r h) ∙ i
  where
    stripped : (s r : Text) → ◌≡◌ {A = Option Text} (some s) (some r) → s ≡ r
    stripped s r e = cc
strip-includes (k ∷ key) [] r c h i = absurd (cc)
strip-includes (k ∷ key) (a ∷ s) r c h i = elim (Bool-cases (k == a)) [
  | inl same ↦ includes-later c a s (strip-includes key s r c (rw same at h) i)
  | inr other ↦ absurd (none_text (rw other at h))
]
  where
    none_text : {r : Text} → ◌≡◌ {A = Option Text} none (some r) → ⊥
    none_text e = cc

trim_start-includes :
    (s : Text) (c : ℕ) → includes_unit (trim_start s) c ≡ true → includes_unit s c ≡ true
unfolding trim_start
trim_start-includes [] c h = h
trim_start-includes (a ∷ s) c h = elim (Bool-cases (is_space a)) [
  | inl space ↦ includes-later c a s (trim_start-includes s c (rw space at h))
  | inr other ↦ rw other at h
]

until_quote-includes : (s : Text) (m : Match) → until_quote s ≡ some m → includes_unit s b'"' ≡ true
unfolding until_quote includes_unit
until_quote-includes [] m h = absurd (cc)
until_quote-includes (c ∷ s) m h = elim (Bool-cases (c == b'"')) [
  | inl quote ↦ ground arith
  | inr other ↦ elim (Option-cases (until_quote s)) [
    | inl unfound ↦ absurd (none-some {m = m} (rw (other, unfound) at h))
    | inr (m', found) ↦ let later = until_quote-includes s m' found in ground arith
  ]
]

pub match_here-includes :
    (key s : Text) (m : Match) → match_here key s ≡ some m → includes_unit s b'"' ≡ true
unfolding match_here
match_here-includes key s m h =
    let (s1, e1, h1) = and_then-some (strip key s) _ h in
    let (s2, e2, h2) = and_then-some (strip (codes "=") (trim_start s1)) _ h1 in
    let (s3, e3, h3) = and_then-some (strip (codes "\"") (trim_start s2)) _ h2 in
    strip-includes key s s1 b'"' e1 (
      trim_start-includes s1 b'"' (
        strip-includes (codes "=") _ s2 b'"' e2 (
          trim_start-includes s2 b'"'
            (strip-includes (codes "\"") _ s3 b'"' e3 (until_quote-includes s3 m h3)))))

pub unit_starts :
    (d : ℕ) (key : Text) (c : ℕ) (s : Text) (m : Match)
    → match_here (d ∷ key) (c ∷ s) ≡ some m
    → (d ≡ c) × (match_here key s ≡ some m)
unit_starts d key c s m h = elim (Bool-cases (d == c)) [
  | inl same ↦ (ground arith, sym (rw same at (unit_match d key c s)) ∙ h)
  | inr other ↦ absurd (none-some {m = m} (sym (rw other at (unit_match d key c s)) ∙ h))
]
