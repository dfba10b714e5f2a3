-- ===== src/Js/Regex/Language.antt =====
-- The language of a regular expression, and the engine decides it.
use vpn_register_kit.Prelude.{
  ℕ, zero, suc, ◌-◌, ◌≤◌, ◌≡◌, refl, sym, ap, ◌∙◌, ◌↔◌, ◌⊎◌, inl, inr, Bool, true, ◌&&◌, ◌||◌, [],
  ◌∷◌, ◌++◌, Text, is_empty, ◌==◌, arith,
}
use mathlib.Core.List.{append_assoc, append-nil}
use vpn_register_kit.Js.Regex.{
  Regex, unit, seq, repeat, Matcher, match_unit, match_times, match_with, test,
}

-- n words of P, one after the other
abbrev pub Power : (Text → Type 0) → ℕ → Text → Type 0
Power P zero w = w ≡ []
Power P (suc n) w = (u : Text) × (v : Text) × (w ≡ u ++ v) × P u × Power P n v

-- The words that a regular expression stands for.
abbrev pub Matched : Regex → Text → Type 0
Matched (unit p) w = (c : ℕ) × (w ≡ c ∷ []) × (p c ≡ true)
Matched (seq r q) w = (u : Text) × (v : Text) × (w ≡ u ++ v) × Matched r u × Matched q v
Matched (repeat lo hi r) w = (n : ℕ) × (lo ≤ n) × (n ≤ hi) × Power (Matched r) n w

-- A split of the text at which P holds of the first part and `rest` of the second.
abbrev Splits : (Text → Type 0) → Text → (Text → Bool) → Type 0
Splits P s rest = (u : Text) × (v : Text) × (s ≡ u ++ v) × P u × (rest v ≡ true)

abbrev Decides : (Text → Type 0) → Matcher → Type 0
Decides P m = (s : Text) (rest : Text → Bool) → (m s rest ≡ true) ↔ Splits P s rest

or_true : (a b : Bool) → (a || b) ≡ true → (a ≡ true) ⊎ (b ≡ true)
or_true a b h = ground arith

or_of_left : (a b : Bool) → a ≡ true → (a || b) ≡ true
or_of_left a b h = ground arith

or_of_right : (a b : Bool) → b ≡ true → (a || b) ≡ true
or_of_right a b h = ground arith

match_unit-Decides : (p : ℕ → Bool) → Decides (Matched (unit p)) (match_unit p)
unfolding match_unit
match_unit-Decides p [] rest =
    (λ h. cc, λ (u, v, e, (c, w, _), _). let e' : ◌≡◌ {A = Text} [] (c ∷ v) = rw w at e in cc)
match_unit-Decides p (c ∷ s) rest = (
  λ h. (c ∷ [], s, refl, (c, refl, ground arith), ground arith),
  λ (u, v, e, (d, w, pd), r). let e' : c ∷ s ≡ d ∷ v = rw w at e in ground arith,
)

module _ (P : Text → Type 0) (m : Matcher) (decides : Decides P m) where
  times_sound :
      (lo hi : ℕ) (s : Text) (rest : Text → Bool)
      → match_times m lo hi s rest ≡ true
      → Splits (λ w. (n : ℕ) × (lo ≤ n) × (n ≤ hi) × Power P n w) s rest
  unfolding match_times
  times_sound lo zero s rest h = ([], s, refl, (0, ground arith, ground arith, refl), ground arith)
  times_sound lo (suc hi) s rest h = elim (or_true _ _ h) [
    | inl more ↦
        let (u, v, e, pu, r) = (decides s (λ s'. match_times m (lo - 1) hi s' rest)).0 more in
        let (u', v', e', (n, low, high, pw), r') = times_sound (lo - 1) hi v rest r in
        (
          u ++ u',
          v',
          e ∙ ap (λ t. u ++ t) e' ∙ sym (append_assoc u u' v'),
          (suc n, omega arith, omega arith, (u, u', refl, pu, pw)),
          r',
        )
    | inr done ↦ ([], s, refl, (0, ground arith, ground arith, refl), ground arith)
  ]

  times_complete :
      (lo hi : ℕ) (s : Text) (rest : Text → Bool) (n : ℕ) (u v : Text)
      → s ≡ u ++ v
      → lo ≤ n
      → n ≤ hi
      → Power P n u
      → rest v ≡ true
      → match_times m lo hi s rest ≡ true
  unfolding match_times
  times_complete lo zero s rest zero u v e low high pw r =
      let e' : s ≡ v = e ∙ ap (λ t. t ++ v) pw in rw (e', r) (ground arith)
  times_complete lo zero s rest (suc n) u v e low high pw r = absurd (omega arith)
  times_complete lo (suc hi) s rest zero u v e low high pw r =
      let e' : s ≡ v = e ∙ ap (λ t. t ++ v) pw in
      or_of_right _ ((lo == 0) && rest s) (rw (e', r) (ground arith))
  times_complete lo (suc hi) s rest (suc n) u v e low high (w, w', eu, pw, pws) r = or_of_left _ _ (
      (decides s (λ s'. match_times m (lo - 1) hi s' rest)).1 (
        w,
        w' ++ v,
        e ∙ ap (λ t. t ++ v) eu ∙ append_assoc w w' v,
        pw,
        times_complete (lo - 1) hi (w' ++ v) rest n w' v refl (omega arith) (omega arith) pws r,
      ))

match_with-Decides : (r : Regex) → Decides (Matched r) (match_with r)
unfolding match_with
match_with-Decides (unit p) s rest = match_unit-Decides p s rest
match_with-Decides (seq r q) s rest = (
  λ h.
      let (u, v, e, mu, h') = (match_with-Decides r s (λ s'. match_with q s' rest)).0 h in
      let (u', v', e', mv, h'') = (match_with-Decides q v rest).0 h' in
      (
        u ++ u',
        v',
        e ∙ ap (λ t. u ++ t) e' ∙ sym (append_assoc u u' v'),
        (u, u', refl, mu, mv),
        h'',
      ),
  λ (w, v, e, (u, u', ew, mu, mv), h). (match_with-Decides r s (λ s'. match_with q s' rest)).1 (
    u,
    u' ++ v,
    e ∙ ap (λ t. t ++ v) ew ∙ append_assoc u u' v,
    mu,
    (match_with-Decides q (u' ++ v) rest).1 (u', v, refl, mv, h),
  ),
)
match_with-Decides (repeat lo hi r) s rest = (
  times_sound (Matched r) (match_with r) (match_with-Decides r) lo hi s rest,
  λ (u, v, e, (n, low, high, pw), h).
      times_complete (Matched r) (match_with r) (match_with-Decides r) lo hi s rest n u v e low high
        pw h,
)

is_empty_eq : (v : Text) → is_empty v ≡ true → v ≡ []
is_empty_eq [] h = refl
is_empty_eq (c ∷ v) h = cc

-- The engine accepts a text exactly when the whole text is a word of the expression.
pub test_iff : (r : Regex) (s : Text) → (test r s ≡ true) ↔ Matched r s
unfolding test
test_iff r s = (
  λ h.
      let (u, v, e, mu, done) = (match_with-Decides r s is_empty).0 h in
      let whole : s ≡ u = e ∙ ap (λ t. u ++ t) (is_empty_eq v done) ∙ append-nil u in rw whole mu,
  λ mu. (match_with-Decides r s is_empty).1 (s, [], sym (append-nil s), mu, refl),
)
