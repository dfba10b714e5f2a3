-- ===== src/Db/Keys.antt =====
-- Columns of distinct keys, and what the writes of the tables do to them.
use vpn_register_kit.Prelude.{
  ◌≡◌, refl, sym, ap, ◌∙◌, Bool, false, ◌||◌, List, [], ◌∷◌, ◌++◌, Text, text_eq, text_eq_iff, any,
  select, map, arith, if_elim,
}
use mathlib.Core.Path.{ap₂}

abbrev pub contains : Text → List Text → Bool
contains k ks = any (λ j. text_eq j k) ks

abbrev pub Distinct : List Text → Type 0
Distinct [] = Unit
Distinct (k ∷ ks) = (contains k ks ≡ false) × Distinct ks

pub text_eq_comm : (s t : Text) → text_eq s t ≡ text_eq t s
text_eq_comm s t = ground (arith, text_eq_iff s t, text_eq_iff t s)

contains-append_one :
    (k j : Text) (ks : List Text) → contains k (ks ++ j ∷ []) ≡ (contains k ks || text_eq j k)
contains-append_one k j [] = ground arith
contains-append_one k j (i ∷ ks) = ground (arith, contains-append_one k j ks)

Distinct-append_one :
    (k : Text) (ks : List Text) → Distinct ks → contains k ks ≡ false → Distinct (ks ++ k ∷ [])
Distinct-append_one k [] d h = (refl, tt)
Distinct-append_one k (j ∷ ks) (fresh, d) h = (
  rw contains-append_one (ground (arith, text_eq_comm j k)),
  Distinct-append_one k ks d (ground arith),
)

module _ {ℓ} {A : Type ℓ} (key : A → Text) where
  pub any_key :
      (k : Text) (rows : List A) → any (λ r. text_eq (key r) k) rows ≡ contains k (map key rows)
  any_key k [] = refl
  any_key k (r ∷ rows) = rw (any_key k rows)

  pub map_key-append_one :
      (rows : List A) (r : A) → map key (rows ++ r ∷ []) ≡ map key rows ++ key r ∷ []
  map_key-append_one [] r = refl
  map_key-append_one (x ∷ rows) r = ap (λ ks. key x ∷ ks) (map_key-append_one rows r)

  -- A change of rows that leaves the key alone leaves the column alone.
  pub map_key-map :
      (f : A → A)
      → ((r : A) → key (f r) ≡ key r)
      → (rows : List A) → map key (map f rows) ≡ map key rows
  map_key-map f same [] = refl
  map_key-map f same (r ∷ rows) = ap₂ ◌∷◌ (same r) (map_key-map f same rows)

  contains-select :
      (p : A → Bool) (k : Text) (rows : List A)
      → contains k (map key rows) ≡ false
      → contains k (map key (select p rows)) ≡ false
  contains-select p k [] h = refl
  contains-select p k (r ∷ rows) h = ground (arith, contains-select p k rows)

  pub Distinct-select :
      (p : A → Bool) (rows : List A) → Distinct (map key rows) → Distinct (map key (select p rows))
  Distinct-select p [] d = tt
  Distinct-select p (r ∷ rows) (fresh, d) =
      if_elim (λ (l : List A). Distinct (map key l)) (p r) _ _
        (λ _. (contains-select p (key r) rows fresh, Distinct-select p rows d))
        (λ _. Distinct-select p rows d)

  -- A row whose key is new keeps the column distinct.
  pub Distinct-insert :
      (rows : List A) (r : A)
      → Distinct (map key rows)
      → any (λ x. text_eq (key x) (key r)) rows ≡ false
      → Distinct (map key (rows ++ r ∷ []))
  Distinct-insert rows r d h =
      rw map_key-append_one (Distinct-append_one (key r) _ d (sym (any_key (key r) rows) ∙ h))
