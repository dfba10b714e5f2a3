-- ===== src/Scripts/Toml/ReadBack.antt =====
-- A key of wrangler.toml that deploy-interactive.js has set is read back: the replacement does not
-- make the key match any earlier than before.
use vpn_register_kit.Prelude.{
  ℕ, ◌≡◌, refl, sym, ap, ◌∙◌, inl, inr, Bool, true, false, [], ◌∷◌, ◌++◌, Option, none, some, Text,
  codes, includes_unit, trim_start, arith, ◌==◌,
}
use mathlib.Core.List.{append_assoc}
use mathlib.Core.Path.{subst}
use vpn_register_kit.Scripts.Toml.{
  strip, Match, until_quote, match_here, ends_line, at_start, find, match_value, expand,
  replace_from, assignment, replace_value, value_or_empty,
}
use vpn_register_kit.Scripts.Toml.Stays.{
  Option-cases, none-some, match_here-includes, unit_starts, IsKey, unit_stays,
}

-- What a value may not have, to be written and read back: a quote, or a pattern of `replace`.
pub record IsPlain (value : Text) : Type 0 where
  pub unquoted : includes_unit value b'"' ≡ false
  pub literal : includes_unit value b'$' ≡ false

expand-plain :
    (before matched after t : Text)
    → includes_unit t b'$' ≡ false
    → expand before matched after t ≡ t
unfolding expand includes_unit
expand-plain before matched after [] h = refl
expand-plain before matched after (c ∷ []) h = refl
expand-plain before matched after (c ∷ e ∷ t) h =
    let plain : c == b'$' ≡ false = ground arith in
    rw (plain, expand-plain before matched after (e ∷ t) (ground arith))

pub includes_unit-append :
    (s t : Text) (c : ℕ)
    → includes_unit s c ≡ false
    → includes_unit t c ≡ false
    → includes_unit (s ++ t) c ≡ false
unfolding includes_unit
includes_unit-append [] t c h i = i
includes_unit-append (a ∷ s) t c h i =
    let later = includes_unit-append s t c (ground arith) i in ground arith

pub strip_front : (key s : Text) → strip key (key ++ s) ≡ some s
unfolding strip
strip_front [] s = refl
strip_front (k ∷ key) s = let same : k == k ≡ true = ground arith in rw (same, strip_front key s)

pub until_quote_value :
    (value rest : Text)
    → includes_unit value b'"' ≡ false
    → until_quote (value ++ b'"' ∷ rest) ≡ some (record { value = value; rest = rest })
unfolding until_quote includes_unit
until_quote_value [] rest h = refl
until_quote_value (c ∷ value) rest h =
    let other : c == b'"' ≡ false = ground arith in
    rw (other, until_quote_value value rest (ground arith))

pub match_here-assignment :
    (key value rest : Text)
    → includes_unit value b'"' ≡ false
    → match_here key (assignment key value ++ rest) ≡ some (record { value = value; rest = rest })
unfolding match_here assignment strip trim_start codes
match_here-assignment key value rest h =
    rw (append_assoc key, strip_front key, append_assoc value, until_quote_value value rest h)

module _ (key : Text) (start : Bool) (c : ℕ) (s : Text) where
  pub find_miss :
      at_start start (match_here key (c ∷ s)) ≡ none
      → find key start (c ∷ s) ≡ find key (ends_line c) s
  unfolding find
  find_miss h = rw h

  pub find_hit :
      (m : Match)
      → at_start start (match_here key (c ∷ s)) ≡ some m
      → find key start (c ∷ s) ≡ some m
  unfolding find
  find_hit m h = rw h

  pub replace_miss :
      (template passed : Text)
      → at_start start (match_here key (c ∷ s)) ≡ none
      → replace_from key template passed start (c ∷ s)
        ≡ c ∷ replace_from key template (c ∷ passed) (ends_line c) s
  unfolding replace_from
  replace_miss template passed h = rw h

  pub replace_hit :
      (template passed : Text) (m : Match)
      → at_start start (match_here key (c ∷ s)) ≡ some m
      → includes_unit template b'$' ≡ false
      → replace_from key template passed start (c ∷ s) ≡ template ++ m.rest
  unfolding replace_from
  replace_hit template passed m h plain = rw (h, expand-plain _ _ _ template plain)

module _ (d a : ℕ) (key : Text) (k : IsKey d a key)
    (literal : includes_unit (d ∷ a ∷ key) b'$' ≡ false) (value : Text)
    (plain : IsPlain value) where
  -- Where the first match starts, or later, the text before it is kept.
  record IsAssigned (start : Bool) (s new : Text) : Type 0 where
    kept : Text
    old : Text
    changed : Text
    s_parts : s ≡ kept ++ d ∷ a ∷ old
    new_parts : new ≡ kept ++ d ∷ a ∷ changed
    quoted : includes_unit old b'"' ≡ true
    after : Text
    found : find (d ∷ a ∷ key) start new ≡ some (record { value = value; rest = after })

  set_later :
      (start : Bool) (c : ℕ) (s new : Text)
      → at_start start (match_here (d ∷ a ∷ key) (c ∷ s)) ≡ none
      → IsAssigned (ends_line c) s new
      → IsAssigned start (c ∷ s) (c ∷ new)
  set_later start c s new h r = record {
    kept = c ∷ r.kept;
    old = r.old;
    changed = r.changed;
    s_parts = ap (λ t. c ∷ t) r.s_parts;
    new_parts = ap (λ t. c ∷ t) r.new_parts;
    quoted = r.quoted;
    after = r.after;
    found = find_miss (d ∷ a ∷ key) start c new (still start h) ∙ r.found;
  }
    where
      still :
          (start : Bool)
          → at_start start (match_here (d ∷ a ∷ key) (c ∷ s)) ≡ none
          → at_start start (match_here (d ∷ a ∷ key) (c ∷ new)) ≡ none
      still false h = refl
      still true h =
          ap (λ t. match_here (d ∷ a ∷ key) (c ∷ t)) r.new_parts
          ∙ unit_stays d a key k c r.kept r.old r.changed r.quoted
              (ap (λ t. match_here (d ∷ a ∷ key) (c ∷ t)) (sym r.s_parts) ∙ h)

  at_start-some :
      (start : Bool) (o : Option Match) (m : Match)
      → at_start start o ≡ some m
      → (start ≡ true) × (o ≡ some m)
  at_start-some true o m h = (refl, h)
  at_start-some false o m h = absurd (none-some {m = m} h)

  template_literal : includes_unit (assignment (d ∷ a ∷ key) value) b'$' ≡ false
  unfolding assignment includes_unit codes
  template_literal =
      includes_unit-append (d ∷ a ∷ key) _ b'$' literal
        (includes_unit-append value _ b'$' plain.literal refl)

  set_after :
      (c : ℕ) (s : Text) (m : Match)
      → d ≡ c
      → match_here (a ∷ key) s ≡ some m
      → IsAssigned true (c ∷ s) (assignment (d ∷ a ∷ key) value ++ m.rest)
  unfolding assignment match_here strip
  set_after c [] m same h = absurd (none-some {m = m} h)
  set_after c (b ∷ s) m same h =
      let (same', h') = unit_starts a key b s m h in
      record {
        kept = [];
        old = s;
        changed = (key ++ (codes " = \"" ++ (value ++ codes "\""))) ++ m.rest;
        s_parts = rw (same, same');
        new_parts = refl;
        quoted = match_here-includes key s m h';
        after = m.rest;
        found =
            find_hit (d ∷ a ∷ key) true d _ _
              (match_here-assignment (d ∷ a ∷ key) value m.rest plain.unquoted);
      }

  set_here :
      (c : ℕ) (s : Text) (m : Match)
      → match_here (d ∷ a ∷ key) (c ∷ s) ≡ some m
      → IsAssigned true (c ∷ s) (assignment (d ∷ a ∷ key) value ++ m.rest)
  set_here c s m h = let (same, h1) = unit_starts d (a ∷ key) c s m h in set_after c s m same h1

  replace_set :
      (start : Bool) (s passed : Text) (m : Match)
      → find (d ∷ a ∷ key) start s ≡ some m
      → IsAssigned start s
          (replace_from (d ∷ a ∷ key) (assignment (d ∷ a ∷ key) value) passed start s)
  unfolding find replace_from
  replace_set start [] passed m h = absurd (none-some {m = m} h)
  replace_set start (c ∷ s) passed m h =
      elim (Option-cases (at_start start (match_here (d ∷ a ∷ key) (c ∷ s)))) [
        | inl missed ↦
            let r =
              replace_set (ends_line c) s (c ∷ passed) m
                (sym (find_miss (d ∷ a ∷ key) start c s missed) ∙ h) in
            subst (IsAssigned start (c ∷ s))
              (sym (replace_miss (d ∷ a ∷ key) start c s _ passed missed))
              (set_later start c s _ missed r)
        | inr (m', hit) ↦
            let (starts, here) = at_start-some start _ m' hit in
            subst
              (λ b.
                IsAssigned b (c ∷ s) (
                  replace_from (d ∷ a ∷ key) (assignment (d ∷ a ∷ key) value) passed start (c ∷ s)))
              (sym starts)
              (subst (IsAssigned true (c ∷ s))
                (sym (replace_hit (d ∷ a ∷ key) start c s _ passed m' hit template_literal))
                (set_here c s m' here))
      ]

  -- A key that has a match in the text is read back after a plain value has replaced the match; the
  -- key starts with two units that it has next to each other nowhere else.
  pub set_reads :
      (text : Text) (m : Match)
      → find (d ∷ a ∷ key) true text ≡ some m
      → match_value (replace_value (d ∷ a ∷ key) value text) (d ∷ a ∷ key) ≡ value
  unfolding match_value replace_value
  set_reads text m h = ap value_or_empty (IsAssigned.found (replace_set true text [] m h))
