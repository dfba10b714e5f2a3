-- ===== src/Scripts/Toml/Update.antt =====
-- What `updateWranglerToml` does to a wrangler.toml with the two keys of the database, the name
-- first, with any white space around their signs, and with other lines before, between and behind.
use mathlib.Core.List.{append_assoc}
use vpn_register_kit.Prelude.{
  ℕ, ◌≡◌, refl, sym, ap, ◌∙◌, true, false, [], ◌∷◌, ◌++◌, some, Text, codes, all, includes_unit,
  is_space, trim_start, arith,
}
use vpn_register_kit.Scripts.Toml.{
  match_here, strip, ends_line, replace_from, assignment, replace_value, name_key, id_key, Parsed,
  updated_toml,
}
use vpn_register_kit.Scripts.Toml.ReadBack.{
  IsPlain, strip_front, until_quote_value, replace_miss, replace_hit,
}
use vpn_register_kit.Scripts.Toml.Binding.{
  opens, layout, one_line, IsEntry, replace_head, name_line, name_line-one_line, id_elsewhere,
  assignment_literal,
}

-- A key with a quoted value, white space around the sign, and what follows.
abbrev pub spaced : Text → Text → Text → Text → Text → Text
spaced key before behind value rest =
    key ++ (before ++ b'=' ∷ (behind ++ b'"' ∷ (value ++ b'"' ∷ rest)))

trim_start-append :
    (s t : Text) (c : ℕ)
    → all is_space s ≡ true
    → is_space c ≡ false
    → trim_start (s ++ c ∷ t) ≡ c ∷ t
unfolding trim_start
trim_start-append [] t c h other = rw other
trim_start-append (a ∷ s) t c h other =
    let first : is_space a ≡ true = ground arith in
    rw (first, trim_start-append s t c (ground arith) other)

match_here-spaced :
    (key before behind value rest : Text)
    → all is_space before ≡ true
    → all is_space behind ≡ true
    → includes_unit value b'"' ≡ false
    → match_here key (spaced key before behind value rest)
      ≡ some (record { value = value; rest = rest })
unfolding match_here strip codes is_space
match_here-spaced key before behind value rest h i unquoted = rw (
  strip_front key,
  trim_start-append before _ b'=' h refl,
  trim_start-append behind _ b'"' i refl,
  until_quote_value value rest unquoted,
)

opens-append : (s t : Text) → one_line s ≡ true → opens false t ≡ true → opens false (s ++ t) ≡ true
opens-append [] t h i = i
opens-append (c ∷ s) t h i =
    let e : ends_line c ≡ false = ground arith in rw e (opens-append s t (ground arith) i)

-- Spaces around a sign, none or some.
abbrev pub AreSpaces : Text → Text → Type 0
AreSpaces before behind = (all is_space before ≡ true) × (all is_space behind ≡ true)

module _ (head middle tail : Text) (start : opens true head ≡ true)
    (between : opens false middle ≡ true) where
  name_set :
      (before behind old name rest : Text)
      → AreSpaces before behind
      → includes_unit old b'"' ≡ false
      → IsPlain name
      → replace_value name_key name (head ++ spaced name_key before behind old rest)
        ≡ head ++ (assignment name_key name ++ rest)
  unfolding replace_value codes includes_unit
  name_set before behind old name rest (h, i) unquoted plain =
      replace_head (codes "atabase_name") _ head _ _ [] true start λ passed.
        replace_hit name_key true b'd' _ (assignment name_key name) passed
          (record { value = old; rest = rest })
          (match_here-spaced name_key before behind old rest h i unquoted)
          (assignment_literal name_key name refl plain)

  id_set :
      (before behind old name id : Text)
      → AreSpaces before behind
      → includes_unit old b'"' ≡ false
      → IsEntry name
      → IsPlain id
      → replace_value id_key id
          (head ++ (assignment name_key name ++ (middle ++ spaced id_key before behind old tail)))
        ≡ head ++ (assignment name_key name ++ (middle ++ (assignment id_key id ++ tail)))
  unfolding replace_value codes assignment includes_unit
  id_set before behind old name id (h, i) unquoted entry plain =
      let line = name_line name ++ middle in
      let opened : opens false line ≡ true =
        opens-append (name_line name) middle (name_line-one_line name entry.single) between in
      replace_head (codes "atabase_id") _ head _ _ [] true start λ passed.
        replace_miss id_key true b'd' _ (assignment id_key id) passed
          (id_elsewhere name (middle ++ spaced id_key before behind old tail))
        ∙ ap (λ t. b'd' ∷ t)
            (ap (replace_from id_key (assignment id_key id) (b'd' ∷ passed) false)
                (sym (append_assoc (name_line name) middle (spaced id_key before behind old tail)))
              ∙ replace_head (codes "atabase_id") _ line _ _ (b'd' ∷ passed) false opened (λ passed.
                replace_hit id_key true b'd' _ (assignment id_key id) passed
                  (record { value = old; rest = tail })
                  (match_here-spaced id_key before behind old tail h i unquoted)
                  (assignment_literal id_key id refl plain))
              ∙ append_assoc (name_line name) middle (assignment id_key id ++ tail))

  -- In a wrangler.toml with a quoted value of `database_name` and, on a later line, one of
  -- `database_id`, each at the start of its line with any white space around its sign, and no other
  -- line that starts with `d` before them or between them, `updateWranglerToml` rewrites the two
  -- assignments, each as `key = "value"`, and keeps all other text: what is before, between and
  -- behind them. The new values are without quotes and dollar signs, and the name is on one line.
  pub updated_toml_lem :
      (before behind before' behind' old_name old_id name id : Text)
      → AreSpaces before behind
      → AreSpaces before' behind'
      → includes_unit old_name b'"' ≡ false
      → includes_unit old_id b'"' ≡ false
      → IsEntry name
      → IsPlain id
      → updated_toml
          (head
            ++ spaced name_key before behind old_name
                (middle ++ spaced id_key before' behind' old_id tail))
          name
          id
        ≡ head ++ (assignment name_key name ++ (middle ++ (assignment id_key id ++ tail)))
  unfolding updated_toml
  updated_toml_lem before behind before' behind' old_name old_id name id h h' u u' entry plain =
      ap (replace_value id_key id) (
        name_set before behind old_name name (middle ++ spaced id_key before' behind' old_id tail) h
          u entry.plain)
      ∙ id_set before' behind' old_id name id h' u' entry plain

assignment-spaced :
    (key value rest : Text)
    → assignment key value ++ rest ≡ spaced key (codes " ") (codes " ") value rest
unfolding assignment codes
assignment-spaced key value rest =
    append_assoc key _ rest
    ∙ ap (λ t. key ++ (codes " = \"" ++ t)) (append_assoc value (codes "\"") rest)

-- The two values of a file that already has its keys in the spelling of the script are replaced.
pub updated_layout :
    (head tail : Text)
    → opens true head ≡ true
    → (old new : Parsed) → includes_unit old.database_name b'"' ≡ false
    → includes_unit old.database_id b'"' ≡ false
    → IsEntry new.database_name
    → IsPlain new.database_id
    → updated_toml (layout head old tail) new.database_name new.database_id ≡ layout head new tail
unfolding layout codes is_space
updated_layout head tail start old new name_unquoted id_unquoted name id =
    ap (λ t. updated_toml t new.database_name new.database_id)
      (λ i.
        head
        ++ assignment-spaced name_key old.database_name
            (10 ∷ assignment-spaced id_key old.database_id tail i) i)
    ∙ updated_toml_lem head (codes "\n") tail start refl (codes " ") (codes " ") (codes " ")
        (codes " ") old.database_name old.database_id new.database_name new.database_id (refl, refl)
        (refl, refl) name_unquoted id_unquoted name id
