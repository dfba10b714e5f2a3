-- ===== src/Scripts/Toml/Binding.antt =====
-- What deploy-interactive.js does to a wrangler.toml that has the two keys of the database on lines
-- of their own, the name first.
use vpn_register_kit.Prelude.{
  ℕ, ◌≡◌, refl, ap, ◌∙◌, Bool, true, false, not, ◌&&◌, [], ◌∷◌, ◌++◌, none, some, Text, codes, all,
  all-append, includes_unit, arith, ◌==◌,
}
use vpn_register_kit.Scripts.Toml.{
  strip, match_here, ends_line, at_start, find, match_value, replace_from, assignment,
  value_or_empty, name_key, id_key, Parsed, parsed_toml,
}
use vpn_register_kit.Scripts.Toml.Stays.{unit_match}
use vpn_register_kit.Scripts.Toml.ReadBack.{
  IsPlain, includes_unit-append, find_miss, find_hit, replace_miss, match_here-assignment,
}

-- The text ends where a line starts, and none of its lines starts with `d`.
abbrev pub opens : Bool → Text → Bool
opens start [] = start
opens start (c ∷ s) = not (start && (c == b'd')) && opens (ends_line c) s

-- `database_name = "…"` and `database_id = "…"` between what stands before and behind.
unfoldable pub layout : Text → Parsed → Text → Text
layout head binding tail =
    head
    ++ (assignment name_key binding.database_name
        ++ 10 ∷ (assignment id_key binding.database_id ++ tail))

-- No line ends inside of the text.
abbrev pub one_line : Text → Bool
one_line = all (λ c. not (ends_line c))

module _ (key : Text) where
  -- a key that starts with `d`
  abbrev full : Text
  full = b'd' ∷ key

  elsewhere :
      (start : Bool) (c : ℕ) (s : Text)
      → not (start && (c == b'd')) ≡ true
      → at_start start (match_here full (c ∷ s)) ≡ none
  elsewhere false c s h = refl
  elsewhere true c s h =
      let other : b'd' == c ≡ false = ground arith in unit_match b'd' key c s ∙ rw other

  find_head :
      (head rest : Text) (start : Bool)
      → opens start head ≡ true
      → find full start (head ++ rest) ≡ find full true rest
  find_head [] rest start h = ap (λ b. find full b rest) h
  find_head (c ∷ head) rest start h =
      find_miss full start c (head ++ rest) (elsewhere start c (head ++ rest) (ground arith))
      ∙ find_head head rest (ends_line c) (ground arith)

  find_line :
      (line rest : Text)
      → one_line line ≡ true
      → find full false (line ++ 10 ∷ rest) ≡ find full true rest
  find_line [] rest h = find_miss full false 10 rest refl
  find_line (c ∷ line) rest h =
      find_miss full false c (line ++ 10 ∷ rest) refl
      ∙ ap (λ b. find full b (line ++ 10 ∷ rest)) (let e : ends_line c ≡ false = ground arith in e)
      ∙ find_line line rest (ground arith)

  -- What precedes is left alone, whatever was passed.
  pub replace_head :
      (template head rest result passed : Text) (start : Bool)
      → opens start head ≡ true
      → ((passed : Text) → replace_from full template passed true rest ≡ result)
      → replace_from full template passed start (head ++ rest) ≡ head ++ result
  replace_head template [] rest result passed start h r =
      ap (λ b. replace_from full template passed b rest) h ∙ r passed
  replace_head template (c ∷ head) rest result passed start h r =
      replace_miss full start c (head ++ rest) template passed
        (elsewhere start c (head ++ rest) (ground arith))
      ∙ ap (λ t. c ∷ t)
          (replace_head template head rest result (c ∷ passed) (ends_line c) (ground arith) r)

  find-assignment :
      (value rest : Text)
      → includes_unit value b'"' ≡ false
      → find full true (assignment full value ++ rest)
        ≡ some (record { value = value; rest = rest })
  unfolding assignment
  find-assignment value rest unquoted =
      find_hit full true b'd' _ (record { value = value; rest = rest })
        (match_here-assignment full value rest unquoted)

-- the line of the name behind its first unit
abbrev pub name_line : Text → Text
name_line name = codes "atabase_name" ++ (codes " = \"" ++ (name ++ codes "\""))

pub name_line-one_line : (name : Text) → one_line name ≡ true → one_line (name_line name) ≡ true
unfolding codes
name_line-one_line name h = all-append (λ c. not (ends_line c)) name (codes "\"") h refl

pub id_elsewhere : (name rest : Text) → match_here id_key (b'd' ∷ (name_line name ++ rest)) ≡ none
unfolding match_here strip codes
id_elsewhere name rest = refl

-- A name or an id that can be written and read back, on one line.
pub record IsEntry (value : Text) : Type 0 where
  pub plain : IsPlain value
  pub single : one_line value ≡ true

pub assignment_literal :
    (key value : Text)
    → includes_unit key b'$' ≡ false
    → IsPlain value
    → includes_unit (assignment key value) b'$' ≡ false
unfolding assignment includes_unit codes
assignment_literal key value h plain =
    includes_unit-append key _ b'$' h (includes_unit-append value _ b'$' plain.literal refl)

module _ (head tail : Text) (start : opens true head ≡ true) where
  -- `parseWranglerToml` reads the values of the two keys.
  pub parsed_toml_lem :
      (binding : Parsed)
      → IsEntry binding.database_name
      → includes_unit binding.database_id b'"' ≡ false
      → parsed_toml (layout head binding tail) ≡ binding
  unfolding match_value layout codes assignment
  parsed_toml_lem binding name id =
      let named : match_value (layout head binding tail) name_key ≡ binding.database_name =
        (ap value_or_empty (
          find_head (codes "atabase_name") head _ true start
          ∙ find-assignment (codes "atabase_name") binding.database_name _ name.plain.unquoted)) in
      let identified : match_value (layout head binding tail) id_key ≡ binding.database_id =
        (ap value_or_empty (
          find_head (codes "atabase_id") head _ true start
          ∙ find_miss id_key true b'd' _ (id_elsewhere binding.database_name _)
          ∙ find_line (codes "atabase_id") (name_line binding.database_name) _
              (name_line-one_line binding.database_name name.single)
          ∙ find-assignment (codes "atabase_id") binding.database_id tail id)) in
      rw (named, identified)
