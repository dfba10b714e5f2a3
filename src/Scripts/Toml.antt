-- ===== src/Scripts/Toml.antt =====
-- cloudflare-registry/scripts/deploy-interactive.js: how it reads and changes a key of
-- wrangler.toml. `\s*` and `[^"]*` stop at a unit that they do not match, so that no match is
-- tried twice from one place.
pub mod Stays
pub mod ReadBack
pub mod Binding
pub mod Update
use vpn_register_kit.Prelude.{
  ℕ, zero, suc, ◌-◌, Bool, true, false, not, ◌&&◌, ◌||◌, List, [], ◌∷◌, ◌++◌, Option, none, some,
  Text, codes, is_empty, is_space, trim_start, length, take, leb, ◌==◌, if◌then◌else◌,
}
use mathlib.Core.List.{reverse}

-- what follows the text in front, where it is there
unfoldable pub strip : Text → Text → Option Text
strip [] s = some s
strip (k ∷ key) [] = none
strip (k ∷ key) (c ∷ s) = let rest = strip key s in if k == c then rest else none

-- A quoted value, and what follows its closing quote.
pub record Match : Type 0 where
  pub value : Text
  pub rest : Text

abbrev with_unit : ℕ → Match → Match
with_unit c m = record { value = c ∷ m.value; rest = m.rest }

-- `([^"]*)"`
unfoldable pub until_quote : Text → Option Match
until_quote [] = none
until_quote (c ∷ s) =
    let found = until_quote s in
    if c == b'"'
    then some (record { value = []; rest = s })
    else elim found [ none ↦ none | some m ↦ some (with_unit c m) ]

abbrev pub and_then {ℓ κ} : {A : Type ℓ} {B : Type κ} → Option A → (A → Option B) → Option B
and_then none f = none
and_then (some a) f = f a

-- `key\s*=\s*"([^"]*)"` at the start of the text
unfoldable pub match_here : Text → Text → Option Match
unfolding trim_start
match_here key s = and_then (strip key s) λ after_key.
    and_then (strip (codes "=") (trim_start after_key))
      λ after_sign. and_then (strip (codes "\"") (trim_start after_sign)) until_quote

-- The units after which `^` matches, with the flag `m`.
abbrev pub ends_line : ℕ → Bool
ends_line c = (c == 10) || (c == 13) || (c == 0x2028) || (c == 0x2029)

abbrev pub at_start : Bool → Option Match → Option Match
at_start true m = m
at_start false m = none

abbrev pub or_later : Option Match → Option Match → Option Match
or_later none later = later
or_later (some m) later = some m

-- The first match of `^key…`; the Boolean says that a line starts here.
unfoldable pub find : Text → Bool → Text → Option Match
find key start [] = none
find key start (c ∷ s) =
    let later = find key (ends_line c) s in or_later (at_start start (match_here key (c ∷ s))) later

abbrev pub value_or_empty : Option Match → Text
value_or_empty none = []
value_or_empty (some m) = m.value

-- `matchValue`
unfoldable pub match_value : Text → Text → Text
match_value text key = value_or_empty (find key true text)

-- The replacement of `replace` with its patterns: `$$`, and `$&`, "$`" and `$'` for the match and the
-- text before and after it. The expressions have no groups, so that `$1` is left as it is.
module _ (before matched after : Text) where
  abbrev meaning : ℕ → Option Text
  meaning c =
      if c == b'$'
      then some (codes "$")
      else if c == b'&'
      then some matched
      else if c == b'`'
      then some before
      else if c == 0x27
      then some after
      else none

  unfoldable pub expand : Text → Text
  expand [] = []
  expand (c ∷ []) = c ∷ []
  expand (c ∷ d ∷ t) =
      let rest = expand t in
      let literal = expand (d ∷ t) in
      if c == b'$'
      then elim (meaning d) [ none ↦ c ∷ literal | some u ↦ u ++ rest ]
      else c ∷ literal

-- the text from a match on, replaced; what precedes it comes in reverse
abbrev pub replaced_or : Text → Text → Text → Text → Option Match → Text
replaced_or unmatched template passed s none = unmatched
replaced_or unmatched template passed s (some m) =
    expand (reverse passed) (take (length s - length m.rest) s) m.rest template ++ m.rest

-- `text.replace(/^key\s*=\s*"[^"]*"/m, template)`
unfoldable pub replace_from : Text → Text → Text → Bool → Text → Text
replace_from key template passed start [] = []
replace_from key template passed start (c ∷ s) =
    let later = replace_from key template (c ∷ passed) (ends_line c) s in
    replaced_or (c ∷ later) template passed (c ∷ s) (at_start start (match_here key (c ∷ s)))

-- `${key} = "${value}"`
unfoldable pub assignment : Text → Text → Text
assignment key value = key ++ (codes " = \"" ++ (value ++ codes "\""))

unfoldable pub replace_value : Text → Text → Text → Text
replace_value key value text = replace_from key (assignment key value) [] true text

abbrev pub name_key : Text
name_key = codes "database_name"

abbrev pub id_key : Text
id_key = codes "database_id"

-- what `parseWranglerToml` reads beside the text
pub record Parsed : Type 0 where
  pub database_name : Text
  pub database_id : Text

abbrev pub parsed_toml : Text → Parsed
parsed_toml text = record {
  database_name = match_value text name_key;
  database_id = match_value text id_key;
}

-- what `updateWranglerToml` writes
unfoldable pub updated_toml : Text → Text → Text → Text
updated_toml text name id = replace_value id_key id (replace_value name_key name text)
