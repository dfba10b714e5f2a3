-- ===== src/Renderers/Escape.antt =====
-- What the renderers escape, a reader reads back.
use vpn_register_kit.Prelude.{
  ℕ, ◌≡◌, refl, sym, ap, ◌∙◌, Bool, true, not, ◌||◌, [], ◌∷◌, ◌++◌, Option, none, some, Text, codes,
  replace_all, leb, ◌==◌, arith, if◌then◌else◌, Bool-cases, inl, inr, all,
}
use mathlib.Core.List.{append_assoc}
use vpn_register_kit.Renderers.Common.{yaml_escape, yaml_quote_text, shadowrocket_text}

abbrev put_unit : ℕ → Option (Text × Text) → Option (Text × Text)
put_unit c none = none
put_unit c (some (s, rest)) = some (c ∷ s, rest)

-- YAML 1.2, `nb-json`: a tab, or what is not a control character of ASCII.
abbrev pub is_nb_json : ℕ → Bool
is_nb_json c = (c == 9) || leb 32 c

-- YAML 1.2, `c-ns-esc-char`: what a backslash and one unit stand for; the numeric escapes are left
-- out.
unescaped : ℕ → Option ℕ
unescaped c =
    if (c == b'"') || ((c == b'\\') || ((c == b'/') || ((c == 32) || (c == 9))))
    then some c
    else if c == b'0'
    then some 0
    else if c == b'a'
    then some 7
    else if c == b'b'
    then some 8
    else if c == b't'
    then some 9
    else if c == b'n'
    then some 10
    else if c == b'v'
    then some 11
    else if c == b'f'
    then some 12
    else if c == b'r'
    then some 13
    else if c == b'e'
    then some 27
    else if c == b'N'
    then some 0x85
    else if c == b'_'
    then some 0xa0
    else if c == b'L'
    then some 0x2028
    else if c == b'P'
    then some 0x2029
    else none

abbrev put_some : Option ℕ → Option (Text × Text) → Option (Text × Text)
put_some none read = none
put_some (some c) read = put_unit c read

abbrev put_json : ℕ → Option (Text × Text) → Option (Text × Text)
put_json c read = if is_nb_json c then put_unit c read else none

-- YAML 1.2, `nb-double-one-line` and its closing quote: the text, and what follows. A line break or
-- another control character ends the reading, as no such text stands on one line.
pub read_quoted : Text → Option (Text × Text)
unfolding unescaped
read_quoted [] = none
read_quoted (c ∷ []) = if c == b'"' then some ([], []) else none
read_quoted (c ∷ d ∷ s) =
    let guarded = put_some (unescaped d) (read_quoted s) in
    let plain = put_json c (read_quoted (d ∷ s)) in
    if c == b'\\' then guarded else if c == b'"' then some ([], d ∷ s) else plain

-- The escape of one unit.
abbrev escape_unit : ℕ → Text
escape_unit c =
    if c == b'\\' then b'\\' ∷ b'\\' ∷ [] else if c == b'"' then b'\\' ∷ b'"' ∷ [] else c ∷ []

yaml_escape-cons : (c : ℕ) (t : Text) → yaml_escape (c ∷ t) ≡ escape_unit c ++ yaml_escape t
unfolding yaml_escape replace_all
yaml_escape-cons c t = ground arith

read_unit :
    (c d : ℕ) (s : Text) → read_quoted (escape_unit c ++ d ∷ s) ≡ put_json c (read_quoted (d ∷ s))
unfolding read_quoted unescaped
read_unit c d s = ground arith

-- A text that goes on has a first unit.
abbrev Begins : Text → Type 0
Begins u = (d : ℕ) × (s : Text) × (u ≡ d ∷ s)

escape_unit-Begins : (c : ℕ) (t u : Text) → Begins (escape_unit c ++ (t ++ u))
escape_unit-Begins c t u = elim (Bool-cases (c == b'\\')) [
  | inl slash ↦ (b'\\', b'\\' ∷ (t ++ u), rw slash)
  | inr other ↦ elim (Bool-cases (c == b'"')) [
    | inl quote ↦ (b'\\', b'"' ∷ (t ++ u), rw (other, quote))
    | inr plain ↦ (c, t ++ u, rw (other, plain))
  ]
]

escaped-Begins : (t rest : Text) → Begins (yaml_escape t ++ b'"' ∷ rest)
unfolding yaml_escape replace_all
escaped-Begins [] rest = (b'"', rest, refl)
escaped-Begins (c ∷ t) rest =
    let (d, s, e) = escape_unit-Begins c (yaml_escape t) (b'"' ∷ rest) in
    (
      d,
      s,
      ap (λ x. x ++ b'"' ∷ rest) (yaml_escape-cons c t)
          ∙ append_assoc (escape_unit c) (yaml_escape t) (b'"' ∷ rest)
          ∙ e,
    )

read_end : (rest : Text) → read_quoted (b'"' ∷ rest) ≡ some ([], rest)
unfolding read_quoted
read_end [] = refl
read_end (d ∷ s) = refl

-- the text, where it can stand on one line
abbrev pub one_line_only : Text → Text → Option (Text × Text)
one_line_only t rest = if all is_nb_json t then some (t, rest) else none

put_json_lem :
    (c : ℕ) (t rest : Text) → put_json c (one_line_only t rest) ≡ one_line_only (c ∷ t) rest
put_json_lem c t rest = elim (Bool-cases (is_nb_json c)) [
  | inr bad ↦ rw bad refl
  | inl fine ↦ elim (Bool-cases (all is_nb_json t)) [
    | inl one ↦ rw (fine, one) refl
    | inr not_one ↦ rw (fine, not_one) refl
  ]
]

read_escaped : (t rest : Text) → read_quoted (yaml_escape t ++ b'"' ∷ rest) ≡ one_line_only t rest
unfolding yaml_escape replace_all
read_escaped [] rest = read_end rest
read_escaped (c ∷ t) rest =
    let (d, s, e) = escaped-Begins t rest in
    ap (λ x. read_quoted (x ++ b'"' ∷ rest)) (yaml_escape-cons c t)
    ∙ ap read_quoted (append_assoc (escape_unit c) (yaml_escape t) (b'"' ∷ rest))
    ∙ ap (λ x. read_quoted (escape_unit c ++ x)) e
    ∙ read_unit c d s
    ∙ ap (λ x. put_json c (read_quoted x)) (sym e)
    ∙ ap (put_json c) (read_escaped t rest)
    ∙ put_json_lem c t rest

-- A reader of the double-quoted scalars of YAML that stand on one line.
abbrev pub read_scalar : Text → Option (Text × Text)
read_scalar [] = none
read_scalar (c ∷ s) = if c == b'"' then read_quoted s else none

-- The reader of YAML's double-quoted scalars on one line reads a quoted text back, and stops behind
-- it, exactly where the text has no control character of ASCII other than tabs; it reads nothing
-- where it has one, a line break among them.
pub read_scalar-yaml_quote_text :
    (t rest : Text)
    → read_scalar (yaml_quote_text t ++ rest) ≡ (if all is_nb_json t then some (t, rest) else none)
unfolding yaml_quote_text codes
read_scalar-yaml_quote_text t rest =
    ap read_quoted (append_assoc (yaml_escape t) (b'"' ∷ []) rest) ∙ read_escaped t rest

-- No unit that ends a field or a line of a Shadowrocket configuration.
abbrev pub is_plain_unit : ℕ → Bool
is_plain_unit c = not ((c == b',') || ((c == b'\n') || (c == b'\r')))

abbrev plain_unit : ℕ → Text
plain_unit c =
    if c == b',' then codes "%2C" else if (c == b'\n') || (c == b'\r') then [] else c ∷ []

shadowrocket_text-cons :
    (c : ℕ) (t : Text) → shadowrocket_text (c ∷ t) ≡ plain_unit c ++ shadowrocket_text t
unfolding shadowrocket_text replace_all codes
shadowrocket_text-cons c t = ground arith

shadowrocket_text-nil : shadowrocket_text [] ≡ []
unfolding shadowrocket_text replace_all
shadowrocket_text-nil = refl

-- A value of a Shadowrocket line has no comma and no line break: it can neither add a field nor a
-- line.
pub shadowrocket_text_plain : (t : Text) → all is_plain_unit (shadowrocket_text t) ≡ true
unfolding codes
shadowrocket_text_plain [] = rw shadowrocket_text-nil
shadowrocket_text_plain (c ∷ t) =
    let rest = shadowrocket_text_plain t in rw (shadowrocket_text-cons c t) (ground arith)
