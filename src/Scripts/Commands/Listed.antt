-- ===== src/Scripts/Commands/Listed.antt =====
-- A list that the Worker answers, as list-tokens.js and list-nodes.js print it.
use vpn_register_kit.Prelude.{
  ◌≡◌, refl, ap, false, List, [], ◌∷◌, ◌++◌, Text, codes, text_eq_iff, is_empty,
}
use vpn_register_kit.Js.Value.{
  Value, arr, obj, Items, end, field, items, elements, get, own_field, or_else, truthy,
}
use vpn_register_kit.Js.Json.{stringify}
use vpn_register_kit.Js.Result.{Result, ok}
use vpn_register_kit.Renderers.Common.{iterate}
use vpn_register_kit.Http.{json}
use vpn_register_kit.Scripts.Commands.{print_each, list_lines}

-- Each value has its line.
abbrev pub Lined : (Value → Result Text) → List Value → List Text → Type 0
Lined line [] [] = Unit {0}
Lined line (v ∷ vs) (t ∷ ts) = (line v ≡ ok t) × Lined line vs ts
Lined line _ _ = ⊥

print_each_lem :
    (line : Value → Result Text) (vs : List Value) (ts : List Text)
    → Lined line vs ts
    → print_each line vs ≡ record { lines = ts; result = ok tt }
unfolding print_each
print_each_lem line [] [] h = refl
print_each_lem line (v ∷ vs) (t ∷ ts) (here, later) = rw (here, print_each_lem line vs ts later)
print_each_lem line [] (t ∷ ts) h = absurd h
print_each_lem line (v ∷ vs) [] h = absurd h

pub elements-items : (vs : List Value) → elements (items vs) ≡ vs
unfolding elements items
elements-items [] = refl
elements-items (v ∷ vs) = ap (λ ws. v ∷ ws) (elements-items vs)

-- A list that the Worker answers is printed under its heading.
pub list_lines_lem :
    (heading key : Text) (line : Value → Result Text) (vs : Items) (ts : List Text)
    → Lined line (elements vs) ts
    → list_lines heading key line (obj (field key (arr vs) end))
      ≡ record { lines = heading ∷ ts; result = ok tt }
unfolding list_lines get own_field or_else truthy iterate
list_lines_lem heading key line vs ts h =
    rw ((text_eq_iff key key).1 refl, print_each_lem line (elements vs) ts h)

pub append-is_empty : (s t : Text) → is_empty t ≡ false → is_empty (s ++ t) ≡ false
append-is_empty [] t h = h
append-is_empty (c ∷ s) t h = refl

pub json-is_empty : (v : Value) → is_empty (json v 200).body ≡ false
unfolding json codes
json-is_empty v = append-is_empty (stringify v) (codes "\n") refl
