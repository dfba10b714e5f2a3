-- ===== src/Js/Lower.antt =====
-- `s.toLowerCase()`, unit by unit; the table of the units above 127 is a parameter.
use vpn_register_kit.Prelude.{ℕ, ◌+◌, ◌&&◌, [], ◌∷◌, ◌++◌, Text, ltb, leb, if◌then◌else◌}

pub lower_unit : (ℕ → Text) → ℕ → Text
lower_unit wide c =
    if leb b'A' c && leb c b'Z' then (c + 32) ∷ [] else if ltb c 128 then c ∷ [] else wide c

unfoldable pub to_lower_case : (ℕ → Text) → Text → Text
unfolding lower_unit
to_lower_case wide [] = []
to_lower_case wide (c ∷ s) = lower_unit wide c ++ to_lower_case wide s
