-- ===== src/Js/Regex.antt =====
-- Regular expressions anchored at both ends: `^r$`, matched as a backtracking engine does.
use vpn_register_kit.Prelude.{
  ℕ, zero, suc, ◌-◌, ◌+◌, ◌≤◌, ◌≡◌, Bool, true, false, ◌&&◌, ◌||◌, List, [], ◌∷◌, ◌++◌, Text,
  is_empty, ◌==◌,
}
pub mod Language

pub data Regex : Type 0 where
  -- one unit of a class
  unit : (ℕ → Bool) → Regex
  seq : Regex → Regex → Regex
  -- r{lo,hi}
  repeat : ℕ → ℕ → Regex → Regex

abbrev pub Matcher : Type 0
Matcher = Text → (Text → Bool) → Bool

match_unit : (ℕ → Bool) → Matcher
match_unit p [] rest = false
match_unit p (c ∷ s) rest = p c && rest s

match_times : Matcher → ℕ → ℕ → Matcher
match_times m lo zero s rest = (lo == 0) && rest s
match_times m lo (suc hi) s rest =
    m s (λ s'. match_times m (lo - 1) hi s' rest) || ((lo == 0) && rest s)

-- r matches a prefix of the text, and `rest` accepts what follows
match_with : Regex → Matcher
match_with (unit p) = match_unit p
match_with (seq r q) = λ s rest. match_with r s (λ s'. match_with q s' rest)
match_with (repeat lo hi r) = match_times (match_with r) lo hi

-- `/^r$/.test(s)`
unfoldable pub test : Regex → Text → Bool
unfolding match_unit match_times match_with
test r s = match_with r s is_empty
