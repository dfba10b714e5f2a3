-- ===== src/Js/Uri.antt =====
-- `encodeURIComponent`, and the text of `URLSearchParams`.
use vpn_register_kit.Prelude.{
  ℕ, ◌+◌, ◌/◌, ◌%◌, Bool, ◌&&◌, ◌||◌, List, [], ◌∷◌, ◌++◌, Option, none, some, Text, codes,
  includes_unit, ltb, leb, ◌==◌, if◌then◌else◌,
}
use vpn_register_kit.Js.Json.{is_high, is_low}
use vpn_register_kit.Js.Utf8.{encode_point, pair_point, utf8}

unfoldable pub is_word_unit : ℕ → Bool
is_word_unit c =
    (leb b'A' c && leb c b'Z') || (leb b'a' c && leb c b'z') || (leb b'0' c && leb c b'9')

-- The units that `encodeURIComponent` leaves alone.
unfoldable pub is_unreserved : ℕ → Bool
unfolding is_word_unit includes_unit codes
is_unreserved c = is_word_unit c || includes_unit (codes "-_.!~*'()") c

-- The units that `URLSearchParams` leaves alone.
pub is_form_unit : ℕ → Bool
unfolding is_word_unit includes_unit codes
is_form_unit c = is_word_unit c || includes_unit (codes "*-._") c

-- One hexadecimal digit in upper case.
unfoldable pub upper_digit : ℕ → ℕ
upper_digit d = if ltb d 10 then d + b'0' else d + 55

unfoldable pub percent : ℕ → Text
unfolding upper_digit
percent b = b'%' ∷ upper_digit (b / 16) ∷ upper_digit (b % 16) ∷ []

unfoldable pub percent_all : List ℕ → Text
unfolding percent
percent_all [] = []
percent_all (b ∷ bs) = percent b ++ percent_all bs

abbrev prepend : Text → Option Text → Option Text
prepend t none = none
prepend t (some s) = some (t ++ s)

abbrev encode_unit : ℕ → Text
encode_unit c = if is_unreserved c then c ∷ [] else percent_all (encode_point c)

-- Half a surrogate pair is a URIError: none.
unfoldable pub encode_uri_component : Text → Option Text
unfolding is_unreserved percent_all encode_point is_high is_low
encode_uri_component [] = some []
encode_uri_component (c ∷ []) = if is_high c || is_low c then none else some (encode_unit c)
encode_uri_component (c ∷ d ∷ s) =
    let pair = prepend (percent_all (encode_point (pair_point c d))) (encode_uri_component s) in
    let single = prepend (encode_unit c) (encode_uri_component (d ∷ s)) in
    if is_high c && is_low d then pair else if is_high c || is_low c then none else single

form_byte : ℕ → Text
unfolding is_form_unit percent
form_byte b = if is_form_unit b then b ∷ [] else if b == 32 then b'+' ∷ [] else percent b

form_bytes : List ℕ → Text
unfolding form_byte
form_bytes [] = []
form_bytes (b ∷ bs) = form_byte b ++ form_bytes bs

form_pair : Text × Text → Text
unfolding form_bytes utf8
form_pair (k, v) = form_bytes (utf8 k) ++ (codes "=" ++ form_bytes (utf8 v))

-- `params.toString()`
unfoldable pub search_params_text : List (Text × Text) → Text
unfolding form_pair
search_params_text [] = []
search_params_text (p ∷ []) = form_pair p
search_params_text (p ∷ q ∷ ps) = form_pair p ++ (codes "&" ++ search_params_text (q ∷ ps))
