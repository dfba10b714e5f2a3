-- ===== src/Db/Commute.antt =====
-- Rows with different keys in ASCII may be sorted in either order: `ORDER BY` compares the bytes, and
-- those of different ASCII texts differ.
use vpn_register_kit.Prelude.{
  ℕ, ◌≡◌, refl, sym, ap, ◌∙◌, true, false, List, [], ◌∷◌, Text, text_eq, all, ltb, arith,
}
use vpn_register_kit.Js.Json.{is_high, is_low}
use vpn_register_kit.Js.Utf8.{encode_point, utf8}
use vpn_register_kit.Db.Order.{text_le_total}
use vpn_register_kit.Db.Tables.{bytes_le, text_le, insert_by}

bytes_le_trans :
    (as_ bs cs : List ℕ) → bytes_le as_ bs ≡ true → bytes_le bs cs ≡ true → bytes_le as_ cs ≡ true
unfolding bytes_le
bytes_le_trans [] bs cs h i = refl
bytes_le_trans (a ∷ as_) [] cs h i = cc
bytes_le_trans (a ∷ as_) (b ∷ bs) [] h i = cc
bytes_le_trans (a ∷ as_) (b ∷ bs) (c ∷ cs) h i = ground (arith, bytes_le_trans as_ bs cs)

bytes_le_antisym :
    (as_ bs : List ℕ) → bytes_le as_ bs ≡ true → bytes_le bs as_ ≡ true → text_eq as_ bs ≡ true
unfolding bytes_le text_eq
bytes_le_antisym [] [] h i = refl
bytes_le_antisym [] (b ∷ bs) h i = cc
bytes_le_antisym (a ∷ as_) [] h i = cc
bytes_le_antisym (a ∷ as_) (b ∷ bs) h i = ground (arith, bytes_le_antisym as_ bs)

abbrev pub IsAscii : Text → Type 0
IsAscii s = all (λ c. ltb c 128) s ≡ true

ascii_unit :
    (c : ℕ)
    → ltb c 128 ≡ true
    → (is_high c ≡ false) × (is_low c ≡ false) × (encode_point c ≡ c ∷ [])
unfolding is_high is_low encode_point
ascii_unit c h = (ground arith, ground arith, ground arith)

utf8_ascii : (s : Text) → IsAscii s → utf8 s ≡ s
unfolding utf8
utf8_ascii [] h = refl
utf8_ascii (c ∷ []) h =
    let (high, low, point) = ascii_unit c (ground arith) in rw (high, low, point)
utf8_ascii (c ∷ d ∷ s) h =
    let (high, low, point) = ascii_unit c (ground arith) in
    let rest = utf8_ascii (d ∷ s) (ground arith) in rw (high, low, point, rest)

text_le_trans : (s t u : Text) → text_le s t ≡ true → text_le t u ≡ true → text_le s u ≡ true
unfolding text_le
text_le_trans s t u h i = bytes_le_trans (utf8 s) (utf8 t) (utf8 u) h i

text_le_antisym :
    (s t : Text)
    → IsAscii s
    → IsAscii t
    → text_le s t ≡ true
    → text_le t s ≡ true
    → text_eq s t ≡ true
unfolding text_le
text_le_antisym s t as_ at h i =
    ap (λ x. text_eq x t) (sym (utf8_ascii s as_))
    ∙ ap (λ x. text_eq (utf8 s) x) (sym (utf8_ascii t at))
    ∙ bytes_le_antisym (utf8 s) (utf8 t) h i

module _ {A : Type 0} (key : A → Text) where
  -- Two rows with different keys may be inserted in either order.
  pub insert_by_comm :
      (a b : A) (rows : List A)
      → IsAscii (key a)
      → IsAscii (key b)
      → text_eq (key a) (key b) ≡ false
      → insert_by key a (insert_by key b rows) ≡ insert_by key b (insert_by key a rows)
  unfolding insert_by
  insert_by_comm a b [] ha hb apart =
      ground (arith, text_le_total (key a) (key b), text_le_antisym (key a) (key b) ha hb)
  insert_by_comm a b (c ∷ rows) ha hb apart = ground (
    arith,
    text_le_total (key a) (key b),
    text_le_antisym (key a) (key b) ha hb,
    text_le_trans (key a) (key b) (key c),
    text_le_trans (key b) (key a) (key c),
    insert_by_comm a b rows ha hb apart,
  )
