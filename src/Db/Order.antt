-- ===== src/Db/Order.antt =====
-- `ORDER BY`: the rows, rearranged so that their keys ascend.
use mathlib.Core.List.{Perm}
use mathlib.Core.List.Perm
use vpn_register_kit.Prelude.{ℕ, ◌≡◌, refl, true, false, List, [], ◌∷◌, Text, arith, if_elim}
use vpn_register_kit.Js.Utf8.{utf8}
use vpn_register_kit.Db.Tables.{bytes_le, text_le, insert_by, order_by}

bytes_le_total : (as_ bs : List ℕ) → bytes_le as_ bs ≡ false → bytes_le bs as_ ≡ true
unfolding bytes_le
bytes_le_total [] bs h = cc
bytes_le_total (a ∷ as_) [] h = refl
bytes_le_total (a ∷ as_) (b ∷ bs) h = ground (arith, bytes_le_total as_ bs)

pub text_le_total : (s t : Text) → text_le s t ≡ false → text_le t s ≡ true
unfolding text_le
text_le_total s t h = bytes_le_total (utf8 s) (utf8 t) h

module _ {ℓ} {A : Type ℓ} (key : A → Text) where
  -- The key of every row is at most that of the next.
  abbrev pub Ascending : List A → Type 0
  Ascending [] = Unit
  Ascending (a ∷ []) = Unit
  Ascending (a ∷ b ∷ rows) = (text_le (key a) (key b) ≡ true) × Ascending (b ∷ rows)

  -- a row below the first of the list
  abbrev Below : A → List A → Type 0
  Below a [] = Unit
  Below a (b ∷ rows) = text_le (key a) (key b) ≡ true

  Ascending-cons : (a : A) (rows : List A) → Below a rows → Ascending rows → Ascending (a ∷ rows)
  Ascending-cons a [] h s = tt
  Ascending-cons a (b ∷ rows) h s = (h, s)

  Ascending-tail : (a : A) (rows : List A) → Ascending (a ∷ rows) → Below a rows × Ascending rows
  Ascending-tail a [] s = (tt, tt)
  Ascending-tail a (b ∷ rows) s = s

  insert_by-Below :
      (a b : A) (rows : List A)
      → text_le (key b) (key a) ≡ true
      → Below b rows
      → Below b (insert_by key a rows)
  unfolding insert_by
  insert_by-Below a b [] h below = h
  insert_by-Below a b (c ∷ rows) h below =
      if_elim (Below b) (text_le (key a) (key c)) _ _ (λ _. h) (λ _. below)

  insert_by-Ascending : (a : A) (rows : List A) → Ascending rows → Ascending (insert_by key a rows)
  unfolding insert_by
  insert_by-Ascending a [] s = tt
  insert_by-Ascending a (b ∷ rows) s =
      let (below, rest) = Ascending-tail b rows s in
      let later = insert_by-Ascending a rows rest in
      if_elim Ascending (text_le (key a) (key b)) _ _ (λ h. (h, s))
        (λ h.
          Ascending-cons b (insert_by key a rows)
            (insert_by-Below a b rows (text_le_total (key a) (key b) h) below) later)

  insert_by-Perm : (a : A) (rows : List A) → Perm (insert_by key a rows) (a ∷ rows)
  unfolding insert_by
  insert_by-Perm a [] = Perm.refl _
  insert_by-Perm a (b ∷ rows) =
      if_elim (λ (l : List A). Perm l (a ∷ b ∷ rows)) (text_le (key a) (key b)) _ _
        (λ h. Perm.refl _)
        (λ h. Perm.trans (Perm.cons b (insert_by-Perm a rows)) (Perm.swap a b rows))

  pub order_by-Ascending : (rows : List A) → Ascending (order_by key rows)
  unfolding order_by
  order_by-Ascending [] = tt
  order_by-Ascending (a ∷ rows) =
      insert_by-Ascending a (order_by key rows) (order_by-Ascending rows)

  pub order_by-Perm : (rows : List A) → Perm (order_by key rows) rows
  unfolding order_by
  order_by-Perm [] = Perm.refl _
  order_by-Perm (a ∷ rows) =
      Perm.trans (insert_by-Perm a (order_by key rows)) (Perm.cons a (order_by-Perm rows))
