-- ===== src/Act/Answers.antt =====
-- What an action can return: rules for each way to build one.
use vpn_register_kit.Prelude.{◌≡◌}
use vpn_register_kit.Js.Result.{Result, ok, err}
use vpn_register_kit.Act.{World, Act, pure, continue, ◌>>=◌}

-- Every value that `m` returns satisfies P.
pub record Answers {A : Type 0} (P : A → Type 0) (m : Act A) : Type 0 where
  pub at : (w : World) (a : A) → (m w).0 ≡ ok a → P a

module _ {A : Type 0} (P : A → Type 0) where
  pub Answers-pure : (a : A) → P a → Answers P (pure a)
  Answers-pure a p = record { at = λ w b e. rw (← ok_injective e) p }
    where
      ok_injective : {a b : A} → ◌≡◌ {A = Result A} (ok a) (ok b) → a ≡ b
      ok_injective e = cc

module _ {A B : Type 0} (P : B → Type 0) where
  continue_answer :
      (f : A → Act B) (r : Result A) (w : World) (b : B)
      → ((a : A) → Answers P (f a))
      → (continue f r w).0 ≡ ok b
      → P b
  continue_answer f (ok a) w b k e = (k a).at w b e
  continue_answer f (err t) w b k e = cc

  pub Answers-bind : (m : Act A) (f : A → Act B) → ((a : A) → Answers P (f a)) → Answers P (m >>= f)
  unfolding ◌>>=◌
  Answers-bind m f k = record { at = λ w b e. continue_answer f (m w).0 (m w).1 b k e }
