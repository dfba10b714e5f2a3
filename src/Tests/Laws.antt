-- ===== src/Tests/Laws.antt =====
-- The demo runtime keeps the promises of a runtime.
use vpn_register_kit.Prelude.{
  ℕ, zero, suc, ◌%◌, ◌<◌, ◌≤◌, ◌≡◌, refl, ap, ◌∙◌, List, [], ◌∷◌, ◌++◌, length, take, replicate,
  map, All, arith, length-append, length-replicate,
}
use vpn_register_kit.Runtime.{IsRuntime}
use vpn_register_kit.Tests.Demo.{demo}

length-take : (n : ℕ) (xs : List ℕ) → n ≤ length xs → length (take n xs) ≡ n
length-take zero xs h = refl
length-take (suc n) [] h = omega arith
length-take (suc n) (x ∷ xs) h = ap suc (length-take n xs (omega arith))

length-map : (f : ℕ → ℕ) (xs : List ℕ) → length (map f xs) ≡ length xs
length-map f [] = refl
length-map f (x ∷ xs) = ap suc (length-map f xs)

bytes-map : (xs : List ℕ) → All (λ b. b < 256) (map (λ b. b % 256) xs)
bytes-map [] = tt
bytes-map (x ∷ xs) = (omega arith, bytes-map xs)

bytes-replicate : (n b : ℕ) → b < 256 → All (λ b. b < 256) (replicate n b)
bytes-replicate zero b h = tt
bytes-replicate (suc n) b h = (h, bytes-replicate n b h)

pub demo-IsRuntime : IsRuntime demo
demo-IsRuntime = record {
  digest_length = λ bytes.
      length-map _ (take 32 (bytes ++ replicate 32 0))
      ∙ length-take 32 (bytes ++ replicate 32 0)
          (let whole = length-append bytes (replicate 32 0) in omega arith);
  digest_bytes = λ bytes. bytes-map (take 32 (bytes ++ replicate 32 0));
  random_length = λ call. length-replicate 24 (call % 256);
  random_are_bytes = λ call. bytes-replicate 24 (call % 256) (omega arith);
  binds_text = λ s. refl;
  binds_integer = λ n. refl;
}
