-- ===== src/Prelude/Every.antt =====
-- What holds of all elements of a list, or of one: weakened, joined, cut and put together.
use Prim.Native.Nat.{ℕ, zero, suc}
use mathlib.Core.Path.{◌≡◌}
use mathlib.Core.Bool.{Bool, true}
use mathlib.Core.List.{List, [], ◌∷◌, ◌++◌}
use native.Mathlib.Omega.{arith}
use fine_rag_core.Prelude.Lists.{All, take, any_of}

module _ {ℓ κ} {A : Type ℓ} where
  pub All-both : (P Q : A → Type κ) (xs : List A) → All P xs → All Q xs → All (λ x. P x × Q x) xs
  All-both P Q [] h g = tt
  All-both P Q (x ∷ xs) (hx, h) (gx, g) = ((hx, gx), All-both P Q xs h g)

  pub All-each : (P Q : A → Type κ) → ((x : A) → P x → Q x) → (xs : List A) → All P xs → All Q xs
  All-each P Q f [] h = tt
  All-each P Q f (x ∷ xs) (hx, h) = (f x hx, All-each P Q f xs h)

  pub All-without :
      (P : A → Type κ) (xs : List A) (y : A) (ys : List A)
      → All P (xs ++ y ∷ ys)
      → P y × All P (xs ++ ys)
  All-without P [] y ys (hy, h) = (hy, h)
  All-without P (x ∷ xs) y ys (hx, h) = let (hy, rest) = All-without P xs y ys h in (hy, (hx, rest))

  pub take-All : (P : A → Type κ) (n : ℕ) (xs : List A) → All P xs → All P (take n xs)
  take-All P zero xs h = tt
  take-All P (suc n) [] h = tt
  take-All P (suc n) (x ∷ xs) (h, hs) = (h, take-All P n xs hs)

module _ {ℓ} {A : Type ℓ} (p : A → Bool) where
  pub any_of-append : (xs ys : List A) → any_of p xs ≡ true → any_of p (xs ++ ys) ≡ true
  any_of-append [] ys h = cc
  any_of-append (x ∷ xs) ys h = ground (arith, any_of-append xs ys)

  pub any_of-last : (xs : List A) (y : A) → p y ≡ true → any_of p (xs ++ y ∷ []) ≡ true
  any_of-last [] y h = ground arith
  any_of-last (x ∷ xs) y h = ground (arith, any_of-last xs y h)
