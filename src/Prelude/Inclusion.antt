-- ===== src/Prelude/Inclusion.antt =====
-- A list in which everything occurs at most as often as in another is not longer.
use lingshu_round.Prelude.Tests.{if◌then◌else◌, ltb, Bool-cases}
use lingshu_round.Prelude.Equality.{Eq, ◌==◌, ==_refl}
use lingshu_round.Prelude.Lists.{length}
use lingshu_round.Prelude.Count.{count, one_if}
use Prim.Native.Nat.{◌+◌, ◌≤◌, ◌<◌}
use mathlib.Core.Path.{◌≡◌}
use mathlib.Core.Logic.{inl, inr}
use mathlib.Core.List.{List, [], ◌∷◌}
use native.Mathlib.Omega.{arith}

module _ {ℓ} {A : Type ℓ} ⦃e : Eq A⦄ where
  remove : A → List A → List A
  remove a [] = []
  remove a (x ∷ xs) = if a == x then xs else x ∷ remove a xs

  length-remove :
      (a : A) (xs : List A) → 0 < count (λ x. a == x) xs → length xs ≡ 1 + length (remove a xs)
  unfolding remove count
  length-remove a [] h = ground arith
  length-remove a (x ∷ xs) h = ground (arith, length-remove a xs)

  count-remove :
      (a b : A) (xs : List A)
      → 0 < count (λ x. a == x) xs
      → count (λ x. b == x) xs ≡ one_if (b == a) + count (λ x. b == x) (remove a xs)
  unfolding remove count
  count-remove a b [] h = ground arith
  count-remove a b (x ∷ xs) h = ground (arith, count-remove a b xs)

  pub length-le :
      (xs ys : List A)
      → ((a : A) → count (λ x. a == x) xs ≤ count (λ x. a == x) ys)
      → length xs ≤ length ys
  unfolding count
  length-le [] ys h = omega arith
  length-le (x ∷ xs) ys h = ground (
    arith,
    length-remove x ys,
    length-le xs (remove x ys) (λ a. ground (arith, h a, h x, count-remove x a ys, ==_refl x)),
    h x,
    ==_refl x,
  )

  -- If it is as long, everything occurs as often.
  pub count_of_length :
      (xs ys : List A)
      → ((a : A) → count (λ x. a == x) xs ≤ count (λ x. a == x) ys)
      → length xs ≡ length ys
      → (a : A) → count (λ x. a == x) xs ≡ count (λ x. a == x) ys
  unfolding count
  count_of_length xs ys h same a =
      elim (Bool-cases (ltb (count (λ x. a == x) xs) (count (λ x. a == x) ys))) [
        | inl less ↦ absurd (ground (arith, length-le (a ∷ xs) ys (λ b. ground (arith, h b, less))))
        | inr not_less ↦ ground (arith, h a)
      ]
