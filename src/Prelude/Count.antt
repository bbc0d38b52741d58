-- ===== src/Prelude/Count.antt =====
-- How often a test holds in a list: the order-free view of the rows of a database.
use Prim.Native.Nat.{ℕ, ◌+◌, ◌≤◌, ◌<◌}
use mathlib.Core.Path.{◌≡◌, refl}
use mathlib.Core.Bool.{Bool, true, false, not, ◌&&◌}
use mathlib.Core.Option.{none, some}
use mathlib.Core.List.{List, [], ◌∷◌, ◌++◌, map}
use native.Mathlib.Omega.{arith}
use lingshu_round.Prelude.Equality.{Eq, ◌==◌, ==_refl, contains}
use lingshu_round.Prelude.Lists.{find, select}

abbrev pub one_if : Bool → ℕ
one_if true = 1
one_if false = 0

pub one_if-le : (b : Bool) → one_if b ≤ 1
one_if-le true = omega arith
one_if-le false = omega arith

module _ {ℓ} {A : Type ℓ} where
  unfoldable pub count : (A → Bool) → List A → ℕ
  count p [] = 0
  count p (x ∷ xs) = one_if (p x) + count p xs

  pub count-append : (p : A → Bool) (xs ys : List A) → count p (xs ++ ys) ≡ count p xs + count p ys
  unfolding count
  count-append p [] ys = omega arith
  count-append p (x ∷ xs) ys = omega (arith, count-append p xs ys)

  -- Tests that agree everywhere count alike.
  pub count_ext : (p q : A → Bool) (xs : List A) → ((x : A) → p x ≡ q x) → count p xs ≡ count q xs
  unfolding count
  count_ext p q [] h = refl
  count_ext p q (x ∷ xs) h = ground (arith, h x, count_ext p q xs h)

  -- Tests that agree on all rows but those that do not occur count alike.
  pub count_ext_except :
      (p p' q : A → Bool) (xs : List A)
      → count q xs ≡ 0
      → ((x : A) → q x ≡ false → p x ≡ p' x)
      → count p xs ≡ count p' xs
  unfolding count
  count_ext_except p p' q [] z h = refl
  count_ext_except p p' q (x ∷ xs) z h = ground (arith, h x, count_ext_except p p' q xs)

  pub count_none : (p : A → Bool) (xs : List A) → ((x : A) → p x ≡ false) → count p xs ≡ 0
  unfolding count
  count_none p [] h = refl
  count_none p (x ∷ xs) h = ground (arith, h x, count_none p xs h)

  -- A weaker test counts at least as often.
  pub count_mono :
      (p q : A → Bool) (xs : List A) → ((x : A) → p x ≡ true → q x ≡ true) → count p xs ≤ count q xs
  unfolding count
  count_mono p q [] h = omega arith
  count_mono p q (x ∷ xs) h = ground (arith, h x, count_mono p q xs h)

  pub count-select :
      (p q : A → Bool) (xs : List A) → count p (select q xs) ≡ count (λ x. q x && p x) xs
  unfolding count
  count-select p q [] = refl
  count-select p q (x ∷ xs) = ground (arith, count-select p q xs)

  pub find-holds : (p : A → Bool) (xs : List A) (a : A) → find p xs ≡ some a → p a ≡ true
  find-holds p [] a h = ground arith
  find-holds p (x ∷ xs) a h = ground (arith, find-holds p xs a)

  pub count_of_find-none : (p : A → Bool) (xs : List A) → find p xs ≡ none → count p xs ≡ 0
  unfolding count
  count_of_find-none p [] h = refl
  count_of_find-none p (x ∷ xs) h = ground (arith, count_of_find-none p xs)

  pub find-none_of_count : (p : A → Bool) (xs : List A) → count p xs ≡ 0 → find p xs ≡ none
  unfolding count
  find-none_of_count p [] h = refl
  find-none_of_count p (x ∷ xs) h = ground (arith, find-none_of_count p xs)

  -- The row that was found counts for every test that it passes.
  pub count-pos_of_find :
      (p q : A → Bool) (xs : List A) (a : A) → find p xs ≡ some a → q a ≡ true → 0 < count q xs
  unfolding count
  count-pos_of_find p q [] a h e = ground arith
  count-pos_of_find p q (x ∷ xs) a h e = ground (arith, count-pos_of_find p q xs a)

pub count-map {ℓ κ} :
    {A : Type ℓ} {B : Type κ} (p : B → Bool) (f : A → B) (xs : List A)
    → count p (map f xs) ≡ count (λ x. p (f x)) xs
unfolding count
count-map p f [] = refl
count-map p f (x ∷ xs) = ground (arith, count-map p f xs)

-- A key that no selected row has counts no row.
pub count_of_not_contains {ℓ κ} :
    {A : Type ℓ} {K : Type κ} ⦃e : Eq K⦄ (f : A → K) (q : A → Bool) (k : K) (xs : List A)
    → contains (map f (select q xs)) k ≡ false
    → count (λ x. q x && f x == k) xs ≡ 0
unfolding count
count_of_not_contains f q k [] h = refl
count_of_not_contains f q k (x ∷ xs) h = ground (arith, count_of_not_contains f q k xs)

-- The only row that passes is the row that is found.
pub find_of_only {ℓ} :
    {A : Type ℓ} ⦃e : Eq A⦄ (p : A → Bool) (a : A) (xs : List A)
    → 0 < count p xs
    → count (λ x. p x && not (x == a)) xs ≡ 0
    → find p xs ≡ some a
unfolding count
find_of_only p a [] h k = ground arith
find_of_only p a (x ∷ xs) h k = ground (arith, find_of_only p a xs)

-- Where one row passes, the others are different from the one that is found.
pub only_of_find {ℓ} :
    {A : Type ℓ} ⦃e : Eq A⦄ (p : A → Bool) (a : A) (xs : List A)
    → find p xs ≡ some a
    → count p xs ≡ 1
    → count (λ x. p x && not (x == a)) xs ≡ 0
unfolding count
only_of_find p a [] h k = refl
only_of_find p a (x ∷ xs) h k = ground (
  arith,
  only_of_find p a xs,
  count_mono (λ y. p y && not (y == a)) p xs (λ y t. ground arith),
  ==_refl x,
)
