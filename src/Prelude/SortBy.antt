-- ===== src/Prelude/SortBy.antt =====
-- `ORDER BY`: a stable insertion sort by a key, which counts as many rows as before.
use lingshu_round.Prelude.Tests.{leb, Bool-cases, if◌then◌else◌}
use lingshu_round.Prelude.Lists.{all}
use lingshu_round.Prelude.Count.{count, one_if}
use Prim.Native.Nat.{ℕ, ◌+◌}
use mathlib.Core.Path.{◌≡◌, refl, ap}
use mathlib.Core.Logic.{inl, inr}
use mathlib.Core.Bool.{Bool, true, ◌&&◌}
use mathlib.Core.List.{List, [], ◌∷◌, ◌++◌}
use native.Mathlib.Omega.{arith}

module _ {ℓ} {A : Type ℓ} (key : A → ℕ) where
  unfoldable pub insert_by : A → List A → List A
  insert_by x [] = x ∷ []
  insert_by x (y ∷ ys) = if leb (key x) (key y) then x ∷ y ∷ ys else y ∷ insert_by x ys

  unfoldable pub sort_by : List A → List A
  unfolding insert_by
  sort_by [] = []
  sort_by (x ∷ xs) = insert_by x (sort_by xs)

  count-insert_by :
      (p : A → Bool) (x : A) (xs : List A) → count p (insert_by x xs) ≡ one_if (p x) + count p xs
  unfolding insert_by count
  count-insert_by p x [] = refl
  count-insert_by p x (y ∷ ys) = ground (arith, count-insert_by p x ys)

  pub count-sort_by : (p : A → Bool) (xs : List A) → count p (sort_by xs) ≡ count p xs
  unfolding sort_by count
  count-sort_by p [] = refl
  count-sort_by p (x ∷ xs) = ground (arith, count-insert_by p x (sort_by xs), count-sort_by p xs)

  -- no row has a key below that of a row before it
  abbrev pub is_sorted : List A → Bool
  is_sorted [] = true
  is_sorted (x ∷ xs) = all (λ y. leb (key x) (key y)) xs && is_sorted xs

  all-insert_by : (p : A → Bool) (x : A) (xs : List A) → all p (insert_by x xs) ≡ (p x && all p xs)
  unfolding insert_by
  all-insert_by p x [] = refl
  all-insert_by p x (y ∷ ys) = ground (arith, all-insert_by p x ys)

  all_above :
      (x y : A) (ys : List A)
      → leb (key x) (key y) ≡ true
      → all (λ z. leb (key y) (key z)) ys ≡ true
      → all (λ z. leb (key x) (key z)) ys ≡ true
  all_above x y [] h k = refl
  all_above x y (z ∷ zs) h k = ground (arith, all_above x y zs)

  insert_by-is_sorted :
      (x : A) (xs : List A) → is_sorted xs ≡ true → is_sorted (insert_by x xs) ≡ true
  unfolding insert_by
  insert_by-is_sorted x [] h = refl
  insert_by-is_sorted x (y ∷ ys) h = ground (
    arith,
    insert_by-is_sorted x ys,
    all_above x y ys,
    all-insert_by (λ z. leb (key y) (key z)) x ys,
  )

  pub sort_by-is_sorted : (xs : List A) → is_sorted (sort_by xs) ≡ true
  unfolding sort_by
  sort_by-is_sorted [] = refl
  sort_by-is_sorted (x ∷ xs) = insert_by-is_sorted x (sort_by xs) (sort_by-is_sorted xs)

  empty_of_count :
      (n : ℕ) (xs : List A)
      → all (λ y. leb n (key y)) xs ≡ true
      → count (λ y. leb n (key y)) xs ≡ 0
      → xs ≡ []
  unfolding count
  empty_of_count n [] h c = refl
  empty_of_count n (x ∷ xs) h c = ground arith

  above :
      (n : ℕ) (x : A) (xs : List A)
      → leb n (key x) ≡ true
      → is_sorted (x ∷ xs) ≡ true
      → all (λ y. leb n (key y)) xs ≡ true
  above n x [] late h = refl
  above n x (y ∷ ys) late h = ground (arith, above n x ys late)

  -- The only row of a sorted list with a key from `n` on is its last one.
  pub last_of_sorted :
      (n : ℕ) (xs : List A)
      → is_sorted xs ≡ true
      → count (λ y. leb n (key y)) xs ≡ 1
      → (x : A) × (ys : List A) × (xs ≡ ys ++ x ∷ []) × (leb n (key x) ≡ true)
  unfolding count
  last_of_sorted n [] h c = ground arith
  last_of_sorted n (x ∷ xs) h c = elim (Bool-cases (leb n (key x))) [
    | inl late ↦
        (x, [], ap (λ r. x ∷ r) (empty_of_count n xs (above n x xs late h) (ground arith)), late)
    | inr early ↦
        let (y, ys, e, late) = last_of_sorted n xs (ground arith) (ground arith) in
        (y, x ∷ ys, ap (λ r. x ∷ r) e, late)
  ]
