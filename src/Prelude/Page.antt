-- ===== src/Prelude/Page.antt =====
-- `ORDER BY ... DESC`, `OFFSET` and `LIMIT`: the page of a list of rows.
use lingshu_round.Prelude.Lists.{length, take, drop, select}
use lingshu_round.Prelude.Count.{count, count-append}
use lingshu_round.Prelude.SortBy.{sort_by, count-sort_by}
use Prim.Native.Nat.{ℕ, zero, suc, ◌-◌, ◌≤◌, min}
use mathlib.Core.Path.{◌≡◌, refl, ◌∙◌}
use mathlib.Core.Bool.{Bool, true}
use mathlib.Core.List.{List, [], ◌∷◌, ◌++◌}
use native.Mathlib.Omega.{arith}

module _ {ℓ} {A : Type ℓ} where
  unfoldable pub reverse : List A → List A
  reverse [] = []
  reverse (x ∷ xs) = reverse xs ++ x ∷ []

  -- `.offset(offset).limit(limit)`
  abbrev pub page : ℕ → ℕ → List A → List A
  page offset limit xs = take limit (drop offset xs)

  count-reverse : (p : A → Bool) (xs : List A) → count p (reverse xs) ≡ count p xs
  unfolding reverse count
  count-reverse p [] = refl
  count-reverse p (x ∷ xs) =
      ground (arith, count-append p (reverse xs) (x ∷ []), count-reverse p xs)

  count_all : (xs : List A) → count (λ _. true) xs ≡ length xs
  unfolding count
  count_all [] = refl
  count_all (x ∷ xs) = omega (arith, count_all xs)

  count-take-le : (p : A → Bool) (n : ℕ) (xs : List A) → count p (take n xs) ≤ count p xs
  unfolding count
  count-take-le p zero xs = omega arith
  count-take-le p (suc n) [] = omega arith
  count-take-le p (suc n) (x ∷ xs) = omega (arith, count-take-le p n xs)

  count-drop-le : (p : A → Bool) (n : ℕ) (xs : List A) → count p (drop n xs) ≤ count p xs
  unfolding count
  count-drop-le p zero xs = omega arith
  count-drop-le p (suc n) [] = omega arith
  count-drop-le p (suc n) (x ∷ xs) = omega (arith, count-drop-le p n xs)

  length-take : (n : ℕ) (xs : List A) → length (take n xs) ≡ min n (length xs)
  length-take zero xs = omega arith
  length-take (suc n) [] = omega arith
  length-take (suc n) (x ∷ xs) = omega (arith, length-take n xs)

  length-drop : (n : ℕ) (xs : List A) → length (drop n xs) ≡ length xs - n
  length-drop zero xs = omega arith
  length-drop (suc n) [] = omega arith
  length-drop (suc n) (x ∷ xs) = omega (arith, length-drop n xs)

  -- the newest rows first
  abbrev pub newest_first : (A → ℕ) → List A → List A
  newest_first key xs = reverse (sort_by key xs)

  count-newest_first :
      (key : A → ℕ) (p : A → Bool) (xs : List A) → count p (newest_first key xs) ≡ count p xs
  count-newest_first key p xs = count-reverse p (sort_by key xs) ∙ count-sort_by key p xs

  length-newest_first : (key : A → ℕ) (xs : List A) → length (newest_first key xs) ≡ length xs
  length-newest_first key xs =
      omega (
        arith,
        count_all (newest_first key xs),
        count-newest_first key (λ _. true) xs,
        count_all xs,
      )

  -- A page holds what is left after the offset, up to the limit.
  pub length-page :
      (key : A → ℕ) (offset limit : ℕ) (xs : List A)
      → length (page offset limit (newest_first key xs)) ≡ min limit (length xs - offset)
  length-page key offset limit xs = omega (
    arith,
    length-take limit (drop offset (newest_first key xs)),
    length-drop offset (newest_first key xs),
    length-newest_first key xs,
  )

  -- A page has no row that the list does not have.
  pub count-page-le :
      (key : A → ℕ) (offset limit : ℕ) (p : A → Bool) (xs : List A)
      → count p (page offset limit (newest_first key xs)) ≤ count p xs
  count-page-le key offset limit p xs = omega (
    arith,
    count-take-le p limit (drop offset (newest_first key xs)),
    count-drop-le p offset (newest_first key xs),
    count-newest_first key p xs,
  )

  pub length-select : (p : A → Bool) (xs : List A) → length (select p xs) ≡ count p xs
  unfolding count
  length-select p [] = refl
  length-select p (x ∷ xs) = ground (arith, length-select p xs)
