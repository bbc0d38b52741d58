-- ===== src/Prelude/Sort.antt =====
-- Python's order on texts and `sorted`, as a stable insertion sort.
use lingshu_round.Prelude.Count.{count, one_if}
use lingshu_round.Prelude.Lists.{length}
use Prim.Native.Nat.{◌+◌, suc}
use Prim.Native.Char.{code}
use lingshu_round.Prelude.Tests.{ltb, if◌then◌else◌}
use lingshu_round.Prelude.Equality.{◌==◌, contains, string_eq}
use Prim.Native.String.{String}
use mathlib.Core.Path.{◌≡◌, refl}
use mathlib.Core.Bool.{Bool, true, false, ◌||◌}
use mathlib.Core.List.{List, [], ◌∷◌}
use native.Mathlib.Omega.{arith}

-- `a <= b`, by code points
unfoldable pub text_leb : String → String → Bool
text_leb String.[] t = true
text_leb (String.◌∷◌ c s) String.[] = false
text_leb (String.◌∷◌ c s) (String.◌∷◌ d t) =
    let rest = text_leb s t in
    if ltb (code c) (code d) then true else if ltb (code d) (code c) then false else rest

insert_sorted : String → List String → List String
insert_sorted x [] = x ∷ []
insert_sorted x (y ∷ ys) = if text_leb x y then x ∷ y ∷ ys else y ∷ insert_sorted x ys

unfoldable pub sorted : List String → List String
unfolding insert_sorted text_leb
sorted [] = []
sorted (x ∷ xs) = insert_sorted x (sorted xs)

contains-insert_sorted :
    (a x : String) (xs : List String) → contains (insert_sorted x xs) a ≡ (a == x || contains xs a)
unfolding insert_sorted
contains-insert_sorted a x [] = refl
contains-insert_sorted a x (y ∷ ys) = ground (arith, contains-insert_sorted a x ys)

-- A sorted list has the same members.
pub contains-sorted : (a : String) (xs : List String) → contains (sorted xs) a ≡ contains xs a
unfolding sorted
contains-sorted a [] = refl
contains-sorted a (x ∷ xs) =
    ground (arith, contains-insert_sorted a x (sorted xs), contains-sorted a xs)

count-insert_sorted :
    (p : String → Bool) (x : String) (xs : List String)
    → count p (insert_sorted x xs) ≡ one_if (p x) + count p xs
unfolding insert_sorted count
count-insert_sorted p x [] = refl
count-insert_sorted p x (y ∷ ys) = ground (arith, count-insert_sorted p x ys)

pub count-sorted : (p : String → Bool) (xs : List String) → count p (sorted xs) ≡ count p xs
unfolding sorted count
count-sorted p [] = refl
count-sorted p (x ∷ xs) = ground (arith, count-insert_sorted p x (sorted xs), count-sorted p xs)

length-insert_sorted :
    (x : String) (xs : List String) → length (insert_sorted x xs) ≡ suc (length xs)
unfolding insert_sorted
length-insert_sorted x [] = refl
length-insert_sorted x (y ∷ ys) = ground (arith, length-insert_sorted x ys)

pub length-sorted : (xs : List String) → length (sorted xs) ≡ length xs
unfolding sorted
length-sorted [] = refl
length-sorted (x ∷ xs) = ground (arith, length-insert_sorted x (sorted xs), length-sorted xs)
