-- ===== src/Ontology/Validators/Cycle/Total.antt =====
-- The search ends: with more fuel than there are nodes it gives an answer.
use lingshu_round.Prelude.{
  ℕ, zero, suc, ◌≤◌, ◌<◌, String, ◌≡◌, refl, Bool, true, false, not, Option, none, some, List, [],
  ◌∷◌, arith, ◌==◌, string_eq, contains, ==_refl, Bool-cases, inl, inr, length,
}
use lingshu_round.Prelude.Count.{count}
use lingshu_round.Ontology.Validators.Cycle.{Found, after_child, search_children, can_reach}

-- the nodes of the universe that the search has not seen
abbrev pub unseen : List String → List String → ℕ
unseen universe u = count (λ x. not (contains u x)) universe

unseen-le-length : (universe u : List String) → unseen universe u ≤ length universe
unfolding count
unseen-le-length [] u = omega arith
unseen-le-length (x ∷ xs) u = ground (arith, unseen-le-length xs u)

unseen-cons-le :
    (universe u : List String) (c : String) → unseen universe (c ∷ u) ≤ unseen universe u
unfolding count
unseen-cons-le [] u c = omega arith
unseen-cons-le (x ∷ xs) u c = ground (arith, unseen-cons-le xs u c)

-- A new node of the universe makes the rest smaller.
unseen-cons-lt :
    (universe u : List String) (c : String)
    → contains universe c ≡ true
    → contains u c ≡ false
    → unseen universe (c ∷ u) < unseen universe u
unfolding count
unseen-cons-lt [] u c m new = cc m
unseen-cons-lt (x ∷ xs) u c m new = ground (arith, unseen-cons-le xs u c, unseen-cons-lt xs u c)

-- The call answers, and has forgotten no visited node.
pub record Answers (universe u : List String) (o : Option Found) : Type 0 where
  pub found : Found
  pub eq : o ≡ some found
  pub fewer : unseen universe found.1 ≤ unseen universe u

Answers-after :
    {universe : List String} (u : List String) (o : Option Found)
    (rest : List String → Option Found)
    → Answers universe u o
    → ((v : List String) → unseen universe v ≤ unseen universe u → Answers universe v (rest v))
    → Answers universe u (after_child o rest)
Answers-after u none rest a more = cc a.eq
Answers-after u (some (true, v)) rest a more = a
Answers-after {universe} u (some (false, v)) rest a more =
    let le : unseen universe v ≤ unseen universe u = ground (arith, a.eq, a.fewer) in
    let b = more v le in record { found = b.found; eq = b.eq; fewer = omega (arith, b.fewer) }

module _ (children : String → List String) (target : String) (universe : List String)
    (closed : (x y : String)
      → contains universe x ≡ true
      → contains (children x) y ≡ true
      → contains universe y ≡ true) where
  search-Answers :
      (visit : List String → String → Option Found) (bound : ℕ)
      → ((u : List String) (c : String)
          → contains universe c ≡ true
          → unseen universe u < bound
          → Answers universe u (visit u c))
      → (u cs : List String) → ((c : String) → contains cs c ≡ true → contains universe c ≡ true)
      → unseen universe u < bound
      → Answers universe u (search_children visit u cs)
  unfolding search_children
  search-Answers visit bound ih u [] inside low = record {
    found = (false, u);
    eq = refl;
    fewer = omega arith;
  }
  search-Answers visit bound ih u (c ∷ cs) inside low =
      Answers-after u (visit u c) (λ v. search_children visit v cs)
        (ih u c (inside c (ground (arith, ==_refl c))) low)
        λ v le. search-Answers visit bound ih v cs (λ d m. inside d (ground arith)) (omega arith)

  can_reach-Answers :
      (fuel : ℕ) (u : List String) (c : String)
      → contains universe c ≡ true
      → unseen universe u < fuel
      → Answers universe u (can_reach children target fuel u c)
  unfolding can_reach
  can_reach-Answers zero u c m low = absurd (omega arith)
  can_reach-Answers (suc fuel) u c m low = elim (Bool-cases (c == target)) [
    | inl same ↦ rw same (record { found = (true, u); eq = refl; fewer = omega arith })
    | inr other ↦ elim (Bool-cases (contains u c)) [
      | inl old ↦ rw (other, old) (record { found = (false, u); eq = refl; fewer = omega arith })
      | inr new ↦
          let smaller = unseen-cons-lt universe u c m new in
          let a =
            search-Answers (can_reach children target fuel) fuel (can_reach-Answers fuel) (c ∷ u)
              (children c) (λ d e. closed c d m e) (omega arith) in
          rw (other, new) (record { found = a.found; eq = a.eq; fewer = omega (arith, a.fewer) })
    ]
  ]

  -- With more fuel than the universe has nodes the search answers.
  pub can_reach-total :
      (fuel : ℕ) (c : String)
      → contains universe c ≡ true
      → length universe < fuel
      → (b : Bool) × (v : List String) × (can_reach children target fuel [] c ≡ some (b, v))
  can_reach-total fuel c m low =
      let a = can_reach-Answers fuel [] c m (omega (arith, unseen-le-length universe [])) in
      let (b, v) = a.found in (b, v, a.eq)
