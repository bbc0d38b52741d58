-- ===== src/Ontology/Validators/Cycle/Decides.antt =====
-- The check of an interface's parents decides whether the new edges would close a cycle.
use lingshu_round.Prelude.{
  ℕ, ◌<◌, String, ◌≡◌, ◌⊎◌, refl, Bool, true, false, Option, some, List, [], ◌∷◌, arith, subst,
  ◌==◌, string_eq, contains, ==_refl, Bool-cases, inl, inr, length,
}
use lingshu_round.Infra.Exec.{Result, ok, err}
use lingshu_round.Ontology.Graph.{GraphDb}
use lingshu_round.Ontology.Validators.Cycle.{
  can_reach, cycle_error, check_parents, extends_children, check_interface_cycle, Reach,
}
use lingshu_round.Ontology.Validators.Cycle.Sound.{can_reach_sound, can_reach_complete}
use lingshu_round.Ontology.Validators.Cycle.Total.{can_reach-total}

pub eq_of_test : (a b : String) → (a == b) ≡ true → a ≡ b
eq_of_test a b h = ground arith

module _ (children : String → List String) (universe : List String)
    (closed : (x y : String)
      → contains universe x ≡ true
      → contains (children x) y ≡ true
      → contains universe y ≡ true)
    (fuel : ℕ) (enough : length universe < fuel) (interface_rid : String) where
  -- the answer for a list of parents
  data Verdict (parents : List String) (o : Option (Result {0} Unit)) : Type 0 where
    acyclic :
        o ≡ some (ok tt)
        → ((p : String) → contains parents p ≡ true → ¬ Reach children p interface_rid)
        → Verdict parents o
    cyclic :
        (p : String)
        → contains parents p ≡ true
        → Reach children p interface_rid
        → o ≡ some (err (cycle_error interface_rid p))
        → Verdict parents o

  Verdict-next :
      {p : String} {ps : List String} {o : Option (Result {0} Unit)}
      → ¬ Reach children p interface_rid
      → Verdict ps o
      → Verdict (p ∷ ps) o
  Verdict-next {p} {ps} {o} no_path (acyclic e h) = acyclic e λ q m r. elim (Bool-cases (q == p)) [
    | inl same ↦ no_path (subst (λ x. Reach children x interface_rid) (eq_of_test q p same) r)
    | inr other ↦ h q (ground arith) r
  ]
  Verdict-next no_path (cyclic q m r e) = cyclic q (ground arith) r e

  check_parents-Verdict :
      (parents : List String)
      → ((p : String) → contains parents p ≡ true → contains universe p ≡ true)
      → Verdict parents (check_parents children fuel interface_rid parents)
  unfolding check_parents
  check_parents-Verdict [] inside = acyclic refl (λ p m. cc m)
  check_parents-Verdict (p ∷ ps) inside =
      let (b, v, e) =
        can_reach-total children interface_rid universe closed fuel p
          (inside p (ground (arith, ==_refl p))) enough in
      go b v e (check_parents-Verdict ps (λ q m. inside q (ground arith)))
    where
      go :
          (b : Bool) (v : List String)
          → can_reach children interface_rid fuel [] p ≡ some (b, v)
          → Verdict ps (check_parents children fuel interface_rid ps)
          → Verdict (p ∷ ps) (check_parents children fuel interface_rid (p ∷ ps))
      go true v e rest =
          cyclic p (ground (arith, ==_refl p))
            (can_reach_sound children interface_rid fuel [] p v e) (rw e)
      go false v e rest =
          rw e (Verdict-next (can_reach_complete children interface_rid fuel p v e) rest)

-- The rids that the graph can name: a set that holds the parents and is closed under EXTENDS.
pub record IsUniverse (G : GraphDb) (tenant : String) (s : G.State) (parents universe : List String)
    : Type 0 where
  pub parents_inside : (p : String) → contains parents p ≡ true → contains universe p ≡ true
  pub closed :
      (x y : String)
      → contains universe x ≡ true
      → contains (extends_children G tenant s x) y ≡ true
      → contains universe y ≡ true

-- With more fuel than the graph has rids the check answers, and the answer is right: it passes
-- and no parent reaches the interface along EXTENDS, or it names a parent that does.
pub check_interface_cycle_decides :
    (G : GraphDb) (tenant : String) (s : G.State) (universe : List String) (fuel : ℕ)
    (interface_rid : String) (parents : List String)
    → IsUniverse G tenant s parents universe
    → length universe < fuel
    → ((check_interface_cycle G fuel interface_rid parents tenant s ≡ some (ok tt))
        × ((p : String)
            → contains parents p ≡ true
            → ¬ Reach (extends_children G tenant s) p interface_rid))
      ⊎ ((p : String) × (contains parents p ≡ true)
          × Reach (extends_children G tenant s) p interface_rid
          × (check_interface_cycle G fuel interface_rid parents tenant s
              ≡ some (err (cycle_error interface_rid p))))
unfolding check_interface_cycle
check_interface_cycle_decides G tenant s universe fuel i [] u enough = inl (refl, λ p m. cc m)
check_interface_cycle_decides G tenant s universe fuel i (q ∷ qs) u enough = split (
    check_parents-Verdict (extends_children G tenant s) universe u.closed fuel enough i (q ∷ qs)
      u.parents_inside)
  where
    split :
        Verdict
          (extends_children G tenant s)
          universe
          u.closed
          fuel
          enough
          i
          (q ∷ qs)
          (check_parents (extends_children G tenant s) fuel i (q ∷ qs))
        → ((check_interface_cycle G fuel i (q ∷ qs) tenant s ≡ some (ok tt))
            × ((p : String)
                → contains (q ∷ qs) p ≡ true
                → ¬ Reach (extends_children G tenant s) p i))
          ⊎ ((p : String) × (contains (q ∷ qs) p ≡ true)
              × Reach (extends_children G tenant s) p i
              × (check_interface_cycle G fuel i (q ∷ qs) tenant s ≡ some (err (cycle_error i p))))
    split (acyclic e h) = inl (e, h)
    split (cyclic p m r e) = inr (p, m, r, e)
