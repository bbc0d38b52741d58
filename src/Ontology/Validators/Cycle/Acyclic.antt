-- ===== src/Ontology/Validators/Cycle/Acyclic.antt =====
-- The interfaces that pass the check keep the EXTENDS graph free of cycles.
use lingshu_round.Prelude.{
  ℕ, ◌<◌, String, ◌≡◌, ◌⊎◌, ◌||◌, refl, true, some, List, [], ◌∷◌, ◌++◌, arith, if◌then◌else◌, ◌==◌,
  string_eq, contains, Bool-cases, inl, inr, length, subst,
}
use lingshu_round.Infra.Exec.{ok}
use lingshu_round.Ontology.Graph.{GraphDb}
use lingshu_round.Ontology.Validators.Cycle.{
  extends_children, check_interface_cycle, Reach, here, step,
}
use lingshu_round.Ontology.Validators.Cycle.Decides.{IsUniverse, check_interface_cycle_decides}

-- no edge leads back to where it started
abbrev pub IsAcyclic : (String → List String) → Type 0
IsAcyclic children = (x y : String) → contains (children x) y ≡ true → ¬ Reach children y x

-- the graph with new parents of the interface
abbrev pub with_parents : (String → List String) → String → List String → String → List String
with_parents children interface_rid parents x =
    if x == interface_rid then children x ++ parents else children x

contains-append :
    (xs ys : List String) (a : String) → contains (xs ++ ys) a ≡ (contains xs a || contains ys a)
contains-append [] ys a = refl
contains-append (x ∷ xs) ys a = ground (arith, contains-append xs ys a)

module _ {children : String → List String} where
  Reach-trans : {a b c : String} → Reach children a b → Reach children b c → Reach children a c
  Reach-trans here q = q
  Reach-trans (step e p) q = step e (Reach-trans p q)

module _ (children : String → List String) (i : String) (parents : List String) where
  -- an edge of the extended graph is old, or leads from the interface to a new parent
  edge-cases :
      (a m : String)
      → contains (with_parents children i parents a) m ≡ true
      → (contains (children a) m ≡ true) ⊎ ((a ≡ i) × (contains parents m ≡ true))
  edge-cases a m h = elim (Bool-cases (contains (children a) m)) [
    | inl old ↦ inl old
    | inr new ↦ inr (ground (arith, contains-append (children a) parents m))
  ]

  -- a path of the extended graph is old, or enters the interface and leaves by a new parent
  path-cases :
      {a b : String}
      → Reach (with_parents children i parents) a b
      → Reach children a b
        ⊎ (Reach children a i × (p : String) × (contains parents p ≡ true) × Reach children p b)
  path-cases here = inl here
  path-cases (step {a = a} {b = m} e r) = join a m (edge-cases a m e) (path-cases r)
    where
      join :
          {b : String} (a m : String)
          → (contains (children a) m ≡ true) ⊎ ((a ≡ i) × (contains parents m ≡ true))
          → Reach children m b
            ⊎ (Reach children m i × (p : String) × (contains parents p ≡ true) × Reach children p b)
          → Reach children a b
            ⊎ (Reach children a i × (p : String) × (contains parents p ≡ true) × Reach children p b)
      join a m (inl old) (inl r) = inl (step old r)
      join a m (inl old) (inr (r, p, q, t)) = inr (step old r, p, q, t)
      join a m (inr (e, q)) (inl r) = inr (subst (Reach children a) e here, m, q, r)
      join a m (inr (e, q)) (inr (r, p, q', t)) = inr (subst (Reach children a) e here, p, q', t)

  IsAcyclic-with_parents :
      IsAcyclic children
      → ((p : String) → contains parents p ≡ true → ¬ Reach children p i)
      → IsAcyclic (with_parents children i parents)
  IsAcyclic-with_parents old safe x y e r = close (edge-cases x y e) (path-cases r)
    where
      close :
          (contains (children x) y ≡ true) ⊎ ((x ≡ i) × (contains parents y ≡ true))
          → Reach children y x
            ⊎ (Reach children y i × (p : String) × (contains parents p ≡ true) × Reach children p x)
          → ⊥
      close (inl edge) (inl back) = old x y edge back
      close (inl edge) (inr (to_i, p, m, to_x)) = safe p m (Reach-trans to_x (step edge to_i))
      close (inr (s, m)) (inl back) = safe y m (subst (Reach children y) s back)
      close (inr (s, m)) (inr (to_i, _, _, _)) = safe y m to_i

-- If the EXTENDS graph has no cycle and the check passes, the graph with the new parents has none.
pub check_interface_cycle-IsAcyclic :
    (G : GraphDb) (tenant : String) (s : G.State) (universe : List String) (fuel : ℕ)
    (interface_rid : String) (parents : List String)
    → IsUniverse G tenant s parents universe
    → length universe < fuel
    → IsAcyclic (extends_children G tenant s)
    → check_interface_cycle G fuel interface_rid parents tenant s ≡ some (ok tt)
    → IsAcyclic (with_parents (extends_children G tenant s) interface_rid parents)
check_interface_cycle-IsAcyclic G tenant s universe fuel i parents u enough old passed =
    elim (check_interface_cycle_decides G tenant s universe fuel i parents u enough) [
      | inl (_, safe) ↦ IsAcyclic-with_parents (extends_children G tenant s) i parents old safe
      | inr (p, m, r, e) ↦ cc (passed, e)
    ]
