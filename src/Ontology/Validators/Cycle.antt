-- ===== src/Ontology/Validators/Cycle.antt =====
-- ontology/validators/cycle_detection.py: the depth-first search for a cycle of EXTENDS. `visited`
-- is the set of the source as a list; the recursion of `can_reach` takes fuel, and `none` means
-- that the fuel ran out.
pub mod Sound
pub mod Decides
pub mod Acyclic
pub mod Total
use lingshu_round.Prelude.{
  ℕ, zero, suc, String, ◌≡◌, Bool, true, false, Option, none, some, List, [], ◌∷◌, map,
  if◌then◌else◌, ◌==◌, string_eq, contains, is_empty,
}
use lingshu_round.Infra.Errors.{AppError, ontology_cycle_detected}
use lingshu_round.Infra.Exec.{Result, ok, err}
use lingshu_round.Ontology.Graph.{Node, GraphDb, outgoing}
use lingshu_round.Ontology.Repository.{get_related_nodes}

-- whether the target was reached, and the set `visited` after the search
abbrev pub Found : Type 0
Found = Bool × List String

-- what the loop does after the call for one child
abbrev pub after_child : Option Found → (List String → Option Found) → Option Found
after_child none rest = none
after_child (some (true, visited)) rest = some (true, visited)
after_child (some (false, visited)) rest = rest visited

-- the `for child in children` loop, with the recursive call as an argument
unfoldable pub search_children :
    (List String → String → Option Found) → List String → List String → Option Found
search_children visit visited [] = some (false, visited)
search_children visit visited (c ∷ cs) =
    after_child (visit visited c) (λ v. search_children visit v cs)

unfoldable pub can_reach : (String → List String) → String → ℕ → List String → String → Option Found
unfolding search_children
can_reach children target zero visited current = none
can_reach children target (suc fuel) visited current =
    if current == target
    then some (true, visited)
    else if contains visited current
    then some (false, visited)
    else search_children (can_reach children target fuel) (current ∷ visited) (children current)

abbrev pub cycle_error : String → String → AppError
cycle_error interface_rid parent_rid = record {
  code = ontology_cycle_detected;
  details = ("interface_rid", interface_rid ∷ []) ∷ ("parent_rid", parent_rid ∷ []) ∷ [];
}

abbrev after_parent : Option Found → AppError → Option (Result {0} Unit) → Option (Result {0} Unit)
after_parent none e rest = none
after_parent (some (true, _)) e rest = some (err e)
after_parent (some (false, _)) e rest = rest

-- the loop over the parents, each with a fresh `visited`
unfoldable pub check_parents :
    (String → List String) → ℕ → String → List String → Option (Result {0} Unit)
unfolding can_reach
check_parents children fuel interface_rid [] = some (ok tt)
check_parents children fuel interface_rid (p ∷ ps) =
    after_parent (can_reach children interface_rid fuel [] p) (cycle_error interface_rid p)
      (check_parents children fuel interface_rid ps)

module _ (G : GraphDb) where
  -- the rids of the interfaces that an interface extends, by the edges of the graph
  unfoldable pub extends_children : String → G.State → String → List String
  extends_children tenant s current =
      map (λ (n : Node). n.rid)
        (get_related_nodes G "InterfaceType" current tenant "EXTENDS" outgoing s)

  unfoldable pub check_interface_cycle :
      ℕ → String → List String → String → G.State → Option (Result {0} Unit)
  unfolding check_parents extends_children
  check_interface_cycle fuel interface_rid extends_rids tenant s =
      if is_empty extends_rids
      then some (ok tt)
      else check_parents (extends_children tenant s) fuel interface_rid extends_rids

-- the paths along edges
pub data Reach (children : String → List String) : String → String → Type 0 where
  here : {a : String} → Reach children a a
  step : {a b c : String} → contains (children a) b ≡ true → Reach children b c → Reach children a c
