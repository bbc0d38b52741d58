-- ===== src/Function/Workflow/Execution/Order.antt =====
-- The layers of a workflow one after the other: each node after those it depends on.
use lingshu_round.Prelude.{
  ◌+◌, ◌≤◌, String, ◌≡◌, refl, ◌∙◌, sym, true, List, [], ◌∷◌, ◌++◌, all, arith, ◌==◌, string_eq,
  nat_eq, contains,
}
use lingshu_round.Prelude.Count.{count, count-append, count_mono}
use lingshu_round.Function.Workflow.{WorkflowEdge}
use lingshu_round.Function.Workflow.Degrees.{occurs, contains-occurs, remaining, remaining_ext}
use lingshu_round.Function.Workflow.Layered.{IsLayered, visited_by, visit_all, occurs-visit_all}

-- each node after all those that have an edge into it
abbrev pub InOrder : List WorkflowEdge → List String → List String → Type 0
InOrder edges visited [] = Unit
InOrder edges visited (n ∷ ns) = (remaining edges visited n ≡ 0) × InOrder edges (n ∷ visited) ns

abbrev pub flat : List (List String) → List String
flat [] = []
flat (layer ∷ layers) = layer ++ flat layers

InOrder-ext :
    (edges : List WorkflowEdge) (v v' ns : List String)
    → ((m : String) → contains v m ≡ contains v' m)
    → InOrder edges v ns
    → InOrder edges v' ns
InOrder-ext edges v v' [] same h = tt
InOrder-ext edges v v' (n ∷ ns) same h = (
  sym (remaining_ext edges v v' n same) ∙ h.0,
  InOrder-ext edges (n ∷ v) (n ∷ v') ns (λ m. ground (arith, same m)) h.1,
)

remaining-cons-le :
    (edges : List WorkflowEdge) (visited : List String) (x n : String)
    → remaining edges (x ∷ visited) n ≤ remaining edges visited n
remaining-cons-le edges visited x n = count_mono _ _ edges (λ e h. ground arith)

all_still :
    (edges : List WorkflowEdge) (visited : List String) (x : String) (ns : List String)
    → all (λ n. remaining edges visited n == 0) ns ≡ true
    → all (λ n. remaining edges (x ∷ visited) n == 0) ns ≡ true
all_still edges visited x [] h = refl
all_still edges visited x (n ∷ ns) h =
    ground (arith, all_still edges visited x ns, remaining-cons-le edges visited x n)

InOrder-layer :
    (edges : List WorkflowEdge) (visited layer rest : List String)
    → all (λ n. remaining edges visited n == 0) layer ≡ true
    → InOrder edges (visit_all layer visited) rest
    → InOrder edges visited (layer ++ rest)
InOrder-layer edges visited [] rest h k = k
InOrder-layer edges visited (n ∷ layer) rest h k = (
  ground arith,
  InOrder-layer edges (n ∷ visited) layer rest (all_still edges visited n layer (ground arith)) k,
)

pub InOrder-flat :
    (edges : List WorkflowEdge) (layers : List (List String)) (visited : List String)
    → IsLayered edges visited layers
    → InOrder edges visited (flat layers)
unfolding count
InOrder-flat edges [] visited h = tt
InOrder-flat edges (layer ∷ layers) visited h =
    InOrder-layer edges visited layer (flat layers) h.0 (
      InOrder-ext edges (layer ++ visited) (visit_all layer visited) (flat layers)
        (λ m. ground (
          arith,
          contains-occurs m (layer ++ visited),
          contains-occurs m (visit_all layer visited),
          occurs-visit_all m layer visited,
          count-append (λ k. m == k) layer visited,
        ))
        (InOrder-flat edges layers (layer ++ visited) h.1))

pub occurs-flat :
    (n : String) (layers : List (List String)) (visited : List String)
    → occurs n (visited_by layers visited) ≡ occurs n (flat layers) + occurs n visited
unfolding count
occurs-flat n [] visited = omega arith
occurs-flat n (layer ∷ layers) visited = omega (
  arith,
  occurs-flat n layers (layer ++ visited),
  count-append (λ k. n == k) layer visited,
  count-append (λ k. n == k) layer (flat layers),
)
