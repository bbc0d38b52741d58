-- ===== src/Function/Workflow/Layered.antt =====
-- Layers in which each node comes once and after what leads into it, as the loop builds them.
use lingshu_round.Prelude.{
  ℕ, ◌+◌, ◌<◌, String, ◌≡◌, refl, Bool, true, ◌&&◌, List, [], ◌∷◌, ◌++◌, length, all, ◌==◌, ==_refl,
  string_eq, nat_eq, contains, arith,
}
use lingshu_round.Prelude.Count.{count, one_if}
use lingshu_round.Prelude.Dict.{Dict, lookup}
use lingshu_round.Function.Workflow.{WorkflowEdge}
use lingshu_round.Function.Workflow.Degrees.{
  occurs, contains-occurs, remaining, known_degree, remaining_ext,
}

-- every edge leads to a node of the workflow
abbrev pub targets_nodes : List String → List WorkflowEdge → Bool
targets_nodes ids edges = all (λ (e : WorkflowEdge). contains ids e.target_node_id) edges

-- The state of the loop: the nodes that were visited, the rest of the layer, and the next one.
pub record IsState (ids : List String) (edges : List WorkflowEdge) (visited : List String)
    (d : Dict String ℕ) (queue next : List String) : Type 0 where
  pub degrees : (n : String) → lookup n d ≡ known_degree ids (remaining edges visited) n
  pub placed :
      (n : String)
      → occurs n visited + (occurs n queue + occurs n next)
        ≡ one_if (contains ids n && remaining edges visited n == 0)

-- the visited nodes after a layer
abbrev pub visit_all : List String → List String → List String
visit_all [] visited = visited
visit_all (n ∷ ns) visited = visit_all ns (n ∷ visited)

pub occurs-visit_all :
    (n : String) (queue visited : List String)
    → occurs n (visit_all queue visited) ≡ occurs n queue + occurs n visited
unfolding count
occurs-visit_all n [] visited = omega arith
occurs-visit_all n (x ∷ xs) visited = omega (arith, occurs-visit_all n xs (x ∷ visited))

pub IsState-ext :
    (ids : List String) (edges : List WorkflowEdge) (v v' : List String) (d : Dict String ℕ)
    (queue next : List String)
    → ((n : String) → occurs n v ≡ occurs n v')
    → IsState ids edges v d queue next
    → IsState ids edges v' d queue next
IsState-ext ids edges v v' d queue next same state =
    let same_contains : (n : String) → contains v n ≡ contains v' n =
      λ n. ground (arith, contains-occurs n v, contains-occurs n v', same n) in
    record {
      degrees = λ n. ground (arith, state.degrees n, remaining_ext edges v v' n same_contains);
      placed =
          λ n. ground (arith, state.placed n, remaining_ext edges v v' n same_contains, same n);
    }

-- each layer after those before it: no node has an edge from one that was not visited yet
abbrev pub IsLayered : List WorkflowEdge → List String → List (List String) → Type 0
IsLayered edges visited [] = Unit
IsLayered edges visited (layer ∷ layers) =
    (all (λ n. remaining edges visited n == 0) layer ≡ true)
    × IsLayered edges (layer ++ visited) layers

-- the visited nodes after all layers
abbrev pub visited_by : List (List String) → List String → List String
visited_by [] visited = visited
visited_by (layer ∷ layers) visited = visited_by layers (layer ++ visited)

-- a test that holds of whatever occurs
pub all_of_occurs :
    (q : String → Bool) (ns : List String)
    → ((n : String) → 0 < occurs n ns → q n ≡ true)
    → all q ns ≡ true
unfolding count
all_of_occurs q [] h = refl
all_of_occurs q (n ∷ ns) h = ground (
  arith,
  h n,
  ==_refl n,
  all_of_occurs q ns (λ m some_m. h m (omega (arith, one_more m n ns some_m))),
)
  where
    one_more :
        (m n : String) (ns : List String) → 0 < occurs m ns → 0 < one_if (m == n) + occurs m ns
    one_more m n ns h = ground arith

-- what the loop returns
pub record IsSorting (ids : List String) (edges : List WorkflowEdge) (visited : List String)
    (layers : List (List String)) (n_visited : ℕ) : Type 0 where
  pub layered : IsLayered edges visited layers
  pub once :
      (n : String)
      → occurs n (visited_by layers visited)
        ≡ one_if (contains ids n && remaining edges (visited_by layers visited) n == 0)
  pub counted : length visited + n_visited ≡ length (visited_by layers visited)
