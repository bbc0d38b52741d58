-- ===== src/Function/Workflow/Acyclic.antt =====
-- A workflow without a cycle is never refused.
use lingshu_round.Prelude.{
  ℕ, zero, suc, ◌<◌, String, ◌≡◌, refl, sym, subst, Bool, true, false, ◌&&◌, List, [], ◌∷◌, length,
  all, ◌==◌, string_eq, nat_eq, contains, arith, ltb, Bool-cases, inl, inr,
}
use lingshu_round.Prelude.Count.{count}
use lingshu_round.Prelude.Inclusion.{length-le}
use lingshu_round.Infra.Exec.{is_ok}
use lingshu_round.Function.Workflow.{WorkflowNode, WorkflowEdge, node_ids, topological_sort}
use lingshu_round.Function.Workflow.Degrees.{contains-occurs, remaining}
use lingshu_round.Function.Workflow.Layered.{targets_nodes, visited_by, IsSorting}
use lingshu_round.Function.Workflow.Layers.{sorting, distinct_ids}

-- the edges lead from nodes up a rank
abbrev pub is_ranked : (String → ℕ) → List String → List WorkflowEdge → Bool
is_ranked rank ids edges =
    all
      (λ (e : WorkflowEdge).
        contains ids e.source_node_id && ltb (rank e.source_node_id) (rank e.target_node_id))
      edges

-- a test that fails for all that pass another counts nothing
count_of_all :
    {A : Type 0} (p q : A → Bool) (xs : List A)
    → all q xs ≡ true
    → ((x : A) → q x ≡ true → p x ≡ false)
    → count p xs ≡ 0
unfolding count
count_of_all p q [] h f = refl
count_of_all p q (x ∷ xs) h f = ground (arith, f x, count_of_all p q xs)

module _ (nodes : List WorkflowNode) (edges : List WorkflowEdge) (rank : String → ℕ)
    (known : targets_nodes (node_ids nodes) edges ≡ true)
    (ranked : is_ranked rank (node_ids nodes) edges ≡ true) where
  -- every node below a rank was freed of its edges
  freed :
      (layers : List (List String)) (n_visited : ℕ)
      → IsSorting (node_ids nodes) edges [] layers n_visited
      → (k : ℕ) (n : String) → rank n < k
      → remaining edges (visited_by layers []) n ≡ 0
  freed layers n_visited s zero n h = absurd (omega arith)
  freed layers n_visited s (suc k) n h =
      let visited = visited_by layers [] in
      count_of_all _ _ edges ranked λ e good. elim (Bool-cases (n == e.target_node_id)) [
        | inl into ↦
            let lower : rank e.source_node_id < k = ground arith in
            ground (
              arith,
              s.once e.source_node_id,
              contains-occurs e.source_node_id visited,
              freed layers n_visited s k e.source_node_id lower,
            )
        | inr other ↦ ground arith
      ]

  all_visited :
      (layers : List (List String)) (n_visited : ℕ)
      → IsSorting (node_ids nodes) edges [] layers n_visited
      → n_visited ≡ length (node_ids nodes)
  all_visited layers n_visited s =
      let visited = visited_by layers [] in
      omega (
        arith,
        s.counted,
        length-le visited (node_ids nodes)
            (λ n. ground (arith, s.once n, distinct_ids nodes edges known n)),
        length-le (node_ids nodes) visited (λ n. ground (
          arith,
          s.once n,
          distinct_ids nodes edges known n,
          freed layers n_visited s (suc (rank n)) n (omega arith),
        )),
      )

  -- A workflow whose edges lead from nodes to nodes, and that has no cycle because its edges go up
  -- some rank, is sorted: the cycle error is never raised for it.
  pub topological_sort_succeeds : is_ok (topological_sort nodes edges) ≡ true
  topological_sort_succeeds =
      let (layers, n_visited, e, s) = sorting nodes edges known in
      subst (λ r. is_ok r ≡ true) (sym e) (ground (arith, all_visited layers n_visited s))
