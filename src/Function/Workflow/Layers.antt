-- ===== src/Function/Workflow/Layers.antt =====
-- The layers of a workflow: every node once, after all nodes that have an edge into it.
use lingshu_round.Prelude.{
  ℕ, zero, suc, ◌+◌, ◌≤◌, ◌<◌, String, ◌≡◌, refl, ◌∙◌, sym, ap, subst, Bool, true, false, Option,
  none, some, List, [], ◌∷◌, ◌++◌, map, length, all, if◌then◌else◌, ◌==◌, ==_refl, string_eq,
  nat_eq, contains, arith, length-append,
}
use lingshu_round.Prelude.Count.{count, one_if, count-append}
use lingshu_round.Prelude.Dict.{Dict}
use lingshu_round.Prelude.Inclusion.{length-le, count_of_length}
use lingshu_round.Prelude.Sort.{sorted, count-sorted, length-sorted}
use lingshu_round.Infra.Errors.{app_error, common_invalid_input}
use lingshu_round.Infra.Exec.{Result, ok, err}
use lingshu_round.Function.Workflow.{
  WorkflowNode, WorkflowEdge, unique, node_ids, targets_of, lower_degrees, visit_layer, Outcome,
  done, key_error, with_layer, layers_from, result_of, in_degrees, roots, topological_sort,
}
use lingshu_round.Function.Workflow.Degrees.{
  occurs, contains-occurs, occurs-unique, remaining, remaining-visit, lookup-in_degrees,
  occurs-roots, lower_degrees_lem, targets_known,
}
use lingshu_round.Function.Workflow.Layered.{
  targets_nodes, IsState, visit_all, occurs-visit_all, IsState-ext, IsLayered, visited_by,
  all_of_occurs, IsSorting,
}

module _ (ids : List String) (edges : List WorkflowEdge)
    (known : targets_nodes ids edges ≡ true) where
  -- one node of the layer
  visit_node :
      (v : String) (visited queue next : List String) (d : Dict String ℕ)
      → IsState ids edges visited d (v ∷ queue) next
      → (d' : Dict String ℕ) × (next' : List String) × (lower_degrees (targets_of edges v) d next
          ≡ some (d', next'))
        × IsState ids edges (v ∷ visited) d' queue next'
  unfolding count
  visit_node v visited queue next d state =
      let new : contains visited v ≡ false =
        ground (arith, state.placed v, contains-occurs v visited, ==_refl v) in
      let (d', next', e, l) =
        lower_degrees_lem ids (targets_of edges v) d next (remaining edges visited)
          (remaining edges (v ∷ visited)) state.degrees (λ n. remaining-visit edges visited v n new)
          (targets_known ids edges v known) in
      (
        d',
        next',
        e,
        record {
          degrees = l.degrees;
          placed = λ n.
              ground (arith, state.placed n, l.queued n, remaining-visit edges visited v n new);
        },
      )

  visit_layer_lem :
      (queue visited next : List String) (d : Dict String ℕ)
      → IsState ids edges visited d queue next
      → (d' : Dict String ℕ) × (next' : List String) × (visit_layer edges queue d next
          ≡ some (d', next'))
        × IsState ids edges (visit_all queue visited) d' [] next'
  unfolding visit_layer
  visit_layer_lem [] visited next d state = (d, next, refl, state)
  visit_layer_lem (v ∷ queue) visited next d state =
      let (d₁, next₁, e₁, state₁) = visit_node v visited queue next d state in
      let (d', next', e', state') = visit_layer_lem queue (v ∷ visited) next₁ d₁ state₁ in
      (d', next', ap (visit_rest queue) e₁ ∙ e', state')
    where
      visit_rest :
          List String → Option (Dict String ℕ × List String) → Option (Dict String ℕ × List String)
      visit_rest queue none = none
      visit_rest queue (some (d, next)) = visit_layer edges queue d next

  module _ (distinct : (n : String) → occurs n ids ≡ one_if (contains ids n)) where
    state-le :
        (visited queue : List String) (d : Dict String ℕ)
        → IsState ids edges visited d queue []
        → length visited + length queue ≤ length ids
    unfolding count
    state-le visited queue d state = omega (
      arith,
      length-append visited queue,
      length-le (visited ++ queue) ids (λ n.
          ground (arith, state.placed n, distinct n, count-append (λ x. n == x) visited queue)),
    )

    next-IsState :
        (queue visited next : List String) (d : Dict String ℕ)
        → IsState ids edges (visit_all queue visited) d [] next
        → IsState ids edges (sorted queue ++ visited) d next []
    unfolding count
    next-IsState queue visited next d state =
        let swapped : IsState ids edges (visit_all queue visited) d next [] = record {
          degrees = state.degrees;
          placed = λ n. omega (arith, state.placed n);
        } in
        IsState-ext ids edges (visit_all queue visited) (sorted queue ++ visited) d next []
          (λ n. omega (
            arith,
            occurs-visit_all n queue visited,
            count-append (λ x. n == x) (sorted queue) visited,
            count-sorted (λ x. n == x) queue,
          ))
          swapped

    layer-free :
        (queue visited : List String) (d : Dict String ℕ)
        → IsState ids edges visited d queue []
        → all (λ n. remaining edges visited n == 0) (sorted queue) ≡ true
    layer-free queue visited d state =
        all_of_occurs _ (sorted queue)
          (λ n some_n. ground (arith, state.placed n, count-sorted (λ x. n == x) queue))

    layers_from_lem :
        (fuel : ℕ) (visited queue : List String) (d : Dict String ℕ)
        → length ids < length visited + fuel
        → IsState ids edges visited d queue []
        → (layers : List (List String)) × (n_visited : ℕ) × (layers_from fuel edges queue d
            ≡ done layers n_visited)
          × IsSorting ids edges visited layers n_visited
    unfolding layers_from count
    layers_from_lem zero visited queue d enough state =
        absurd (omega (arith, state-le visited queue d state))
    layers_from_lem (suc fuel) visited [] d enough state = (
      [],
      0,
      refl,
      record { layered = tt; once = λ n. omega (arith, state.placed n); counted = omega arith },
    )
    layers_from_lem (suc fuel) visited (v ∷ queue) d enough state =
        let layer = v ∷ queue in
        let (d', next', e, after) = visit_layer_lem layer visited [] d state in
        let (layers, n_visited, e', s) =
          layers_from_lem fuel (sorted layer ++ visited) next' d'
            (omega (arith, enough, length-append (sorted layer) visited, length-sorted layer))
            (next-IsState layer visited next' d' after) in
        (
          sorted layer ∷ layers,
          length layer + n_visited,
          ap (rest_of fuel layer) e ∙ ap (with_layer layer) e',
          record {
            layered = (layer-free layer visited d state, s.layered);
            once = s.once;
            counted =
                omega (arith, s.counted, length-append (sorted layer) visited, length-sorted layer);
          },
        )
      where
        rest_of : ℕ → List String → Option (Dict String ℕ × List String) → Outcome
        rest_of fuel layer none = key_error
        rest_of fuel layer (some (d, next)) = with_layer layer (layers_from fuel edges next d)

-- what a result says: the layers, or that there is a cycle
abbrev pub IsSorted : List String → List WorkflowEdge → Result (List (List String)) → Type 0
IsSorted ids edges (ok layers) =
    IsLayered edges [] layers
    × ((n : String) → occurs n (visited_by layers []) ≡ one_if (contains ids n))
IsSorted ids edges (err e) = e ≡ app_error common_invalid_input

module _ (nodes : List WorkflowNode) (edges : List WorkflowEdge)
    (known : targets_nodes (node_ids nodes) edges ≡ true) where
  pub distinct_ids : (n : String) → occurs n (node_ids nodes) ≡ one_if (contains (node_ids nodes) n)
  distinct_ids n =
      let names = map (λ (w : WorkflowNode). w.node_id) nodes in
      ground (arith, occurs-unique n names, contains-occurs n (unique names))

  -- the state before the loop
  start :
      let ids = node_ids nodes in
      IsState ids edges [] (in_degrees ids edges) (roots ids (in_degrees ids edges)) []
  unfolding count
  start = record {
    degrees = lookup-in_degrees (node_ids nodes) edges;
    placed = λ n. omega (arith, occurs-roots n (map (λ (w : WorkflowNode). w.node_id) nodes) edges);
  }

  pub sorting :
      let ids = node_ids nodes in
      (layers : List (List String)) × (n_visited : ℕ) × (topological_sort nodes edges
        ≡ result_of (length ids) (done layers n_visited))
      × IsSorting ids edges [] layers n_visited
  unfolding topological_sort
  sorting =
      let ids = node_ids nodes in
      let (layers, n_visited, e, s) =
        layers_from_lem ids edges known distinct_ids (suc (length ids)) []
          (roots ids (in_degrees ids edges)) (in_degrees ids edges) (omega arith) start in
      (layers, n_visited, ap (result_of (length ids)) e, s)

  IsSorted-result :
      (layers : List (List String)) (n_visited : ℕ) (b : Bool)
      → n_visited == length (node_ids nodes) ≡ b
      → IsSorting (node_ids nodes) edges [] layers n_visited
      → IsSorted
          (node_ids nodes)
          edges
          (if b then ok layers else err (app_error common_invalid_input))
  IsSorted-result layers n_visited false h s = refl
  IsSorted-result layers n_visited true h s = (
    s.layered,
    λ n.
        count_of_length (visited_by layers []) (node_ids nodes)
          (λ m. ground (arith, s.once m, distinct_ids m)) (ground (arith, s.counted)) n
        ∙ distinct_ids n,
  )

  -- A workflow whose edges lead to its nodes is sorted or refused for a cycle, and the loop ends
  -- within as many rounds as there are nodes: every node is in one layer and once, and every edge
  -- comes from a node of an earlier layer.
  pub topological_sort-IsSorted : IsSorted (node_ids nodes) edges (topological_sort nodes edges)
  topological_sort-IsSorted =
      let (layers, n_visited, e, s) = sorting in
      subst (IsSorted (node_ids nodes) edges) (sym e)
        (IsSorted-result layers n_visited (n_visited == length (node_ids nodes)) refl s)
