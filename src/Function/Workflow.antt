-- ===== src/Function/Workflow.antt =====
-- function/workflows/engine.py and models.py: a workflow's nodes in layers that can run one after
-- the other (Kahn's algorithm).
pub mod Degrees
pub mod Layered
pub mod Layers
pub mod Acyclic
pub mod Conditions
pub mod Execution
pub mod Service
use lingshu_round.Prelude.{
  ℕ, zero, suc, ◌+◌, ◌-◌, String, Bool, true, false, ◌&&◌, Option, none, some, List, [], ◌∷◌, ◌++◌,
  map, select, length, if◌then◌else◌, ◌==◌, string_eq, nat_eq, contains,
}
use lingshu_round.Prelude.Dict.{Dict, lookup, insert}
use lingshu_round.Prelude.Sort.{sorted}
use lingshu_round.Prelude.Value.{Value}
use lingshu_round.Infra.Errors.{AppError, app_error, common_invalid_input, common_internal_error}
use lingshu_round.Infra.Exec.{Result, ok, err}

-- `WorkflowNodeSchema`, without the place that the editor draws it at
pub record WorkflowNode : Type 0 where
  pub node_id : String
  pub type : String
  pub capability_rid : Option String
  pub input_mappings : Dict String Value
  pub label : Option String

-- `WorkflowEdgeSchema`
pub record WorkflowEdge : Type 0 where
  pub source_node_id : String
  pub target_node_id : String
  pub condition : Option String

-- `{n.node_id for n in nodes}`
unfoldable pub unique : List String → List String
unique [] = []
unique (x ∷ xs) = let rest = unique xs in if contains rest x then rest else x ∷ rest

abbrev pub node_ids : List WorkflowNode → List String
node_ids nodes = unique (map (λ (n : WorkflowNode). n.node_id) nodes)

-- `{nid: 0 for nid in node_ids}`
unfoldable pub no_degrees : List String → Dict String ℕ
no_degrees [] = []
no_degrees (n ∷ ns) = (n, 0) ∷ no_degrees ns

abbrev pub degree_or_zero : Option ℕ → ℕ
degree_or_zero none = 0
degree_or_zero (some k) = k

-- the loop over the edges that fills `in_degree`
unfoldable pub add_degrees : List String → List WorkflowEdge → Dict String ℕ → Dict String ℕ
add_degrees ids [] d = d
add_degrees ids (e ∷ es) d = add_degrees ids es (
    if contains ids e.target_node_id
    then insert e.target_node_id (suc (degree_or_zero (lookup e.target_node_id d))) d
    else d)

-- `adjacency[nid]`
abbrev pub targets_of : List WorkflowEdge → String → List String
targets_of edges nid =
    map (λ (e : WorkflowEdge). e.target_node_id)
      (select (λ (e : WorkflowEdge). nid == e.source_node_id) edges)

-- The loop over the neighbours of a node; `none` is the `KeyError` of a target that is no node. A
-- degree that is 0 is never lowered: that is part of what is proved.
unfoldable pub lower_degrees :
    List String → Dict String ℕ → List String → Option (Dict String ℕ × List String)
lower_degrees [] d next_queue = some (d, next_queue)
lower_degrees (n ∷ ns) d next_queue = elim (lookup n d) [
  | none ↦ none
  | some k ↦
      lower_degrees ns (insert n (k - 1) d) (if k == 1 then next_queue ++ n ∷ [] else next_queue)
]

-- the loop over the nodes of a layer
unfoldable pub visit_layer :
    List WorkflowEdge
    → List String
    → Dict String ℕ
    → List String
    → Option (Dict String ℕ × List String)
unfolding lower_degrees
visit_layer edges [] d next_queue = some (d, next_queue)
visit_layer edges (nid ∷ queue) d next_queue =
    elim (lower_degrees (targets_of edges nid) d next_queue) [
      | none ↦ none
      | some (d', next') ↦ visit_layer edges queue d' next'
    ]

pub data Outcome : Type 0 where
  done : List (List String) → ℕ → Outcome
  key_error : Outcome
  out_of_fuel : Outcome

-- one layer before those of the rest of the loop
abbrev pub with_layer : List String → Outcome → Outcome
with_layer queue (done layers visited) = done (sorted queue ∷ layers) (length queue + visited)
with_layer queue key_error = key_error
with_layer queue out_of_fuel = out_of_fuel

-- the `while` loop, and the number of nodes that it visits
unfoldable pub layers_from : ℕ → List WorkflowEdge → List String → Dict String ℕ → Outcome
unfolding visit_layer
layers_from zero edges queue d = out_of_fuel
layers_from (suc fuel) edges [] d = done [] 0
layers_from (suc fuel) edges (nid ∷ queue) d = elim (visit_layer edges (nid ∷ queue) d []) [
  | none ↦ key_error
  | some (d', next_queue) ↦ with_layer (nid ∷ queue) (layers_from fuel edges next_queue d')
]

abbrev pub result_of : ℕ → Outcome → Result (List (List String))
result_of total (done layers visited) =
    if visited == total then ok layers else err (app_error common_invalid_input)
result_of total key_error = err (app_error common_internal_error)
result_of total out_of_fuel = err (app_error common_internal_error)

-- `in_degree` after the loop over the edges
abbrev pub in_degrees : List String → List WorkflowEdge → Dict String ℕ
in_degrees ids edges = add_degrees ids edges (no_degrees ids)

-- the nodes without incoming edges, in the order of `in_degree`
abbrev pub roots : List String → Dict String ℕ → List String
roots ids d = select (λ n. degree_or_zero (lookup n d) == 0) ids

unfoldable pub topological_sort :
    List WorkflowNode → List WorkflowEdge → Result (List (List String))
unfolding layers_from
topological_sort nodes edges =
    let ids = node_ids nodes in
    let d = in_degrees ids edges in
    result_of (length ids) (layers_from (suc (length ids)) edges (roots ids d) d)
