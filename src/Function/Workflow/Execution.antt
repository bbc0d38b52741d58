-- ===== src/Function/Workflow/Execution.antt =====
-- function/workflows/engine.py: the execution of a workflow, layer by layer. The nodes of a layer run
-- at the same time; all of them read the context as it was before the layer.
pub mod Order
pub mod Complete
pub mod Outputs
use lingshu_round.Prelude.{
  String, Bool, true, false, not, ◌||◌, Option, none, some, List, [], ◌∷◌, ◌++◌, if◌then◌else◌,
  ◌==◌, string_eq, any, is_empty,
}
use lingshu_round.Prelude.Dict.{Dict, lookup, insert, erase}
use lingshu_round.Prelude.Value.{Value, null, bool, num, text, array, object, end, field, truthy}
use lingshu_round.Infra.Errors.{AppError, app_error, common_internal_error}
use lingshu_round.Infra.Exec.{Result, ok, err}
use lingshu_round.Data.EditLog.{fields_of}
use lingshu_round.Function.Workflow.{WorkflowNode, WorkflowEdge, topological_sort}
use lingshu_round.Function.Workflow.Conditions.{Python, resolve_value, evaluate_condition}

-- `WorkflowDefinition`
pub record WorkflowDefinition : Type 0 where
  pub nodes : List WorkflowNode
  pub edges : List WorkflowEdge

-- what a node gives: a value, or the text of its exception
pub data NodeResult : Type 0 where
  success : Value → NodeResult
  failed : String → NodeResult

pub record Step : Type 0 where
  pub node_id : String
  pub result : NodeResult

pub record WorkflowResult : Type 0 where
  pub status : String
  pub steps : List Step
  pub outputs : Dict String Value

abbrev pub Context : Type 0
Context = Dict String Value

abbrev pub is_failed : Step → Bool
is_failed s = elim s.result [ success v ↦ false | failed e ↦ true ]

-- the node of an id, the last one if there are several
unfoldable pub node_of : String → List WorkflowNode → Option WorkflowNode
node_of nid [] = none
node_of nid (n ∷ ns) = elim (node_of nid ns) [
  | some later ↦ some later
  | none ↦ if n.node_id == nid then some n else none
]

module _ (P : Python) where
  -- a condition that is there and not empty holds; `none` is its exception
  abbrev pub holds : Option String → Context → Option Bool
  holds none context = some true
  holds (some condition) context =
      if condition == "" then some true else evaluate_condition P condition context

  abbrev pub go_on : Option Bool → Option Bool → Option Bool
  go_on none rest = none
  go_on (some false) rest = some false
  go_on (some true) rest = rest

  -- `_should_execute`, over the edges into the node in their order
  unfoldable pub should_execute : String → List WorkflowEdge → Context → Option Bool
  unfolding evaluate_condition
  should_execute nid [] context = some true
  should_execute nid (e ∷ es) context =
      let rest = should_execute nid es context in
      if e.target_node_id == nid then go_on (holds e.condition context) rest else rest

  abbrev pub put : String → Option Bool → Option (List String) → Option (List String)
  put nid none rest = none
  put nid (some b) none = none
  put nid (some b) (some nids) = some (if b then nid ∷ nids else nids)

  -- the nodes of a layer that run
  unfoldable pub executable : List WorkflowEdge → Context → List String → Option (List String)
  unfolding should_execute
  executable edges context [] = some []
  executable edges context (nid ∷ nids) =
      put nid (should_execute nid edges context) (executable edges context nids)

  -- a path is read in the context, any other value is passed on
  abbrev resolve_input : Context → Value → Value
  resolve_input context (text path) = resolve_value path context
  resolve_input context null = null
  resolve_input context (bool b) = bool b
  resolve_input context (num n) = num n
  resolve_input context (array xs) = array xs
  resolve_input context (object fs) = object fs

  unfoldable pub resolve_inputs : Dict String Value → Context → Dict String Value
  unfolding resolve_value
  resolve_inputs [] context = []
  resolve_inputs ((k, source) ∷ mappings) context =
      (k, resolve_input context source) ∷ resolve_inputs mappings context

  abbrev str_of : Value → String
  str_of (text s) = s
  str_of v = P.str v

  abbrev or_default : Option Value → Value → Value
  or_default none v = v
  or_default (some v) _ = v

  abbrev condition_result : Option Bool → NodeResult
  condition_result none = failed P.type_error
  condition_result (some b) = success (object (field "result" (bool b) end))

  -- `float(delay) if delay else 0`
  abbrev waited : Value → NodeResult
  waited delay =
      if not (truthy delay) || P.is_number delay
      then success (object (field "waited" delay end))
      else failed P.value_error

  -- the default executor echoes the inputs
  abbrev echo : WorkflowNode → Dict String Value → NodeResult
  echo node inputs = success (
      object (field "node_id" (text node.node_id) (field "inputs" (object (fields_of inputs)) end)))

  abbrev executed_by :
      Option (WorkflowNode → Dict String Value → NodeResult)
      → WorkflowNode
      → Dict String Value
      → NodeResult
  executed_by none node inputs = echo node inputs
  executed_by (some node_executor) node inputs = node_executor node inputs

  module _ (node_executor : Option (WorkflowNode → Dict String Value → NodeResult)) where
    -- the inputs of the workflow are read under `_inputs`
    unfoldable pub execute_node : Dict String Value → WorkflowNode → Context → NodeResult
    unfolding resolve_inputs
    execute_node inputs node context =
        if node.type == "condition"
        then condition_result (
            evaluate_condition P
              (str_of (or_default (lookup "expression" node.input_mappings) (text "true"))) context)
        else if node.type == "wait"
        then waited (or_default (lookup "seconds" node.input_mappings) (num 0))
        else executed_by node_executor node (
            resolve_inputs node.input_mappings
              (insert "_inputs" (object (fields_of inputs)) context))

    abbrev pub step_of :
        Dict String Value
        → Context
        → String
        → Option WorkflowNode
        → Option (List Step)
        → Option (List Step)
    step_of inputs context nid none rest = none
    step_of inputs context nid (some node) none = none
    step_of inputs context nid (some node) (some steps) =
        some (record { node_id = nid; result = execute_node inputs node context } ∷ steps)

    -- the steps of the nodes that run, all from the same context; `none` for an id of no node
    unfoldable pub run_nodes :
        List WorkflowNode → Dict String Value → Context → List String → Option (List Step)
    unfolding execute_node node_of
    run_nodes nodes inputs context [] = some []
    run_nodes nodes inputs context (nid ∷ nids) =
        step_of inputs context nid (node_of nid nodes) (run_nodes nodes inputs context nids)

    abbrev pub keep_result : String → NodeResult → Context → Context
    keep_result nid (success v) context = insert nid v context
    keep_result nid (failed e) context = context

    -- `context[nid] = result`, for each step that succeeded
    unfoldable pub keep_results : List Step → Context → Context
    keep_results [] context = context
    keep_results (s ∷ steps) context = keep_results steps (keep_result s.node_id s.result context)

    -- the steps of a layer
    unfoldable pub run_layer :
        WorkflowDefinition → Dict String Value → Context → List String → Option (List Step)
    run_layer d inputs context layer = elim (executable d.edges context layer) [
      | none ↦ none
      | some nids ↦ run_nodes d.nodes inputs context nids
    ]

    abbrev pub followed_by : List Step → Option (Context × List Step) → Option (Context × List Step)
    followed_by steps none = none
    followed_by steps (some (context, later)) = some (context, steps ++ later)

    -- the loop over the layers: the context after them, and their steps
    unfoldable pub run_layers :
        WorkflowDefinition
        → Dict String Value
        → List (List String)
        → Context
        → Option (Context × List Step)
    run_layers d inputs [] context = some (context, [])
    run_layers d inputs (layer ∷ layers) context = elim (run_layer d inputs context layer) [
      | none ↦ none
      | some steps ↦ followed_by steps (run_layers d inputs layers (keep_results steps context))
    ]

    abbrev pub status_of : List Step → String
    status_of steps = if any is_failed steps then "partial_failure" else "success"

    abbrev pub result_of : Option (Context × List Step) → Result WorkflowResult
    result_of none = err (app_error common_internal_error)
    result_of (some (context, steps)) =
        ok (record { status = status_of steps; steps = steps; outputs = erase "_inputs" context })

    abbrev pub run_sorted :
        WorkflowDefinition → Dict String Value → Result (List (List String)) → Result WorkflowResult
    run_sorted d inputs (err e) = err e
    run_sorted d inputs (ok layers) =
        result_of (run_layers d inputs layers (("_inputs", object (fields_of inputs)) ∷ []))

    unfoldable pub execute : WorkflowDefinition → Dict String Value → Result WorkflowResult
    unfolding run_layers topological_sort
    execute d inputs =
        if is_empty d.nodes
        then ok (record { status = "success"; steps = []; outputs = [] })
        else run_sorted d inputs (topological_sort d.nodes d.edges)
