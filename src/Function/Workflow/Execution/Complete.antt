-- ===== src/Function/Workflow/Execution/Complete.antt =====
-- A workflow without conditions runs every node once, and after those it depends on.
use lingshu_round.Prelude.{
  String, ◌≡◌, Bool, true, Option, none, some, List, [], map, all, ◌==◌, string_eq, nat_eq,
  contains,
}
use lingshu_round.Prelude.Count.{one_if}
use lingshu_round.Prelude.Dict.{Dict}
use lingshu_round.Prelude.Value.{Value}
use lingshu_round.Infra.Exec.{Result, ok}
use lingshu_round.Function.Workflow.{WorkflowNode, WorkflowEdge, node_ids}
use lingshu_round.Function.Workflow.Degrees.{occurs}
use lingshu_round.Function.Workflow.Execution.Order.{InOrder}
use lingshu_round.Function.Workflow.Conditions.{Python}
use lingshu_round.Function.Workflow.Execution.{
  WorkflowDefinition, NodeResult, Step, WorkflowResult, Context,
}

abbrev is_free : WorkflowEdge → Bool
is_free e = elim e.condition [ none ↦ true | some c ↦ c == "" ]

-- no edge has a condition
abbrev pub unconditional : List WorkflowEdge → Bool
unconditional edges = all is_free edges

abbrev pub step_ids : List Step → List String
step_ids steps = map (λ (s : Step). s.node_id) steps

module _ (P : Python) (node_executor : Option (WorkflowNode → Dict String Value → NodeResult))
    (d : WorkflowDefinition) (inputs : Dict String Value)
    (free : unconditional d.edges ≡ true) where
  -- the nodes ran, in this order
  abbrev Ran : List String → Option (List Step) → Type 0
  Ran nids o = (steps : List Step) × (o ≡ some steps) × (step_ids steps ≡ nids)

  -- the layers ran one after the other
  abbrev RanAll : List String → Option (Context × List Step) → Type 0
  RanAll nids o =
      (after : Context) × (steps : List Step) × (o ≡ some (after, steps)) × (step_ids steps ≡ nids)

  -- what the whole run leaves: every node once, in order
  abbrev IsComplete : Result WorkflowResult → Type 0
  IsComplete x =
      (r : WorkflowResult) × (x ≡ ok r)
      × ((n : String) → occurs n (step_ids r.steps) ≡ one_if (contains (node_ids d.nodes) n))
      × InOrder d.edges [] (step_ids r.steps)
