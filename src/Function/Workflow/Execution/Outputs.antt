-- ===== src/Function/Workflow/Execution/Outputs.antt =====
-- The outputs of a workflow are the values of its steps.
use lingshu_round.Prelude.{
  String, ◌≡◌, refl, ◌∙◌, ap, sym, false, Option, none, some, List, [], ◌∷◌, ◌++◌, arith,
  if◌then◌else◌, ◌==◌, string_eq, is_empty, Bool-cases, inl, inr,
}
use lingshu_round.Prelude.Dict.{Dict, lookup, lookup-insert, lookup-erase, lookup-nil, lookup-cons}
use lingshu_round.Prelude.Value.{Value, object}
use lingshu_round.Infra.Exec.{Result, ok, err}
use lingshu_round.Data.EditLog.{fields_of}
use lingshu_round.Function.Workflow.{WorkflowNode, topological_sort}
use lingshu_round.Function.Workflow.Conditions.{Python}
use lingshu_round.Function.Workflow.Execution.{
  WorkflowDefinition, NodeResult, success, failed, Step, WorkflowResult, Context, keep_result,
  keep_results, run_layer, followed_by, run_layers, result_of, run_sorted, execute,
}

abbrev success_or : String → Step → Option Value → Option Value
success_or n s o = elim s.result [ success v ↦ if n == s.node_id then some v else o | failed e ↦ o ]

-- the value of the last step of a node that succeeded
abbrev pub last_success : String → List Step → Option Value → Option Value
last_success n [] o = o
last_success n (s ∷ steps) o = last_success n steps (success_or n s o)

last_success-append :
    (n : String) (steps later : List Step) (o : Option Value)
    → last_success n (steps ++ later) o ≡ last_success n later (last_success n steps o)
last_success-append n [] later o = refl
last_success-append n (s ∷ steps) later o = last_success-append n steps later (success_or n s o)

module _ (P : Python) (node_executor : Option (WorkflowNode → Dict String Value → NodeResult)) where
  lookup-keep_result :
      (n nid : String) (r : NodeResult) (context : Context)
      → lookup n (keep_result P node_executor nid r context)
        ≡ success_or n (record { node_id = nid; result = r }) (lookup n context)
  lookup-keep_result n nid (success v) context = lookup-insert n nid v context
  lookup-keep_result n nid (failed e) context = refl

  lookup-keep_results :
      (n : String) (steps : List Step) (context : Context)
      → lookup n (keep_results P node_executor steps context)
        ≡ last_success n steps (lookup n context)
  unfolding keep_results
  lookup-keep_results n [] context = refl
  lookup-keep_results n (s ∷ steps) context =
      lookup-keep_results n steps (keep_result P node_executor s.node_id s.result context)
      ∙ ap (last_success n steps) (lookup-keep_result n s.node_id s.result context)

  -- what a run of the layers says of the context after it
  abbrev Recorded : String → Context → Option (Context × List Step) → Type 0
  Recorded n context none = Unit
  Recorded n context (some (after, steps)) =
      lookup n after ≡ last_success n steps (lookup n context)

  followed-Recorded :
      (n : String) (context : Context) (steps : List Step) (o : Option (Context × List Step))
      → Recorded n (keep_results P node_executor steps context) o
      → Recorded n context (followed_by P node_executor steps o)
  followed-Recorded n context steps none h = tt
  followed-Recorded n context steps (some (after, later)) h =
      h
      ∙ ap (last_success n later) (lookup-keep_results n steps context)
      ∙ sym (last_success-append n steps later (lookup n context))

  run_layers-Recorded :
      (d : WorkflowDefinition) (inputs : Dict String Value) (n : String)
      (layers : List (List String)) (context : Context)
      → Recorded n context (run_layers P node_executor d inputs layers context)
  unfolding run_layers
  run_layers-Recorded d inputs n [] context = refl
  run_layers-Recorded d inputs n (layer ∷ layers) context =
      next (run_layer P node_executor d inputs context layer) (λ steps.
        run_layers-Recorded d inputs n layers (keep_results P node_executor steps context))
    where
      next :
          (o : Option (List Step))
          → ((steps : List Step)
              → Recorded n (keep_results P node_executor steps context) (
                  run_layers P node_executor d inputs layers
                    (keep_results P node_executor steps context)))
          → Recorded n context (elim o as (λ _. Option (Context × List Step)) [
            | none ↦ none
            | some steps ↦ followed_by P node_executor steps (
                run_layers P node_executor d inputs layers
                  (keep_results P node_executor steps context))
          ])
      next none h = tt
      next (some steps) h = followed-Recorded n context steps _ (h steps)

  Recorded-result :
      (n : String) (inputs : Value) (o : Option (Context × List Step)) (r : WorkflowResult)
      → n == "_inputs" ≡ false
      → Recorded n (("_inputs", inputs) ∷ []) o
      → result_of P node_executor o ≡ ok r
      → lookup n r.outputs ≡ last_success n r.steps none
  Recorded-result n inputs none r other h e = ground arith
  Recorded-result n inputs (some (after, steps)) r other h e = ground (
    arith,
    lookup-erase n "_inputs" after,
    lookup-cons n "_inputs" inputs [],
    lookup-nil {V = Value} n,
  )

  -- The outputs of a workflow that ran are the values of its steps: under a node's id, other than
  -- `_inputs`, is the value of its last step that succeeded, and nothing if there is none.
  pub lookup-outputs :
      (d : WorkflowDefinition) (inputs : Dict String Value) (r : WorkflowResult) (n : String)
      → execute P node_executor d inputs ≡ ok r
      → n == "_inputs" ≡ false
      → lookup n r.outputs ≡ last_success n r.steps none
  unfolding execute
  lookup-outputs d inputs r n e other = elim (Bool-cases (is_empty d.nodes)) [
    | inl empty ↦ ground (arith, lookup-nil {V = Value} n)
    | inr nonempty ↦ of_sorted (topological_sort d.nodes d.edges) (ground arith)
  ]
    where
      of_sorted :
          (layers : Result (List (List String)))
          → run_sorted P node_executor d inputs layers ≡ ok r
          → lookup n r.outputs ≡ last_success n r.steps none
      of_sorted (err x) h = ground arith
      of_sorted (ok layers) h =
          Recorded-result n (object (fields_of inputs)) _ r other
            (run_layers-Recorded d inputs n layers (("_inputs", object (fields_of inputs)) ∷ [])) h
