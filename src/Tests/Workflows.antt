-- ===== src/Tests/Workflows.antt =====
-- Workflows, their execution and storage, and functions, at small inputs.
use lingshu_round.Prelude.{
  ℕ, suc, String, ◌≡◌, refl, true, Option, none, some, [], ◌∷◌, ◌==◌, string_eq, if◌then◌else◌,
  nat_eq,
}
use native.Mathlib.Decide.{ℕ_discrete}
use lingshu_round.Prelude.Count.{count}
use lingshu_round.Prelude.Dict.{Dict, lookup, insert, erase}
use lingshu_round.Prelude.Value.{Value, text, num, null, truthy, object, end, field}
use lingshu_round.Infra.Exec.{ok}
use lingshu_round.Function.Executions.{Execution}
use lingshu_round.Function.Registry.{GlobalFunction, Caller, get_by_rid}
use lingshu_round.Function.Services.{Request}
use lingshu_round.Function.Workflow.{WorkflowNode, WorkflowEdge, unique, add_degrees, no_degrees}
use lingshu_round.Function.Workflow.Conditions.{Python, evaluate_condition}
use lingshu_round.Function.Workflow.Execution.{
  WorkflowDefinition, WorkflowResult, NodeResult, NodeResult.success as done,
  NodeResult.failed as broken, execute, run_layer, executable, run_nodes, keep_results,
}
use lingshu_round.Function.Workflow.Execution.Outputs.{last_success, lookup-outputs}
use lingshu_round.Function.Workflow.Service.{Workflow}
use lingshu_round.Function.Workflow.Service.Levels.{creates, updates, run, is_stale, run_levels}
use lingshu_round.Function.Globals.{Backends}
use lingshu_round.Function.Capabilities.{Catalog, World, execute_function}
use lingshu_round.Function.Capabilities.Recorded.{IsRecorded, execute_function-IsRecorded}
use lingshu_round.Prelude.Sort.{sorted}
use lingshu_round.Tests.Memory.{memory_table, memory_table-IsLawful}

abbrev python : Python
python = record {
  strip = λ s. s;
  lower = λ s. s;
  int = λ s. if s == "10" then some (num 10) else none;
  float = λ s. none;
  is_number = λ v. true;
  compares = λ op l r. some (truthy l);
  str = λ v. "?";
  type_error = "TypeError";
  value_error = "ValueError";
}

abbrev node : String → WorkflowNode
node nid = record {
  node_id = nid;
  type = "action";
  capability_rid = none;
  input_mappings = ("x", text "_inputs.x") ∷ ("safety_level", text "SAFETY_CRITICAL") ∷ [];
  label = none;
}

abbrev edge : String → String → WorkflowEdge
edge a b = record { source_node_id = a; target_node_id = b; condition = none }

abbrev diamond : WorkflowDefinition
diamond = record {
  nodes = node "d" ∷ node "b" ∷ node "c" ∷ node "a" ∷ [];
  edges = edge "a" "b" ∷ edge "a" "c" ∷ edge "b" "d" ∷ edge "c" "d" ∷ [];
}

-- the node b fails, all others give a number
abbrev executor : Option (WorkflowNode → Dict String Value → NodeResult)
executor = some (λ n inputs. if n.node_id == "b" then broken "no" else done (num 1))

abbrev inputs : Dict String Value
inputs = ("x", num 7) ∷ []

abbrev diamond_outcome : WorkflowResult
diamond_outcome = record {
  status = "partial_failure";
  steps =
      record { node_id = "a"; result = done (num 1) }
      ∷ record { node_id = "b"; result = broken "no" }
      ∷ record { node_id = "c"; result = done (num 1) }
      ∷ record { node_id = "d"; result = done (num 1) }
      ∷ [];
  outputs = ("a", num 1) ∷ ("c", num 1) ∷ ("d", num 1) ∷ [];
}

execute-diamond : execute python executor diamond inputs ≡ ok diamond_outcome
unfolding execute unique string_eq nat_eq ℕ_discrete lookup add_degrees insert no_degrees run_layer
    executable sorted run_nodes erase keep_results
execute-diamond = refl

condition_above :
    evaluate_condition python "a.n>10" (("a", object (field "n" (num 3) end)) ∷ []) ≡ some true
unfolding evaluate_condition string_eq nat_eq ℕ_discrete
condition_above = refl

lookup-outputs_example :
    lookup "c" diamond_outcome.outputs ≡ last_success "c" diamond_outcome.steps none
unfolding string_eq
lookup-outputs_example =
    lookup-outputs python executor diamond inputs diamond_outcome "c" execute-diamond refl

abbrev caller : Caller
caller = record { tenant_id = "t1"; uuid = "u"; now = 5 }

run_levels_example :
    count is_stale (
      run
        (memory_table Workflow)
        ((
          caller,
          creates (record {
            api_name = "w";
            display_name = "W";
            description = none;
            nodes = diamond.nodes;
            edges = diamond.edges;
            status = "draft";
          }),
        )
          ∷ (
            caller,
            updates "ri.workflow.u" (record {
              display_name = none;
              description = none;
              status = none;
              nodes = some [];
              edges = none;
            }),
          )
          ∷ [])
        [])
    ≡ 0
unfolding count
run_levels_example =
    run_levels (memory_table Workflow) (memory_table-IsLawful Workflow)
      ((
        caller,
        creates (record {
          api_name = "w";
          display_name = "W";
          description = none;
          nodes = diamond.nodes;
          edges = diamond.edges;
          status = "draft";
        }),
      )
        ∷ (
          caller,
          updates "ri.workflow.u" (record {
            display_name = none;
            description = none;
            status = none;
            nodes = some [];
            edges = none;
          }),
        )
        ∷ [])
      [] refl

abbrev backends : Backends
backends = record {
  Outside = ℕ;
  query_instances = λ type tenant_id filters offset limit n. (ok null, suc n);
  get_instance = λ type tenant_id key n. (ok null, suc n);
  get_object_type = λ rid tenant_id n. (ok null, suc n);
  get_link_type = λ rid tenant_id n. (ok null, suc n);
  str = λ v. "?";
  run_python = λ config params n. (ok (num 1), suc n);
  run_webhook = λ config params n. (ok (num 2), suc n);
}

abbrev catalog : Catalog
catalog = record {
  executions = memory_table Execution;
  functions = memory_table GlobalFunction;
  workflows = memory_table Workflow;
  backends = backends;
}

abbrev script : GlobalFunction
script = record {
  rid = "ri.func.1";
  tenant_id = "t1";
  api_name = "f";
  display_name = "F";
  description = none;
  parameters = [];
  implementation = ("type", text "python") ∷ ("script", text "1") ∷ [];
  version = 1;
  is_active = true;
  created_at = 0;
  updated_at = 0;
}

abbrev request : Request
request = record {
  tenant_id = "t1";
  user_id = "ann";
  now = 9;
  execution_uuid = "e";
  entry_uuid = λ n. "x";
}

abbrev world : World catalog
world = record { executions = []; functions = script ∷ []; workflows = []; outside = 0 }

execute_function-IsRecorded_example :
    IsRecorded catalog
      (memory_table-IsLawful Execution)
      request
      (execute_function catalog request "ri.func.1" [] none world)
unfolding count get_by_rid string_eq
execute_function-IsRecorded_example =
    execute_function-IsRecorded catalog (memory_table-IsLawful Execution) request "ri.func.1" []
      none script world refl refl
