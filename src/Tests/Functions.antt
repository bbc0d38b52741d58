-- ===== src/Tests/Functions.antt =====
-- Edit logs, parameters, listings, global functions and workflows at small inputs.
use lingshu_round.Prelude.{
  ℕ, ◌≤◌, String, ◌≡◌, refl, true, Option, none, some, List, [], ◌∷◌, all, contains, if◌then◌else◌,
  arith, ◌==◌, ==_refl, string_eq, nat_eq,
}
use lingshu_round.Prelude.Count.{count}
use lingshu_round.Prelude.Dict.{Dict, lookup, insert}
use lingshu_round.Prelude.Sort.{sorted}
use lingshu_round.Prelude.Value.{Value, text, num, value_eq}
use lingshu_round.Infra.Exec.{Result, ok, is_ok}
use lingshu_round.Data.Merge.{Row}
use lingshu_round.Data.Merge.Laws.{field_of}
use lingshu_round.Data.EditLog.{EditLog, Jsonb, object_of, write_editlog}
use lingshu_round.Data.EditLog.Laws.{merged, write-then_merge}
use lingshu_round.Function.Actions.{ParamDef}
use lingshu_round.Function.Params.{Instance, ResolvedParams, given, resolve}
use lingshu_round.Function.Params.Laws.{is_satisfied, names_of, resolve_lem}
use lingshu_round.Function.Executions.{Execution, success}
use lingshu_round.Function.Registry.{GlobalFunction, FunctionUpdate, NewFunction, Caller, is_named}
use lingshu_round.Function.Registry.Laws.{Request, registers, deletes, run, run_unique}
use lingshu_round.Function.Workflow.{
  WorkflowNode, WorkflowEdge, unique, no_degrees, add_degrees, node_ids, topological_sort,
}
use lingshu_round.Function.Workflow.Layers.{IsSorted, topological_sort-IsSorted}
use lingshu_round.Function.Workflow.Acyclic.{topological_sort_succeeds}
use lingshu_round.Tests.Memory.{memory_table, memory_table-IsLawful}

abbrev jsonb : Jsonb
jsonb = record { equal = λ a b. a == b; equal-refl = ==_refl }

abbrev edit : String → ℕ → EditLog
edit operation at = record {
  entry_id = "e";
  tenant_id = "t1";
  type_rid = text "ri.obj.1";
  primary_key = object_of (("id", num 1) ∷ []);
  operation = operation;
  field_values = ("state", text "closed") ∷ [];
  user_id = "ada";
  action_type_rid = none;
  branch = "main";
  created_at = at;
}

abbrev base : Option Row
base = some (("id", num 1) ∷ ("state", text "open") ∷ [])

write-then_merge_example :
    field_of "state" (
      merged
        (memory_table EditLog)
        jsonb
        (edit "update" 9)
        (("id", num 1) ∷ [])
        base
        (write_editlog (memory_table EditLog) (edit "update" 9) (edit "delete" 5 ∷ [])).1)
    ≡ some (text "closed")
write-then_merge_example =
    write-then_merge (memory_table EditLog) (memory_table-IsLawful EditLog) jsonb (edit "update" 9)
      (edit "delete" 5 ∷ []) (("id", num 1) ∷ []) base "state" (text "closed")
      (unfold string_eq in refl) refl (unfold count in ground arith) (unfold lookup in refl)
      (unfold string_eq in refl) (unfold lookup string_eq in refl)

abbrev amount : ParamDef
amount = record {
  api_name = "amount";
  required = some true;
  definition_source = none;
  type_rid = none;
}

abbrev raw : Dict String Value
raw = ("amount", num 3) ∷ ("note", text "n") ∷ []

abbrev no_instance : Value → String → Value → Result (Option Instance)
no_instance type_rid tenant_id key = ok none

abbrev resolved : ResolvedParams
resolved = record { values = ("amount", num 3) ∷ []; instances = [] }

resolve_lem_example :
    (all (is_satisfied raw) (amount ∷ []) ≡ true)
    × (lookup "note" resolved.values
        ≡ (if contains (names_of (amount ∷ [])) "note" then given "note" raw else none))
resolve_lem_example =
    resolve_lem no_instance "t1" "note" (amount ∷ []) raw resolved
      (unfold resolve lookup insert string_eq in refl)

abbrev executed : String → ℕ → Execution
executed tenant at = record {
  execution_id = "exec_1";
  tenant_id = tenant;
  capability_type = "action";
  capability_rid = "ri.action.1";
  status = success;
  params = [];
  result = none;
  safety_level = none;
  side_effects = [];
  user_id = "ada";
  branch = none;
  started_at = at;
  completed_at = none;
  confirmed_at = none;
  confirmed_by = none;
}

abbrev history : List Execution
history = executed "t1" 3 ∷ executed "t2" 4 ∷ executed "t1" 5 ∷ []

abbrev caller : Caller
caller = record { tenant_id = "t1"; now = 7; uuid = "u1" }

abbrev sum_function : NewFunction
sum_function = record {
  api_name = "sum";
  display_name = "Sum";
  description = none;
  parameters = [];
  implementation = [];
}

abbrev requests : List (Caller × Request)
requests =
    (caller, registers sum_function)
    ∷ (caller, registers sum_function)
    ∷ (caller, deletes "ri.func.u1")
    ∷ []

run_unique_example : count (is_named "sum" "t1") (run (memory_table GlobalFunction) requests []) ≤ 1
run_unique_example =
    run_unique (memory_table GlobalFunction) (memory_table-IsLawful GlobalFunction) "sum" "t1"
      requests [] (unfold count in omega arith)

abbrev stored : GlobalFunction
stored = record {
  rid = "ri.func.u1";
  tenant_id = "t1";
  api_name = "sum";
  display_name = "Sum";
  description = none;
  parameters = [];
  implementation = [];
  version = 4;
  is_active = true;
  created_at = 1;
  updated_at = 1;
}

abbrev renamed : FunctionUpdate
renamed = record {
  display_name = some "Total";
  description = none;
  parameters = none;
  implementation = none;
}

abbrev step : String → WorkflowNode
step id = record {
  node_id = id;
  type = "action";
  capability_rid = none;
  input_mappings = [];
  label = none;
}

abbrev edge : String → String → WorkflowEdge
edge a b = record { source_node_id = a; target_node_id = b; condition = none }

abbrev diamond : List WorkflowEdge
diamond = edge "a" "b" ∷ edge "a" "c" ∷ edge "b" "d" ∷ edge "c" "d" ∷ []

abbrev steps : List WorkflowNode
steps = step "d" ∷ step "c" ∷ step "b" ∷ step "a" ∷ []

abbrev rank : String → ℕ
rank id = if id == "a" then 0 else if id == "d" then 2 else 1

-- the layers of the diamond
sorted_diamond :
    topological_sort steps diamond ≡ ok (("a" ∷ []) ∷ ("b" ∷ "c" ∷ []) ∷ ("d" ∷ []) ∷ [])
unfolding topological_sort lookup insert sorted string_eq nat_eq native.Mathlib.Decide.ℕ_discrete
    unique no_degrees add_degrees
sorted_diamond = refl

topological_sort-IsSorted_example :
    IsSorted (node_ids steps) diamond (topological_sort steps diamond)
topological_sort-IsSorted_example =
    topological_sort-IsSorted steps diamond (unfold string_eq unique in refl)

topological_sort_succeeds_example : is_ok (topological_sort steps diamond) ≡ true
topological_sort_succeeds_example =
    topological_sort_succeeds steps diamond rank (unfold string_eq unique in refl)
      (unfold string_eq unique in refl)
