-- ===== src/Function/Services.antt =====
-- What the function service of function/service.py is given and answers: its request, its tables and
-- what is outside of it, and the shapes of its responses.
use lingshu_round.Prelude.{
  ℕ, String, ◌<>◌, Option, none, some, List, [], ◌∷◌, map, if◌then◌else◌, string_eq, ◌==◌,
}
use lingshu_round.Prelude.Dict.{Dict, lookup}
use lingshu_round.Prelude.Value.{Value, Items, Fields, text, object, array, nil, cons, end, field}
use lingshu_round.Infra.Exec.{Result, ok, Exec}
use lingshu_round.Infra.Table.{Table}
use lingshu_round.Data.EditLog.{EditLog, object_of}
use lingshu_round.Function.Executions.{Execution, Status}
use lingshu_round.Function.Actions.{ActionNode, EngineConfig, Engine, or_default}
use lingshu_round.Function.Params.{Instance}
use lingshu_round.Function.NativeCrud.{EngineResult}

-- one request: its tenant and user, the time, and what `uuid4` gives for the execution and, in
-- their order, for the entries of the edit log
pub record Request : Type 0 where
  pub tenant_id : String
  pub user_id : String
  pub now : ℕ
  pub execution_uuid : String
  pub entry_uuid : ℕ → String

-- The tables, the other services and the engines that run outside of the program.
pub record Services : Type 1 where
  pub executions : Table Execution
  pub edit_logs : Table EditLog
  pub Outside : Type 0
  pub run_engine :
      Engine → EngineConfig → Dict String Value → Dict String Instance → Exec Outside EngineResult
  pub get_object_type : String → String → Option ActionNode
  pub get_instance : Value → String → Value → Result (Option Instance)
  pub isoformat : ℕ → String

pub record World (V : Services) : Type 0 where
  pub executions : V.executions.State
  pub edit_logs : V.edit_logs.State
  pub outside : V.Outside

pub record Confirmation : Type 0 where
  pub message : Option String
  pub safety_level : String
  pub affected_outputs : List (Dict String Value)
  pub side_effects : List (Dict String Value)
  pub confirm_url : String
  pub cancel_url : String

pub record ExecutionResponse : Type 0 where
  pub execution_id : String
  pub status : Status
  pub result : Option (Dict String Value)
  pub confirmation : Option Confirmation
  pub started_at : Option ℕ
  pub completed_at : Option ℕ

-- an entry of `writeback_results`
pub record Writeback : Type 0 where
  pub output : String
  pub entry_id : String
  pub operation : String
  pub target_param : String

abbrev writeback_value : Writeback → Value
writeback_value b = object_of (
    ("output", text b.output)
    ∷ ("entry_id", text b.entry_id)
    ∷ ("operation", text b.operation)
    ∷ ("target_param", text b.target_param)
    ∷ [])

abbrev items_of : List Value → Items
items_of [] = nil
items_of (v ∷ vs) = cons v (items_of vs)

abbrev computed_fields : Dict String (Dict String Value) → Fields
computed_fields [] = end
computed_fields ((k, d) ∷ rest) = field k (object_of d) (computed_fields rest)

-- `result_data`
abbrev pub result_data : EngineResult → List Writeback → Dict String Value
result_data r [] =
    ("data", object_of r.data_value)
    ∷ ("computed_values", object (computed_fields r.computed_values))
    ∷ []
result_data r (b ∷ bs) =
    ("data", object_of r.data_value)
    ∷ ("computed_values", object (computed_fields r.computed_values))
    ∷ ("writeback", array (items_of (map writeback_value (b ∷ bs))))
    ∷ []

-- `execution_id` of a request
abbrev pub new_execution_id : Request → String
new_execution_id q = "exec_" <> q.execution_uuid

-- `branch or "main"`
abbrev pub branch_or_main : Option String → String
branch_or_main none = "main"
branch_or_main (some b) = if b == "" then "main" else b

-- `instance.get("_type_rid", "")` and `instance.get("_primary_key", {})`
abbrev pub instance_type : Instance → Value
instance_type i = or_default (lookup "_type_rid" i) (text "")

abbrev pub instance_key : Instance → Value
instance_key i = or_default (lookup "_primary_key" i) (object end)

module _ (V : Services) where
  unfoldable pub on_executions :
      {A : Type 0} → (V.executions.State → A × V.executions.State) → Exec (World V) A
  on_executions f w = let (a, s) = f w.executions in (ok a, record w { executions = s })

  unfoldable pub on_edit_logs : {A : Type 0} → Exec V.edit_logs.State A → Exec (World V) A
  on_edit_logs f w = let (r, s) = f w.edit_logs in (r, record w { edit_logs = s })

  unfoldable pub on_outside : {A : Type 0} → Exec V.Outside A → Exec (World V) A
  on_outside f w = let (r, s) = f w.outside in (r, record w { outside = s })
