-- ===== src/Function/Capabilities.antt =====
-- function/service.py: executing a global function, and the catalog of what a tenant can execute.
pub mod Recorded
use lingshu_round.Prelude.{
  ℕ, ◌-◌, ◌+◌, String, Bool, true, false, not, ◌&&◌, ◌||◌, Option, none, some, List, [], ◌∷◌, ◌++◌,
  map, select, if◌then◌else◌, ◌==◌, string_eq, leb, is_some,
}
use lingshu_round.Prelude.Count.{count}
use lingshu_round.Prelude.Dict.{Dict, lookup, insert}
use lingshu_round.Prelude.Value.{Value, Items, nil, cons, text, array, object, end, null}
use lingshu_round.Infra.Errors.{AppError, app_error, common_internal_error}
use lingshu_round.Infra.Exec.{Result, ok, err, Exec, pure, raise, gets, lift, ◌>>=◌, ◌>>◌}
use lingshu_round.Infra.Table.{Table}
use lingshu_round.Data.EditLog.{object_of}
use lingshu_round.Function.Executions.{
  Execution, Status, running, success, failed, log_start, log_complete,
}
use lingshu_round.Function.Executions.Listing
use lingshu_round.Function.Registry.{GlobalFunction, Caller}
use lingshu_round.Function.Registry
use lingshu_round.Function.Globals.{Backends, execute, get_or}
use lingshu_round.Function.Services.{Request, ExecutionResponse, new_execution_id}
use lingshu_round.Function.Service.Batch.{is_unhandled}
use lingshu_round.Function.Workflow.Service.{Workflow}
use lingshu_round.Function.Workflow.Service as WorkflowTable

-- the tables, and what is outside of the program
pub record Catalog : Type 1 where
  pub executions : Table Execution
  pub functions : Table GlobalFunction
  pub workflows : Table Workflow
  pub backends : Backends

pub record World (C : Catalog) : Type 0 where
  pub executions : C.executions.State
  pub functions : C.functions.State
  pub workflows : C.workflows.State
  pub outside : C.backends.Outside

abbrev pub caller_of : Request → Caller
caller_of q = record { tenant_id = q.tenant_id; uuid = q.execution_uuid; now = q.now }

-- `{"data": result}`
abbrev pub data_of : Value → Dict String Value
data_of v = ("data", v) ∷ []

abbrev pub response_of : Request → Value → ExecutionResponse
response_of q v = record {
  execution_id = new_execution_id q;
  status = success;
  result = some (data_of v);
  confirmation = none;
  started_at = some q.now;
  completed_at = some q.now;
}

-- an entry of the catalog; outputs and side effects are left
pub record CapabilityDescriptor : Type 0 where
  pub type : String
  pub rid : Value
  pub api_name : Value
  pub display_name : Value
  pub description : Value
  pub parameters : Value
  pub safety_level : Value

pub record Overview : Type 0 where
  pub actions : ℕ
  pub functions : ℕ
  pub workflows : ℕ
  pub total_24h : ℕ
  pub by_status : Dict Status ℕ

abbrev text_or_null : Option String → Value
text_or_null none = null
text_or_null (some s) = text s

abbrev items_of : List (Dict String Value) → Items
items_of [] = nil
items_of (d ∷ ds) = cons (object_of d) (items_of ds)

abbrev of_function : GlobalFunction → CapabilityDescriptor
of_function f = record {
  type = "function";
  rid = text f.rid;
  api_name = text f.api_name;
  display_name = text f.display_name;
  description = text_or_null f.description;
  parameters = array (items_of f.parameters);
  safety_level = text "SAFETY_READ_ONLY";
}

-- `wf.safety_level or "SAFETY_READ_ONLY"`
abbrev of_workflow : Workflow → CapabilityDescriptor
of_workflow w = record {
  type = "workflow";
  rid = text w.rid;
  api_name = text w.api_name;
  display_name = text w.display_name;
  description = text_or_null w.description;
  parameters = array nil;
  safety_level = text (if w.safety_level == "" then "SAFETY_READ_ONLY" else w.safety_level);
}

module _ (C : Catalog) where
  unfoldable pub on_executions :
      {A : Type 0} → (C.executions.State → A × C.executions.State) → Exec (World C) A
  on_executions f w = let (a, s) = f w.executions in (ok a, record w { executions = s })

  unfoldable pub on_outside : {A : Type 0} → Exec C.backends.Outside A → Exec (World C) A
  on_outside f w = let (r, s) = f w.outside in (r, record w { outside = s })

  module _ (q : Request) where
    -- `log_complete` with the status and the result
    abbrev pub complete : Status → Option (Dict String Value) → Exec (World C) (Option Execution)
    complete status result =
        on_executions
          (log_complete C.executions (new_execution_id q) q.tenant_id status result none q.now)

    -- `session.rollback()` of `get_session`: the executions are those of the last commit
    abbrev pub roll_back : C.executions.State → Exec (World C) Unit
    roll_back committed w = (ok tt, record w { executions = committed })

    -- the rest after the executor: an `AppError` is recorded, committed and raised again; any other
    -- exception is not caught, and what was not committed is rolled back
    unfoldable pub finish : C.executions.State → Result Value → Exec (World C) ExecutionResponse
    finish committed (ok v) = complete success (some (data_of v)) >> pure (response_of q v)
    finish committed (err e) =
        if is_unhandled e then roll_back committed >> raise e else complete failed none >> raise e

    -- what the executor does, its exception kept as a value
    unfoldable pub attempt : Dict String Value → Dict String Value → Exec (World C) (Result Value)
    unfolding on_outside execute
    attempt implementation params w =
        let (r, w') = on_outside (execute C.backends implementation params q.tenant_id) w in
        (ok r, w')

    abbrev pub start : String → Dict String Value → Option String → Exec (World C) Execution
    start rid params branch = on_executions (
        log_start C.executions (new_execution_id q) q.tenant_id "function" rid running params
          (some "SAFETY_READ_ONLY") [] q.user_id branch q.now)

    unfoldable pub execute_function :
        String → Dict String Value → Option String → Exec (World C) ExecutionResponse
    unfolding on_executions attempt finish
    execute_function rid params branch = do
      found ← gets (λ w. (Registry.get C.functions (caller_of q) rid w.functions).0)
      function ← lift found
      committed ← gets (λ w. w.executions)
      start rid params branch
      r ← attempt function.implementation params
      finish committed r

  -- what the ontology service answers: the action types of a tenant up to a limit, and their number
  module _ (query_action_types : String → ℕ → Result (List (Dict String Value) × ℕ))
      (loads : String → Option Value) where
    -- a text is parsed, and is a dict or a list then, or else the default
    abbrev parsed_list : Value → Value
    parsed_list (text s) = elim (loads s) [
      | some (array xs) ↦ array xs
      | some v ↦ array nil
      | none ↦ array nil
    ]
    parsed_list (array xs) = array xs
    parsed_list v = array nil

    abbrev of_action : Dict String Value → CapabilityDescriptor
    of_action node = record {
      type = "action";
      rid = get_or "rid" (text "") node;
      api_name = get_or "api_name" (text "") node;
      display_name = get_or "display_name" (text "") node;
      description = get_or "description" null node;
      parameters = parsed_list (get_or "parameters" (array nil) node);
      safety_level = get_or "safety_level" (text "SAFETY_READ_ONLY") node;
    }

    -- any failure of the ontology service leaves the actions out
    abbrev actions_of : Result (List (Dict String Value) × ℕ) → List CapabilityDescriptor
    actions_of (err e) = []
    actions_of (ok (nodes, total)) = map of_action nodes

    abbrev asked_for : Option String → String → Bool
    asked_for none type = true
    asked_for (some wanted) type = wanted == type

    abbrev given_if : Bool → List CapabilityDescriptor → List CapabilityDescriptor
    given_if b ds = if b then ds else []

    unfoldable pub list_capabilities : Request → Option String → World C → List CapabilityDescriptor
    list_capabilities q capability_type w =
        given_if (asked_for capability_type "function") (
          map of_function
            (Registry.list_by_tenant C.functions q.tenant_id 0 1000 (some true) w.functions).0)
        ++ (given_if (asked_for capability_type "action")
              (actions_of (query_action_types q.tenant_id 1000))
            ++ given_if (asked_for capability_type "workflow") (
                map of_workflow
                  (WorkflowTable.list_by_tenant C.workflows q.tenant_id 0 1000 (some true) none
                    w.workflows).0))

    abbrev action_count : Result (List (Dict String Value) × ℕ) → ℕ
    action_count (err e) = 0
    action_count (ok (nodes, total)) = total

    -- `get_overview`; the executions are those of the last 24 hours, all of them and by status
    unfoldable pub get_overview : Request → World C → Overview
    get_overview q w =
        let recent = Listing.count_recent C.executions q.tenant_id (q.now - 86400) w.executions in
        record {
          actions = action_count (query_action_types q.tenant_id 1);
          functions = Registry.count_by_tenant C.functions q.tenant_id w.functions;
          workflows = WorkflowTable.count_by_tenant C.workflows q.tenant_id w.workflows;
          total_24h = Listing.total_of recent;
          by_status = recent;
        }
