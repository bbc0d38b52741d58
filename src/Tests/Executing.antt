-- ===== src/Tests/Executing.antt =====
-- Executions, confirmations and batches at small inputs.
use lingshu_round.Prelude.{
  ℕ, suc, String, ◌≡◌, refl, true, false, none, some, List, [], ◌∷◌, arith, string_eq, nat_eq,
}
use lingshu_round.Prelude.Count.{count}
use lingshu_round.Prelude.Dict.{Dict, lookup, insert}
use lingshu_round.Prelude.Value.{Value, Fields, text, value_eq}
use lingshu_round.Infra.Errors.{AppError, app_error, function_confirmation_expired}
use lingshu_round.Infra.Exec.{ok, err, is_ok, ◌>>=◌}
use lingshu_round.Data.EditLog.{EditLog, write_editlog}
use lingshu_round.Function.Safety.{check}
use lingshu_round.Infra.Table
use lingshu_round.Function.Actions.{ParamDef, ActionNode, Output, load}
use lingshu_round.Function.Params.{Instance, ResolvedParams, resolve}
use lingshu_round.Function.Executions.{Execution, get_by_id, pending_confirmation}
use lingshu_round.Function.Services.{
  Request, Services, World, on_executions, on_edit_logs, new_execution_id,
}
use lingshu_round.Function.Service.{execute_action}
use lingshu_round.Function.Service.Unconfirmed.{IsSilent, execute_action-IsSilent}
use lingshu_round.Function.Service.Batch.{
  IsComplete, execute_action_batch, execute_action_batch-IsComplete,
}
use lingshu_round.Function.Service.Confirm.{confirm_execution, cancel_execution, expire}
use lingshu_round.Function.Service.Confirm.Calls.{Call, execute, confirm, cancel, IsFresh, run}
use lingshu_round.Function.Service.Confirm.Settled.{IsClosed, confirm-IsClosed, cancel-IsClosed}
use lingshu_round.Function.Service.Confirm.Delegation.{Delegates, confirm-execute}
use lingshu_round.Function.Service.Confirm.Expiry.{confirm-IsClosed_late}
use lingshu_round.Tests.Memory.{memory_table, memory_table-IsLawful}

abbrev customer : ParamDef
customer = record {
  api_name = "customer";
  required = some true;
  definition_source = some "derived_from_object_type_rid";
  type_rid = some "ri.obj.1";
}

abbrev close_account : Output
close_account = record {
  name = some "account";
  target_param = some "customer";
  operation = some "update";
  writeback = some true;
  field_mappings =
      some (record { target_field = "state"; source = none; value = some (text "closed") } ∷ []);
}

abbrev node : ActionNode
node = record {
  api_name = some "close_account";
  display_name = some "Close account";
  execution = some (record {
    type = some "native_crud";
    native_crud_json = some (record { outputs = some (close_account ∷ []); settings = [] });
    python_script = none;
    sql_template = none;
    webhook_config_json = none;
  });
  safety_level = some "SAFETY_CRITICAL";
  side_effects = none;
  parameters = some (customer ∷ []);
}

abbrev ada : Instance
ada = ("_type_rid", text "ri.obj.1") ∷ ("_primary_key", text "ada") ∷ []

abbrev services : Services
services = record {
  executions = memory_table Execution;
  edit_logs = memory_table EditLog;
  Outside = ℕ;
  run_engine = λ engine config values instances n.
      (ok (record { data_value = []; computed_values = [] }), suc n);
  get_object_type = λ rid tenant. some node;
  get_instance = λ type_rid tenant key. ok (some ada);
  isoformat = λ n. "2026-01-01";
}

abbrev empty : World services
empty = record { executions = []; edit_logs = []; outside = 0 }

abbrev request : String → String → ℕ → Request
request user uuid now = record {
  tenant_id = "t1";
  user_id = user;
  now = now;
  execution_uuid = uuid;
  entry_uuid = λ n. uuid;
}

abbrev asking : Request
asking = request "ada" "1" 100

abbrev params : Dict String Value
params = ("customer", Value.object (Fields.field "primary_key" (text "ada") Fields.end)) ∷ []

abbrev asked : World services
asked = (execute_action services asking "ri.action.1" params none false empty).1

execute_action-IsSilent_example : IsSilent services empty asked
execute_action-IsSilent_example =
    execute_action-IsSilent services asking "ri.action.1" node params none empty refl
      (unfold string_eq in refl)

abbrev resolved_params : ResolvedParams
resolved_params = record { values = params; instances = ("customer", ada) ∷ [] }

params_resolve : resolve services.get_instance "t1" (customer ∷ []) params ≡ ok resolved_params
unfolding resolve lookup insert string_eq
params_resolve = refl

executions-IsLawful : Table.IsLawful services.executions
executions-IsLawful = memory_table-IsLawful Execution

confirm-execute_example :
    Delegates services
      (execute_action services (request "bob" "2" 600) "ri.action.1" params none true asked)
      (confirm_execution services (request "bob" "2" 600) (new_execution_id asking) asked)
confirm-execute_example =
    confirm-execute services executions-IsLawful asking (request "bob" "2" 600) "ri.action.1" node
      params none resolved_params empty refl (unfold string_eq in refl) params_resolve
      (unfold count in refl) refl (omega arith)

abbrev asked_record : Execution
asked_record = record {
  execution_id = "exec_1";
  tenant_id = "t1";
  capability_type = "action";
  capability_rid = "ri.action.1";
  status = pending_confirmation;
  params = params;
  result = none;
  safety_level = some "SAFETY_CRITICAL";
  side_effects = [];
  user_id = "ada";
  branch = none;
  started_at = 100;
  completed_at = none;
  confirmed_at = none;
  confirmed_by = none;
}

abbrev recorded : World services
recorded = record { executions = asked_record ∷ []; edit_logs = []; outside = 0 }

abbrev later : List (Request × Call)
later =
    (request "cyd" "3" 650, confirm "exec_1")
    ∷ (request "cyd" "4" 660, execute "ri.action.1" params none true)
    ∷ (request "ada" "5" 670, cancel "exec_1")
    ∷ []

later-IsFresh : IsFresh "exec_1" later
unfolding string_eq
later-IsFresh = (refl, (refl, (refl, tt)))

abbrev message : AppError → String
message e = "error"

confirmed : is_ok (confirm_execution services (request "bob" "2" 600) "exec_1" recorded).0 ≡ true
unfolding confirm_execution expire execute_action ◌>>=◌ get_by_id on_executions load resolve insert
    lookup string_eq check on_edit_logs write_editlog
confirmed = refl

confirm-IsClosed_late_example :
    let after = (confirm_execution services (request "bob" "2" 701) "exec_1" recorded).1 in
    ((confirm_execution services (request "bob" "2" 701) "exec_1" recorded).0
      ≡ err (app_error function_confirmation_expired))
    × IsSilent services recorded after
    × IsClosed services (request "bob" "6" 720) "exec_1" (run services message later after)
confirm-IsClosed_late_example =
    confirm-IsClosed_late services executions-IsLawful message (request "bob" "2" 701)
      (request "bob" "6" 720) "exec_1" later recorded refl later-IsFresh asked_record
      (unfold get_by_id in unfold string_eq in refl) refl (omega arith)

confirm-IsClosed_example : IsClosed services (request "bob" "6" 680) "exec_1" (
    run services message later
      (confirm_execution services (request "bob" "2" 600) "exec_1" recorded).1)
confirm-IsClosed_example =
    confirm-IsClosed services executions-IsLawful message (request "bob" "2" 600)
      (request "bob" "6" 680) "exec_1" later recorded refl later-IsFresh confirmed

was_cancelled : is_ok (cancel_execution services (request "bob" "2" 600) "exec_1" recorded).0 ≡ true
unfolding cancel_execution ◌>>=◌ get_by_id on_executions string_eq
was_cancelled = refl

cancel-IsClosed_example : IsClosed services (request "bob" "6" 680) "exec_1" (
    run services message later
      (cancel_execution services (request "bob" "2" 600) "exec_1" recorded).1)
cancel-IsClosed_example =
    cancel-IsClosed services executions-IsLawful message (request "bob" "2" 600)
      (request "bob" "6" 680) "exec_1" later recorded refl later-IsFresh was_cancelled

abbrev items : List (Request × Dict String Value)
items = (asking, params) ∷ (request "ada" "2" 101, []) ∷ []

execute_action_batch-IsComplete_example :
    IsComplete 2 (execute_action_batch services "ri.action.1" none true items empty).0
execute_action_batch-IsComplete_example =
    execute_action_batch-IsComplete services "ri.action.1" none true items empty
