-- ===== src/Function/Service.antt =====
-- function/service.py: executing an action. The state is what the service's tables hold and what
-- the scripts, queries and webhooks of the other engines act on.
pub mod Unconfirmed
pub mod Settling
pub mod Batch
pub mod Confirm
pub mod Background
use lingshu_round.Prelude.{
  ℕ, zero, suc, ◌+◌, String, ◌<>◌, Bool, true, false, Option, none, some, List, [], ◌∷◌, map, any,
  if◌then◌else◌, is_empty, string_eq, ◌==◌,
}
use lingshu_round.Prelude.Dict.{Dict, lookup}
use lingshu_round.Prelude.Value.{
  Value, Items, Fields, text, object, array, nil, cons, end, field, null,
}
use lingshu_round.Infra.Errors.{app_error, function_execution_failed}
use lingshu_round.Infra.Exec.{Result, ok, err, Exec, pure, raise, lift, ◌>>=◌, ◌>>◌}
use lingshu_round.Infra.Table.{Table}
use lingshu_round.Data.EditLog.{EditLog, object_of, write_editlog}
use lingshu_round.Function.Safety.{SafetyDecision, check}
use lingshu_round.Function.Executions.{
  Execution, Status, pending_confirmation, success, log_start, log_complete,
}
use lingshu_round.Function.Actions.{
  ActionNode, ActionDefinition, Output, EngineConfig, ExecutionConfig, Engine, native_crud,
  python_venv, sql_runner, webhook, engine_of, config_of, or_default, load, output_dict,
  writes_back,
}
use lingshu_round.Function.Params.{Instance, ResolvedParams, resolve}
use lingshu_round.Function.NativeCrud.{EngineResult, execute, value_or_null}
use lingshu_round.Function.Services.{
  Request, Services, World, Confirmation, ExecutionResponse, Writeback, result_data,
  new_execution_id, branch_or_main, instance_type, instance_key, on_executions, on_edit_logs,
  on_outside,
}

module _ (V : Services) where
  module _ (q : Request) where
    -- `_execute_engine`, for an engine of the table
    unfoldable pub run : Engine → EngineConfig → ResolvedParams → Exec (World V) EngineResult
    run native_crud config r =
        pure (execute (V.isoformat q.now) q.user_id config r.values r.instances)
    run python_venv config r = on_outside V (V.run_engine python_venv config r.values r.instances)
    run sql_runner config r = on_outside V (V.run_engine sql_runner config r.values r.instances)
    run webhook config r = on_outside V (V.run_engine webhook config r.values r.instances)

    unfoldable pub execute_engine : ExecutionConfig → ResolvedParams → Exec (World V) EngineResult
    unfolding run engine_of config_of
    execute_engine config r = elim (engine_of (or_default config.type "native_crud")) [
      | none ↦ raise (app_error function_execution_failed)
      | some engine ↦ run engine (config_of engine config) r
    ]

    -- the instance that an output is written to: one that is missing or empty is skipped
    abbrev pub target_of : Output → Dict String Instance → Option Instance
    target_of o instances = elim (lookup (or_default o.target_param "") instances) [
      | none ↦ none
      | some i ↦ if is_empty i then none else some i
    ]

    -- the entry of the edit log for one output
    abbrev pub entry_of : Output → EngineResult → String → Option String → Instance → ℕ → EditLog
    entry_of o result action_type_rid branch i n = record {
      entry_id = q.entry_uuid n;
      tenant_id = q.tenant_id;
      type_rid = instance_type i;
      primary_key = instance_key i;
      operation = or_default o.operation "update";
      field_values = or_default (lookup (or_default o.name "") result.computed_values) [];
      user_id = q.user_id;
      action_type_rid = some action_type_rid;
      branch = branch_or_main branch;
      created_at = q.now;
    }

    abbrev writeback_of : Output → String → Writeback
    writeback_of o entry_id = record {
      output = or_default o.name "";
      entry_id = entry_id;
      operation = or_default o.operation "update";
      target_param = or_default o.target_param "";
    }

    -- the loop of `_process_writeback`; `n` entries were written so far
    unfoldable pub process_writeback :
        List Output
        → EngineResult
        → Dict String Instance
        → String
        → Option String
        → ℕ
        → Exec (World V) (List Writeback)
    process_writeback [] result instances action_type_rid branch n = pure []
    process_writeback (o ∷ os) result instances action_type_rid branch n =
        let rest = process_writeback os result instances action_type_rid branch n in
        let after = process_writeback os result instances action_type_rid branch (suc n) in
        if writes_back o
        then elim (target_of o instances) [
          | none ↦ rest
          | some i ↦
              (on_edit_logs V
                  (write_editlog V.edit_logs (entry_of o result action_type_rid branch i n))
                >>= λ entry_id. after >>= λ bs. pure (writeback_of o entry_id ∷ bs))
        ]
        else rest

    -- the branch on `decision.requires_confirmation`: the execution is only recorded
    unfoldable pub ask_confirmation :
        ActionDefinition
        → SafetyDecision
        → Dict String Value
        → Option String
        → Exec (World V) ExecutionResponse
    ask_confirmation action decision params branch = do
      on_executions V (
          log_start V.executions (new_execution_id q) q.tenant_id "action" action.rid
            pending_confirmation params (some action.safety_level) action.side_effects q.user_id
            branch q.now)
      pure (record {
        execution_id = new_execution_id q;
        status = pending_confirmation;
        result = none;
        confirmation = some (record {
          message = decision.message;
          safety_level = action.safety_level;
          affected_outputs = decision.affected_outputs;
          side_effects = decision.side_effects;
          confirm_url = "/function/v1/executions/" <> (new_execution_id q <> "/confirm");
          cancel_url = "/function/v1/executions/" <> (new_execution_id q <> "/cancel");
        });
        started_at = some q.now;
        completed_at = none;
      })

    -- stages 4 and 5: the engine, the write-back and the record
    unfoldable pub carry_out :
        ActionDefinition
        → ResolvedParams
        → Dict String Value
        → Option String
        → Bool
        → Exec (World V) ExecutionResponse
    unfolding execute_engine process_writeback
    carry_out action resolved params branch skip_confirmation = do
      engine_result ← execute_engine action.execution resolved
      writebacks ←
          if any writes_back action.outputs
          then process_writeback action.outputs engine_result resolved.instances action.rid branch 0
          else pure []
      on_executions V (
          log_start V.executions (new_execution_id q) q.tenant_id "action" action.rid success params
            (some action.safety_level) action.side_effects q.user_id branch q.now)
      on_executions V (
          log_complete V.executions (new_execution_id q) q.tenant_id success
            (some (result_data engine_result writebacks))
            (if skip_confirmation then some "copilot_interrupt" else none) q.now)
      pure (record {
        execution_id = new_execution_id q;
        status = success;
        result = some (result_data engine_result writebacks);
        confirmation = none;
        started_at = some q.now;
        completed_at = some q.now;
      })

    -- `self._safety.check(...)` for an action
    abbrev pub decision_of : ActionDefinition → Bool → SafetyDecision
    decision_of action skip_confirmation =
        check action.safety_level (map output_dict action.outputs) action.side_effects
          skip_confirmation

    -- stages 3 to 5, for a definition and its resolved parameters
    unfoldable pub decide :
        ActionDefinition
        → ResolvedParams
        → Dict String Value
        → Option String
        → Bool
        → Exec (World V) ExecutionResponse
    unfolding ask_confirmation carry_out
    decide action resolved params branch skip_confirmation =
        if (decision_of action skip_confirmation).requires_confirmation
        then ask_confirmation action (decision_of action skip_confirmation) params branch
        else carry_out action resolved params branch skip_confirmation

    unfoldable pub execute_action :
        String → Dict String Value → Option String → Bool → Exec (World V) ExecutionResponse
    unfolding decide
    execute_action action_type_rid params branch skip_confirmation = do
      action ← lift (load V.get_object_type q.tenant_id action_type_rid)
      resolved ← lift (resolve V.get_instance q.tenant_id action.parameters params)
      decide action resolved params branch skip_confirmation
