-- ===== src/Function/Service/Background.antt =====
-- function/service.py: an action that is executed in the background.
use lingshu_round.Prelude.{ℕ, String, Bool, true, Option, none, some, [], ◌∷◌}
use lingshu_round.Prelude.Dict.{Dict}
use lingshu_round.Prelude.Value.{Value, text}
use lingshu_round.Infra.Errors.{AppError}
use lingshu_round.Infra.Exec.{Result, ok, err, Exec, pure, ◌>>=◌}
use lingshu_round.Function.Executions.{
  Status, StatusUpdate, running, success, failed, log_start, update_status,
}
use lingshu_round.Function.Services.{
  Request, Services, World, ExecutionResponse, new_execution_id, on_executions,
}
use lingshu_round.Function.Service.{execute_action}

-- the arguments of the task that `execute_action_async` schedules
pub record BackgroundTask : Type 0 where
  pub execution_id : String
  pub action_type_rid : String
  pub params : Dict String Value
  pub tenant_id : String
  pub branch : Option String
  pub skip_confirmation : Bool

module _ (V : Services) where
  -- The response, and the task that runs later.
  unfoldable pub execute_action_async :
      Request
      → String
      → Dict String Value
      → Option String
      → Bool
      → Exec (World V) (ExecutionResponse × BackgroundTask)
  execute_action_async q action_type_rid params branch skip_confirmation =
      let response : ExecutionResponse = record {
        execution_id = new_execution_id q;
        status = running;
        result = none;
        confirmation = none;
        started_at = some q.now;
        completed_at = none;
      } in
      let task : BackgroundTask = record {
        execution_id = new_execution_id q;
        action_type_rid = action_type_rid;
        params = params;
        tenant_id = q.tenant_id;
        branch = branch;
        skip_confirmation = skip_confirmation;
      } in
      on_executions V (
        log_start V.executions (new_execution_id q) q.tenant_id "action" action_type_rid running
          params (some "unknown") [] q.user_id branch q.now)
      >>= λ e. pure (response, task)

  abbrev finished : Status → Option (Dict String Value) → ℕ → StatusUpdate
  finished status result now = record {
    status = status;
    result = result;
    completed_at = some now;
    confirmed_at = none;
    confirmed_by = none;
  }

  -- the update after the action, and `str(e)` of its error
  abbrev pub outcome : (AppError → String) → Result ExecutionResponse → ℕ → StatusUpdate
  outcome message (ok r) now = finished success r.result now
  outcome message (err e) now = finished failed (some (("error", text (message e)) ∷ [])) now

  -- `_execute_async_background`, in the request that the task inherits
  unfoldable pub execute_async_background :
      (AppError → String) → Request → BackgroundTask → World V → World V
  execute_async_background message q t w =
      let (r, w') = execute_action V q t.action_type_rid t.params t.branch true w in
      let (_, w'') =
        on_executions V
          (update_status V.executions t.execution_id t.tenant_id (outcome message r q.now)) w' in
      w''
