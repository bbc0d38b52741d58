-- ===== src/Function/Service/Confirm.antt =====
-- function/service.py: confirming, cancelling and reading an execution.
pub mod Calls
pub mod Settled
pub mod Delegation
pub mod Expiry
use lingshu_round.Prelude.{
  ℕ, ◌+◌, String, Bool, true, false, not, Option, none, some, List, [], ◌∷◌, ltb, is_some,
}
use lingshu_round.Prelude.Dict.{Dict}
use lingshu_round.Prelude.Value.{Value, text}
use lingshu_round.Infra.Errors.{
  AppError, app_error, function_not_found, common_invalid_input, function_confirmation_expired,
}
use lingshu_round.Infra.Exec.{
  Result, ok, err, Exec, pure, raise, gets, require, raise_if, ◌>>=◌, ◌>>◌,
}
use lingshu_round.Function.Executions.{
  Execution, Status, StatusUpdate, pending_confirmation, success, expired, cancelled, is_pending,
  get_by_id, update_status, log_complete,
}
use lingshu_round.Function.Services.{Request, Services, World, ExecutionResponse, on_executions}
use lingshu_round.Function.Service.{execute_action}

-- `CONFIRMATION_TTL`, in seconds
abbrev pub confirmation_ttl : ℕ
confirmation_ttl = 600

-- the update of the execution that was confirmed; the new one that did the work is named in it
abbrev pub delegated : ℕ → String → StatusUpdate
delegated now execution_id = record {
  status = success;
  result = some (("delegated_to", text execution_id) ∷ []);
  completed_at = some now;
  confirmed_at = some now;
  confirmed_by = some "user";
}

module _ (V : Services) (q : Request) where
  -- the check of the expiry
  unfoldable pub expire : String → Bool → Exec (World V) Unit
  expire execution_id false = pure tt
  expire execution_id true = do
    on_executions V (log_complete V.executions execution_id q.tenant_id expired none none q.now)
    raise (app_error function_confirmation_expired)

  -- the execution of a request, if it waits for its confirmation
  unfoldable pub pending : String → Exec (World V) Execution
  pending execution_id = do
    found ← gets (λ w. get_by_id V.executions execution_id q.tenant_id w.executions)
    execution ← require found (app_error function_not_found)
    raise_if (not (is_pending execution.status)) (app_error common_invalid_input)
    pure execution

  -- the rest of a confirmation
  unfoldable pub confirm_pending : String → Execution → Exec (World V) ExecutionResponse
  unfolding expire
  confirm_pending execution_id execution = do
    expire execution_id (ltb (execution.started_at + confirmation_ttl) q.now)
    result ← execute_action V q execution.capability_rid execution.params execution.branch true
    on_executions V
        (update_status V.executions execution_id q.tenant_id (delegated q.now result.execution_id))
    pure result

  unfoldable pub confirm_execution : String → Exec (World V) ExecutionResponse
  unfolding pending confirm_pending
  confirm_execution execution_id = do
    execution ← pending execution_id
    confirm_pending execution_id execution

  unfoldable pub cancel_execution : String → Exec (World V) ExecutionResponse
  unfolding pending
  cancel_execution execution_id = do
    pending execution_id
    on_executions V (log_complete V.executions execution_id q.tenant_id cancelled none none q.now)
    pure (record {
      execution_id = execution_id;
      status = cancelled;
      result = none;
      confirmation = none;
      started_at = none;
      completed_at = some q.now;
    })

  unfoldable pub get_execution : String → Exec (World V) Execution
  get_execution execution_id = do
    found ← gets (λ w. get_by_id V.executions execution_id q.tenant_id w.executions)
    require found (app_error function_not_found)
