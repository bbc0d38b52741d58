-- ===== src/Function/Service/Confirm/Expiry.antt =====
-- function/service.py: a confirmation that comes too late.
use lingshu_round.Prelude.{◌+◌, ◌<◌, String, ◌≡◌, refl, sym, subst, true, none, some, List}
use lingshu_round.Infra.Errors.{AppError, app_error, function_confirmation_expired}
use lingshu_round.Infra.Exec.{Result, err}
use lingshu_round.Infra.Table
use lingshu_round.Function.Executions.{
  Execution, is_pending, get_by_id, expired, completion, log_complete,
}
use lingshu_round.Function.Services.{Request, Services, World, ExecutionResponse, on_executions}
use lingshu_round.Function.Service.Unconfirmed.{IsSilent}
use lingshu_round.Function.Service.Confirm.{confirmation_ttl, confirm_execution}
use lingshu_round.Function.Service.Confirm.Calls.{Call, run, IsFresh, waiting}
use lingshu_round.Function.Service.Confirm.Settled.{IsClosed, settled_by_update, IsClosed-of}
use lingshu_round.Function.Service.Confirm.Delegation.{confirm_late}

module _ (V : Services) (L : Table.IsLawful V.executions) (message : AppError → String)
    (q q' : Request) (execution_id : String) (cs : List (Request × Call)) (w : World V)
    (same_tenant : q'.tenant_id ≡ q.tenant_id) (fresh : IsFresh execution_id cs) where
  none_wait :
      waiting V L execution_id q.tenant_id
        (on_executions V
          (log_complete V.executions execution_id q.tenant_id expired none none q.now)
          w).1
      ≡ 0
  unfolding log_complete
  none_wait =
      settled_by_update V L execution_id q.tenant_id (completion expired none none q.now) w refl

  -- When the confirmation of an execution that waits for it comes later than ten minutes after the
  -- start, it is refused as expired, writes no edit and runs no engine; and whatever calls and
  -- background tasks of any users follow, every confirmation or cancellation of the execution by
  -- its tenant is refused and changes nothing, as long as no later call makes an execution with the
  -- same id.
  pub confirm-IsClosed_late :
      (e : Execution)
      → get_by_id V.executions execution_id q.tenant_id w.executions ≡ some e
      → is_pending e.status ≡ true
      → e.started_at + confirmation_ttl < q.now
      → let after = (confirm_execution V q execution_id w).1 in
        ((confirm_execution V q execution_id w).0 ≡ err (app_error function_confirmation_expired))
        × IsSilent V w after
        × IsClosed V q' execution_id (run V message cs after)
  unfolding on_executions
  confirm-IsClosed_late e found waits late =
      subst
        (λ (o : Result ExecutionResponse × World V).
          (o.0 ≡ err (app_error function_confirmation_expired))
          × IsSilent V w o.1
          × IsClosed V q' execution_id (run V message cs o.1))
        (sym (confirm_late V q execution_id e w found waits late))
        (
          refl,
          (refl, refl),
          IsClosed-of V L execution_id q.tenant_id message q' cs _ same_tenant fresh none_wait,
        )
