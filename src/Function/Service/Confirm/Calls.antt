-- ===== src/Function/Service/Confirm/Calls.antt =====
-- Calls of any users and background tasks in any order: none makes another execution pending.
use lingshu_round.Prelude.{
  ℕ, ◌≤◌, String, ◌≡◌, refl, Bool, true, false, Option, List, [], ◌∷◌, arith, ◌==◌, string_eq,
}
use lingshu_round.Prelude.Dict.{Dict}
use lingshu_round.Prelude.Value.{Value}
use lingshu_round.Infra.Errors.{AppError}
use lingshu_round.Infra.Exec.{Result, ok, err}
use lingshu_round.Infra.Table
use lingshu_round.Function.Executions.{is_pending, awaits}
use lingshu_round.Function.Services.{Request, Services, World, ExecutionResponse, new_execution_id}
use lingshu_round.Function.Service.{execute_action}
use lingshu_round.Function.Service.Settling.{
  executions_with, Lowers, Lowers-pure, Lowers-raise, Lowers-gets, Lowers-require, Lowers-raise_if,
  Lowers-bind, Lowers-settle, Lowers-log_complete, Lowers-log_start, Lowers-execute_action,
}
use lingshu_round.Function.Service.Confirm.{
  delegated, expire, pending, confirm_pending, confirm_execution, cancel_execution,
}
use lingshu_round.Function.Service.Background.{
  BackgroundTask, execute_action_async, outcome, execute_async_background,
}

-- one request of any user, or a background task that runs
pub data Call : Type 0 where
  execute : String → Dict String Value → Option String → Bool → Call
  execute_async : String → Dict String Value → Option String → Bool → Call
  background : BackgroundTask → Call
  confirm : String → Call
  cancel : String → Call

module _ (V : Services) (message : AppError → String) where
  unfoldable pub perform : Request → Call → World V → World V
  perform q (execute rid params branch skip) w = (execute_action V q rid params branch skip w).1
  perform q (execute_async rid params branch skip) w =
      (execute_action_async V q rid params branch skip w).1
  perform q (background t) w = execute_async_background V message q t w
  perform q (confirm execution_id) w = (confirm_execution V q execution_id w).1
  perform q (cancel execution_id) w = (cancel_execution V q execution_id w).1

  -- the calls one after the other, each whatever the outcome of those before it
  unfoldable pub run : List (Request × Call) → World V → World V
  unfolding perform
  run [] w = w
  run ((q, c) ∷ cs) w = run cs (perform q c w)

-- no call makes an execution with this id
abbrev pub IsFresh : String → List (Request × Call) → Type 0
IsFresh execution_id [] = Unit
IsFresh execution_id ((q, _) ∷ cs) =
    (new_execution_id q == execution_id ≡ false) × IsFresh execution_id cs

module _ (V : Services) (L : Table.IsLawful V.executions) (execution_id tenant_id : String) where
  abbrev pub waiting : World V → ℕ
  waiting w = executions_with V (awaits execution_id tenant_id) w

  module _ (q : Request) where
    Lowers-expire :
        (other : String) (late : Bool)
        → Lowers V (awaits execution_id tenant_id) (expire V q other late)
    unfolding expire
    Lowers-expire other false = Lowers-pure tt
    Lowers-expire other true =
        Lowers-bind _ _ (Lowers-log_complete L execution_id tenant_id _ _ _ _ _ _ refl)
          λ _. Lowers-raise _

    Lowers-pending : (other : String) → Lowers V (awaits execution_id tenant_id) (pending V q other)
    unfolding pending
    Lowers-pending other = Lowers-bind _ _ (Lowers-gets _) λ found.
        Lowers-bind _ _ (Lowers-require found _)
          λ e. Lowers-bind _ _ (Lowers-raise_if _ _) λ _. Lowers-pure e

    Lowers-confirm :
        (other : String)
        → new_execution_id q == execution_id ≡ false
        → Lowers V (awaits execution_id tenant_id) (confirm_execution V q other)
    unfolding confirm_execution confirm_pending
    Lowers-confirm other fresh = Lowers-bind _ _ (Lowers-pending other) λ e.
        Lowers-bind _ _ (Lowers-expire other _) λ _.
          Lowers-bind _ _
            (Lowers-execute_action L execution_id tenant_id q e.capability_rid e.params e.branch
              true fresh)
            λ r.
              Lowers-bind _ _
                (Lowers-settle L execution_id tenant_id other q.tenant_id
                  (delegated q.now r.execution_id) refl)
                λ _. Lowers-pure r

    Lowers-cancel :
        (other : String) → Lowers V (awaits execution_id tenant_id) (cancel_execution V q other)
    unfolding cancel_execution
    Lowers-cancel other = Lowers-bind _ _ (Lowers-pending other) λ e.
        Lowers-bind _ _ (Lowers-log_complete L execution_id tenant_id _ _ _ _ _ _ refl)
          λ _. Lowers-pure _

    Lowers-async :
        (rid : String) (params : Dict String Value) (branch : Option String) (skip : Bool)
        → Lowers V (awaits execution_id tenant_id) (execute_action_async V q rid params branch skip)
    unfolding execute_action_async
    Lowers-async rid params branch skip =
        Lowers-bind _ _
          (Lowers-log_start L execution_id tenant_id _ _ _ _ _ _ _ _ _ _ _ (ground arith))
          λ _. Lowers-pure _

    -- nothing more is waiting after a background task
    background-le :
        (message : AppError → String) (t : BackgroundTask) (w : World V)
        → new_execution_id q == execution_id ≡ false
        → waiting (execute_async_background V message q t w) ≤ waiting w
    unfolding execute_async_background
    background-le message t w fresh =
        let (r, w') = execute_action V q t.action_type_rid t.params t.branch true w in
        omega (
          arith,
          (Lowers-settle L execution_id tenant_id t.execution_id t.tenant_id
                (outcome V message r q.now) (outcome-settled r)).at
              w',
          (Lowers-execute_action L execution_id tenant_id q t.action_type_rid t.params t.branch true
                fresh).at
              w,
        )
      where
        outcome-settled :
            (r : Result ExecutionResponse) → is_pending (outcome V message r q.now).status ≡ false
        outcome-settled (ok r) = refl
        outcome-settled (err e) = refl

  perform-le :
      (message : AppError → String) (q : Request) (c : Call) (w : World V)
      → new_execution_id q == execution_id ≡ false
      → waiting (perform V message q c w) ≤ waiting w
  unfolding perform
  perform-le message q (execute rid params branch skip) w fresh =
      (Lowers-execute_action L execution_id tenant_id q rid params branch skip fresh).at w
  perform-le message q (execute_async rid params branch skip) w fresh =
      (Lowers-async q rid params branch skip).at w
  perform-le message q (background t) w fresh = background-le q message t w fresh
  perform-le message q (confirm other) w fresh = (Lowers-confirm q other fresh).at w
  perform-le message q (cancel other) w fresh = (Lowers-cancel q other).at w

  pub run-le :
      (message : AppError → String) (cs : List (Request × Call)) (w : World V)
      → IsFresh execution_id cs
      → waiting (run V message cs w) ≤ waiting w
  unfolding run
  run-le message [] w fresh = omega arith
  run-le message ((q, c) ∷ cs) w fresh =
      omega (
        arith,
        run-le message cs (perform V message q c w) fresh.1,
        perform-le message q c w fresh.0,
      )
