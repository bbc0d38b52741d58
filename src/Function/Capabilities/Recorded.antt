-- ===== src/Function/Capabilities/Recorded.antt =====
-- The record of a global function's execution says how it ended.
use lingshu_round.Prelude.{
  ℕ, String, ◌≡◌, refl, ◌∙◌, sym, subst, Bool, true, false, not, ◌&&◌, Option, none, some, [],
  if◌then◌else◌, ◌==◌, ==_refl, Eq, string_eq, arith,
}
use lingshu_round.Prelude.Count.{count, one_if, count_ext, count_mono}
use lingshu_round.Prelude.Dict.{Dict}
use lingshu_round.Prelude.Value.{Value}
use lingshu_round.Infra.Errors.{AppError, app_error, function_not_found}
use lingshu_round.Infra.Exec.{Result, ok, err, Exec, raise, gets, lift, require, ◌>>=◌, ◌>>◌}
use lingshu_round.Infra.Table
use lingshu_round.Function.Executions.{
  Execution, Status, StatusUpdate, running, success, failed, is_execution, completion, apply_status,
  log_start, started, log_complete,
}
use lingshu_round.Function.Registry.{GlobalFunction, get_by_rid, get}
use lingshu_round.Function.Globals.{execute}
use lingshu_round.Function.Services.{Request, ExecutionResponse, new_execution_id}
use lingshu_round.Function.Service.Batch.{is_unhandled}
use lingshu_round.Function.Capabilities.{
  Catalog, World, data_of, on_executions, on_outside, complete, roll_back, finish, attempt, start,
  execute_function,
}

pub Status-discrete : Discrete Status
Status-discrete = hlevel

instance unfoldable pub status_eq : Eq Status
status_eq = record { dec = Status-discrete }

-- what the record says after a request
abbrev pub status_after : Result ExecutionResponse → Status
status_after (ok r) = success
status_after (err e) = failed

-- the request did not end by an exception that is no `AppError`
abbrev pub is_kept : Result ExecutionResponse → Bool
is_kept (ok r) = true
is_kept (err e) = not (is_unhandled e)

module _ (C : Catalog) (L : Table.IsLawful C.executions) (q : Request) where
  -- how many records of the request's execution have the status
  abbrev pub recorded : Status → World C → ℕ
  recorded status w =
      count
        (λ (e : Execution). is_execution (new_execution_id q) q.tenant_id e && e.status == status)
        (C.executions.rows w.executions)

  abbrev pub records : World C → ℕ
  records w = count (is_execution (new_execution_id q) q.tenant_id) (C.executions.rows w.executions)

  completed_row :
      (status : Status) (result : Option (Dict String Value)) (e : Execution) (b : Bool)
      → is_execution (new_execution_id q) q.tenant_id e ≡ b
      → (is_execution
            (new_execution_id q)
            q.tenant_id
            (if b then apply_status (completion status result none q.now) e else e)
          && (if b then apply_status (completion status result none q.now) e else e).status
            == status)
        ≡ is_execution (new_execution_id q) q.tenant_id e
  completed_row status result e true h = ground (arith, ==_refl status)
  completed_row status result e false h = ground arith

  recorded-complete :
      (status : Status) (result : Option (Dict String Value)) (w : World C)
      → recorded status (complete C q status result w).1 ≡ records w
  unfolding on_executions log_complete
  recorded-complete status result w =
      L.count-update_where
        (λ (e : Execution). is_execution (new_execution_id q) q.tenant_id e && e.status == status)
        (is_execution (new_execution_id q) q.tenant_id)
        (apply_status (completion status result none q.now)) w.executions
      ∙ count_ext _ _ _ (λ e. completed_row status result e _ refl)

  -- the request left its one record, with the status, or none at all
  abbrev pub IsRecorded : Result ExecutionResponse × World C → Type 0
  IsRecorded o =
      (records o.1 ≡ one_if (is_kept o.0))
      × (recorded (status_after o.0) o.1 ≡ one_if (is_kept o.0))

  same_id :
      (u : StatusUpdate) (e : Execution) (b : Bool)
      → is_execution (new_execution_id q) q.tenant_id (if b then apply_status u e else e)
        ≡ is_execution (new_execution_id q) q.tenant_id e
  same_id u e true = refl
  same_id u e false = refl

  records-complete :
      (status : Status) (result : Option (Dict String Value)) (w : World C)
      → records (complete C q status result w).1 ≡ records w
  unfolding on_executions log_complete
  records-complete status result w =
      L.count-update_where (is_execution (new_execution_id q) q.tenant_id)
        (is_execution (new_execution_id q) q.tenant_id)
        (apply_status (completion status result none q.now)) w.executions
      ∙ count_ext _ _ _ (λ e. same_id (completion status result none q.now) e _)

  none_recorded : (status : Status) (w : World C) → records w ≡ 0 → recorded status w ≡ 0
  none_recorded status w fresh = omega (
    arith,
    count_mono
        (λ (e : Execution). is_execution (new_execution_id q) q.tenant_id e && e.status == status)
        (is_execution (new_execution_id q) q.tenant_id) (C.executions.rows w.executions)
        (λ e h. ground arith),
  )

  records-start :
      (rid : String) (params : Dict String Value) (branch : Option String) (w : World C)
      → records w ≡ 0
      → records (start C q rid params branch w).1 ≡ 1
  unfolding on_executions log_start
  records-start rid params branch w fresh =
      let row =
        started (new_execution_id q) q.tenant_id "function" rid running params
          (some "SAFETY_READ_ONLY") [] q.user_id branch q.now in
      ground (
        arith,
        L.count-insert (is_execution (new_execution_id q) q.tenant_id) row w.executions,
        ==_refl (new_execution_id q),
        ==_refl q.tenant_id,
      )

  abbrev ended : C.executions.State → AppError → Bool → Exec (World C) ExecutionResponse
  ended committed e b =
      if b then roll_back C q committed >> raise e else complete C q failed none >> raise e

  IsRecorded-ended :
      (committed : C.executions.State) (e : AppError) (b : Bool) (w : World C)
      → is_unhandled e ≡ b
      → records w ≡ 1
      → records (record w { executions = committed }) ≡ 0
      → IsRecorded (ended committed e b w)
  unfolding on_executions ◌>>=◌
  IsRecorded-ended committed e true w h one none_before =
      let none_failed = none_recorded failed (record w { executions = committed }) none_before in
      (ground arith, ground arith)
  IsRecorded-ended committed e false w h one none_before =
      let all = records-complete failed none w in
      let which = recorded-complete failed none w in (ground arith, ground arith)

  IsRecorded-finish :
      (committed : C.executions.State) (r : Result Value) (w : World C)
      → records w ≡ 1
      → records (record w { executions = committed }) ≡ 0
      → IsRecorded (finish C q committed r w)
  unfolding finish on_executions ◌>>=◌
  IsRecorded-finish committed (ok v) w one none_before = (
    records-complete success (some (data_of v)) w ∙ one,
    recorded-complete success (some (data_of v)) w ∙ one,
  )
  IsRecorded-finish committed (err e) w one none_before =
      IsRecorded-ended committed e (is_unhandled e) w refl one none_before

  -- A global function that is found leaves one record of its execution, and the record says how it
  -- ended: success with a response, failed with an `AppError`. After any other exception there is no
  -- record. All this as long as no record had the new id before.
  pub execute_function-IsRecorded :
      (rid : String) (params : Dict String Value) (branch : Option String) (f : GlobalFunction)
      (w : World C)
      → get_by_rid C.functions rid q.tenant_id w.functions ≡ some f
      → records w ≡ 0
      → IsRecorded (execute_function C q rid params branch w)
  unfolding execute_function get on_executions attempt on_outside ◌>>=◌
  execute_function-IsRecorded rid params branch f w found fresh =
      let begun = (start C q rid params branch w).1 in
      subst
        (λ o. IsRecorded (
          (lift (require o (app_error function_not_found) w.functions).0 >>= λ function.
          gets (λ (u : World C). u.executions) >>= λ committed.
          start C q rid params branch
          >> (attempt C q function.implementation params >>= finish C q committed))
            w))
        (sym found)
        (IsRecorded-finish w.executions
          (execute C.backends f.implementation params q.tenant_id w.outside).0
          (record begun {
            outside = (execute C.backends f.implementation params q.tenant_id w.outside).1;
          })
          (records-start rid params branch w fresh) fresh)
