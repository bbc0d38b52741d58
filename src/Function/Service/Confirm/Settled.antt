-- ===== src/Function/Service/Confirm/Settled.antt =====
-- An execution is confirmed or cancelled once.
use lingshu_round.Prelude.{
  String, ◌≡◌, refl, ◌∙◌, sym, ap, subst, Bool, true, false, not, Option, none, some, List, arith,
  if◌then◌else◌, string_eq, Bool-cases, inl, inr,
}
use lingshu_round.Prelude.Count.{count_none, count-pos_of_find, find-holds}
use lingshu_round.Infra.Errors.{AppError, app_error, function_not_found, common_invalid_input}
use lingshu_round.Infra.Exec.{Result, err, is_ok, Exec, pure, lift, require, raise_if, ◌>>=◌}
use lingshu_round.Infra.Table
use lingshu_round.Infra.Falls.{Settles, Settles-bind}
use lingshu_round.Function.Executions.{
  Execution, StatusUpdate, cancelled, is_pending, awaits, is_execution, get_by_id, update_status,
  completion, log_complete, apply_status,
}
use lingshu_round.Function.Services.{Request, Services, World, ExecutionResponse, on_executions}
use lingshu_round.Function.Service.Confirm.Calls.{Call, run, IsFresh, waiting, run-le}
use lingshu_round.Function.Service.Confirm.{
  delegated, pending, confirm_pending, confirm_execution, cancel_execution,
}

-- a request fails and changes nothing
abbrev IsRefused : {V : Services} → World V → Result ExecutionResponse × World V → Type 0
IsRefused w (r, w') = (is_ok r ≡ false) × (w' ≡ w)

-- neither a confirmation nor a cancellation gets through to the execution
abbrev pub IsClosed : (V : Services) → Request → String → World V → Type 0
IsClosed V q execution_id w =
    IsRefused w (confirm_execution V q execution_id w)
    × IsRefused w (cancel_execution V q execution_id w)

module _ (V : Services) (L : Table.IsLawful V.executions) (execution_id tenant_id : String) where
  IsRefused-bind :
      (m : Exec (World V) Execution) (f : Execution → Exec (World V) ExecutionResponse)
      (e : AppError) (w : World V)
      → m w ≡ (err e, w)
      → IsRefused w ((m >>= f) w)
  unfolding ◌>>=◌
  IsRefused-bind m f e w h =
      (ap (λ o. is_ok ((lift o.0 >>= f) o.1).0) h, ap (λ o. ((lift o.0 >>= f) o.1).1) h)

  refused_of :
      (found : Option Execution) (w : World V)
      → ((e : Execution) → found ≡ some e → is_pending e.status ≡ false)
      → (x : AppError) × ((require found (app_error function_not_found) >>= λ e.
              raise_if (not (is_pending e.status)) (app_error common_invalid_input) >>= λ _. pure e)
            w
          ≡ (err x, w))
  unfolding ◌>>=◌
  refused_of none w h = (app_error function_not_found, refl)
  refused_of (some e) w h = (
    app_error common_invalid_input,
    ap (λ b. (raise_if (not b) (app_error common_invalid_input) >>= λ _. pure {S = World V} e) w)
        (h e refl),
  )

  module _ (q : Request) (mine : q.tenant_id ≡ tenant_id) where
    pending-refused :
        (w : World V)
        → waiting V L execution_id tenant_id w ≡ 0
        → (e : AppError) × (pending V q execution_id w ≡ (err e, w))
    unfolding pending get_by_id ◌>>=◌
    pending-refused w none_waits =
        refused_of (get_by_id V.executions execution_id q.tenant_id w.executions) w λ e found.
          elim (Bool-cases (is_pending e.status)) [
            | inl waits ↦ absurd (
                ground (
                  arith,
                  find-holds (is_execution execution_id q.tenant_id)
                      (V.executions.rows w.executions) e found,
                  count-pos_of_find (is_execution execution_id q.tenant_id)
                      (awaits execution_id tenant_id) (V.executions.rows w.executions) e found,
                ))
            | inr settled ↦ settled
          ]

    confirm-IsRefused :
        (w : World V)
        → waiting V L execution_id tenant_id w ≡ 0
        → IsRefused w (confirm_execution V q execution_id w)
    unfolding confirm_execution
    confirm-IsRefused w none_waits =
        let (e, h) = pending-refused w none_waits in
        IsRefused-bind (pending V q execution_id) (confirm_pending V q execution_id) e w h

    cancel-IsRefused :
        (w : World V)
        → waiting V L execution_id tenant_id w ≡ 0
        → IsRefused w (cancel_execution V q execution_id w)
    unfolding cancel_execution
    cancel-IsRefused w none_waits =
        let (e, h) = pending-refused w none_waits in
        IsRefused-bind (pending V q execution_id) _ e w h

  -- after a success nothing is waiting
  abbrev Clears : {A : Type 0} → Exec (World V) A → Type 0
  Clears m = Settles (waiting V L execution_id tenant_id) m

  after_update :
      (u : StatusUpdate) (e : Execution) (b : Bool)
      → is_execution execution_id tenant_id e ≡ b
      → is_pending u.status ≡ false
      → awaits execution_id tenant_id (if b then apply_status u e else e) ≡ false
  after_update u e true found h = ground arith
  after_update u e false found h = ground arith

  pub settled_by_update :
      (u : StatusUpdate) (w : World V)
      → is_pending u.status ≡ false
      → waiting V L execution_id tenant_id
          (on_executions V (update_status V.executions execution_id tenant_id u) w).1
        ≡ 0
  unfolding on_executions update_status
  settled_by_update u w h =
      L.count-update_where (awaits execution_id tenant_id) (is_execution execution_id tenant_id)
        (apply_status u) w.executions
      ∙ count_none _ _ (λ e. after_update u e (is_execution execution_id tenant_id e) refl h)

  Clears-update :
      {A : Type 0} (tenant : String) (u : StatusUpdate) (a : A)
      → tenant ≡ tenant_id
      → is_pending u.status ≡ false
      → Clears (on_executions V (update_status V.executions execution_id tenant u) >>= λ _. pure a)
  unfolding ◌>>=◌ on_executions
  Clears-update tenant u a mine h = record {
    at = λ w _.
        subst
          (λ t.
            waiting V L execution_id tenant_id
              (on_executions V (update_status V.executions execution_id t u) w).1
            ≡ 0)
          (sym mine) (settled_by_update u w h);
  }

  pub IsClosed-of :
      (message : AppError → String) (q : Request) (cs : List (Request × Call)) (w : World V)
      → q.tenant_id ≡ tenant_id
      → IsFresh execution_id cs
      → waiting V L execution_id tenant_id w ≡ 0
      → IsClosed V q execution_id (run V message cs w)
  IsClosed-of message q cs w mine fresh none_waits =
      let settled : waiting V L execution_id tenant_id (run V message cs w) ≡ 0 =
        omega (arith, run-le V L execution_id tenant_id message cs w fresh) in
      (confirm-IsRefused q mine _ settled, cancel-IsRefused q mine _ settled)

  Clears-confirm :
      (q : Request) → q.tenant_id ≡ tenant_id → Clears (confirm_execution V q execution_id)
  unfolding confirm_execution confirm_pending
  Clears-confirm q mine = Settles-bind _ _ λ e. Settles-bind _ _ λ _.
      Settles-bind _ _ λ r. Clears-update q.tenant_id (delegated q.now r.execution_id) r mine refl

  Clears-cancel :
      (q : Request) → q.tenant_id ≡ tenant_id → Clears (cancel_execution V q execution_id)
  unfolding cancel_execution log_complete
  Clears-cancel q mine =
      Settles-bind _ _
        λ e. Clears-update q.tenant_id (completion cancelled none none q.now) _ mine refl

module _ (V : Services) (L : Table.IsLawful V.executions) (message : AppError → String)
    (q q' : Request) (execution_id : String) (cs : List (Request × Call)) (w : World V)
    (same_tenant : q'.tenant_id ≡ q.tenant_id) (fresh : IsFresh execution_id cs) where
  -- An execution that was confirmed is never executed again by a confirmation, nor cancelled:
  -- whatever calls and background tasks of any users follow, every such request of its tenant is
  -- refused and changes nothing, as long as no later call makes an execution with the same id.
  pub confirm-IsClosed :
      is_ok (confirm_execution V q execution_id w).0 ≡ true
      → IsClosed V q' execution_id (run V message cs (confirm_execution V q execution_id w).1)
  confirm-IsClosed done =
      IsClosed-of V L execution_id q.tenant_id message q' cs _ same_tenant fresh
        ((Clears-confirm V L execution_id q.tenant_id q refl).at w done)

  -- What was cancelled is never executed: after a cancellation, and whatever calls and background
  -- tasks of any users follow, every confirmation or cancellation of it by its tenant is refused
  -- and changes nothing, as long as no later call makes an execution with the same id.
  pub cancel-IsClosed :
      is_ok (cancel_execution V q execution_id w).0 ≡ true
      → IsClosed V q' execution_id (run V message cs (cancel_execution V q execution_id w).1)
  cancel-IsClosed done =
      IsClosed-of V L execution_id q.tenant_id message q' cs _ same_tenant fresh
        ((Clears-cancel V L execution_id q.tenant_id q refl).at w done)
