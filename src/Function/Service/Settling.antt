-- ===== src/Function/Service/Settling.antt =====
-- Actions after which no more executions pass a test than before: executing an action makes no
-- other execution pending.
use lingshu_round.Prelude.{
  ℕ, suc, String, ◌≡◌, refl, Bool, true, false, ◌&&◌, Option, List, [], ◌∷◌, any, if◌then◌else◌,
  arith, ◌==◌, string_eq,
}
use lingshu_round.Prelude.Count.{count, count_mono}
use lingshu_round.Prelude.Dict.{Dict}
use lingshu_round.Prelude.Value.{Value}
use lingshu_round.Infra.Exec.{Exec}
use lingshu_round.Infra.Table
pub use lingshu_round.Infra.Falls.{
  Falls, Falls-pure as Lowers-pure, Falls-raise as Lowers-raise, Falls-gets as Lowers-gets,
  Falls-lift as Lowers-lift, Falls-require as Lowers-require, Falls-if as Lowers-if,
  Falls-option as Lowers-option, Falls-raise_if as Lowers-raise_if, Falls-bind as Lowers-bind,
}
use lingshu_round.Function.Executions.{
  Execution, Status, StatusUpdate, apply_status, is_execution, is_pending, awaits, create, started,
  completion, log_start, update_status, log_complete,
}
use lingshu_round.Function.Actions.{
  ActionDefinition, Output, Engine, native_crud, python_venv, sql_runner, webhook, EngineConfig,
  ExecutionConfig, engine_of, config_of, writes_back, or_default,
}
use lingshu_round.Function.Params.{Instance, ResolvedParams}
use lingshu_round.Function.NativeCrud.{EngineResult}
use lingshu_round.Function.Services.{
  Request, Services, World, on_executions, on_edit_logs, on_outside, new_execution_id,
}
use lingshu_round.Function.Service.{
  run, execute_engine, process_writeback, ask_confirmation, carry_out, decide, execute_action,
  target_of, decision_of,
}

-- how many executions pass the test
abbrev pub executions_with : (V : Services) → (Execution → Bool) → World V → ℕ
executions_with V p w = count p (V.executions.rows w.executions)

abbrev pub Lowers : (V : Services) → (Execution → Bool) → {A : Type 0} → Exec (World V) A → Type 0
Lowers V p m = Falls (executions_with V p) m

module _ {V : Services} (p : Execution → Bool) {A : Type 0} where
  Lowers-on_edit_logs : (m : Exec V.edit_logs.State A) → Lowers V p (on_edit_logs V m)
  unfolding on_edit_logs
  Lowers-on_edit_logs m = record { at = λ w. omega arith }

  Lowers-on_outside : (m : Exec V.Outside A) → Lowers V p (on_outside V m)
  unfolding on_outside
  Lowers-on_outside m = record { at = λ w. omega arith }

still_passes :
    (p : Execution → Bool) (b : Bool) (u : StatusUpdate) (e : Execution)
    → (p (apply_status u e) ≡ true → p e ≡ true)
    → p (if b then apply_status u e else e) ≡ true
    → p e ≡ true
still_passes p true u e h k = h k
still_passes p false u e h k = k

module _ {V : Services} (L : Table.IsLawful V.executions) {p : Execution → Bool} where
  -- an update after which a row passes only if it did before
  pub Lowers-update_status :
      (execution_id tenant_id : String) (u : StatusUpdate)
      → ((e : Execution) → p (apply_status u e) ≡ true → p e ≡ true)
      → Lowers V p (on_executions V (update_status V.executions execution_id tenant_id u))
  unfolding on_executions update_status
  Lowers-update_status execution_id tenant_id u h = record {
    at = λ w.
        rw
          (L.count-update_where p (is_execution execution_id tenant_id) (apply_status u)
            w.executions)
          (count_mono _ _ _
            (λ e. still_passes p (is_execution execution_id tenant_id e) u e (h e)));
  }

module _ {V : Services} (L : Table.IsLawful V.executions) (execution_id tenant_id : String) where
  -- an update to any other status leaves nothing waiting
  pub Lowers-settle :
      (other_id other_tenant : String) (u : StatusUpdate)
      → is_pending u.status ≡ false
      → Lowers V
          (awaits execution_id tenant_id)
          (on_executions V (update_status V.executions other_id other_tenant u))
  Lowers-settle other_id other_tenant u h =
      Lowers-update_status L other_id other_tenant u (λ e k. ground arith)

  pub Lowers-log_complete :
      (other_id other_tenant : String) (status : Status) (result : Option (Dict String Value))
      (confirmed_by : Option String) (now : ℕ)
      → is_pending status ≡ false
      → Lowers V (awaits execution_id tenant_id) (
          on_executions V
            (log_complete V.executions other_id other_tenant status result confirmed_by now))
  unfolding log_complete
  Lowers-log_complete other_id other_tenant status result confirmed_by now h =
      Lowers-settle other_id other_tenant (completion status result confirmed_by now) h

  -- a new execution with another id, or with another status
  pub Lowers-log_start :
      (other_id other_tenant capability_type capability_rid : String) (status : Status)
      (params : Dict String Value) (level : Option String) (side_effects : List (Dict String Value))
      (user_id : String) (branch : Option String) (now : ℕ)
      → (other_id == execution_id && is_pending status) ≡ false
      → Lowers V (awaits execution_id tenant_id) (
          on_executions V (
            log_start V.executions other_id other_tenant capability_type capability_rid status
              params level side_effects user_id branch now))
  unfolding log_start on_executions create
  Lowers-log_start other_id other_tenant capability_type capability_rid status params level
        side_effects user_id branch now h =
      record {
        at = λ w.
            rw
              (L.count-insert (awaits execution_id tenant_id)
                (started other_id other_tenant capability_type capability_rid status params level
                  side_effects user_id branch now)
                w.executions)
              (ground arith);
      }

  module _ (q : Request) where
    Lowers-run :
        (engine : Engine) (config : EngineConfig) (r : ResolvedParams)
        → Lowers V (awaits execution_id tenant_id) (run V q engine config r)
    unfolding run
    Lowers-run native_crud config r = Lowers-pure _
    Lowers-run python_venv config r = Lowers-on_outside _ _
    Lowers-run sql_runner config r = Lowers-on_outside _ _
    Lowers-run webhook config r = Lowers-on_outside _ _

    Lowers-execute_engine :
        (config : ExecutionConfig) (r : ResolvedParams)
        → Lowers V (awaits execution_id tenant_id) (execute_engine V q config r)
    unfolding execute_engine
    Lowers-execute_engine config r =
        Lowers-option (engine_of (or_default config.type "native_crud")) _ _ (Lowers-raise _)
          λ engine. Lowers-run engine (config_of engine config) r

    Lowers-process_writeback :
        (os : List Output) (result : EngineResult) (instances : Dict String Instance) (rid : String)
        (branch : Option String) (n : ℕ)
        → Lowers V
            (awaits execution_id tenant_id)
            (process_writeback V q os result instances rid branch n)
    unfolding process_writeback
    Lowers-process_writeback [] result instances rid branch n = Lowers-pure _
    Lowers-process_writeback (o ∷ os) result instances rid branch n =
        let rest = λ (m : ℕ). Lowers-process_writeback os result instances rid branch m in
        Lowers-if (writes_back o) _ _
          (Lowers-option (target_of V q o instances) _ _ (rest n) λ i.
            Lowers-bind _ _ (Lowers-on_edit_logs _ _)
              λ _. Lowers-bind _ _ (rest (suc n)) λ _. Lowers-pure _)
          (rest n)

    Lowers-decide :
        (action : ActionDefinition) (r : ResolvedParams) (params : Dict String Value)
        (branch : Option String) (skip : Bool)
        → new_execution_id q == execution_id ≡ false
        → Lowers V (awaits execution_id tenant_id) (decide V q action r params branch skip)
    unfolding decide ask_confirmation carry_out
    Lowers-decide action r params branch skip fresh =
        Lowers-if (decision_of V q action skip).requires_confirmation _ _
          (Lowers-bind _ _ (Lowers-log_start _ _ _ _ _ _ _ _ _ _ _ (ground arith))
            (λ _. Lowers-pure _))
          (Lowers-bind _ _ (Lowers-execute_engine action.execution r) λ result.
            Lowers-bind _ _
              (Lowers-if (any writes_back action.outputs) _ _
                (Lowers-process_writeback action.outputs result r.instances action.rid branch 0)
                (Lowers-pure _))
              λ bs.
                Lowers-bind _ _ (Lowers-log_start _ _ _ _ _ _ _ _ _ _ _ (ground arith))
                  λ _. Lowers-bind _ _ (Lowers-log_complete _ _ _ _ _ _ refl) λ _. Lowers-pure _)

    pub Lowers-execute_action :
        (action_type_rid : String) (params : Dict String Value) (branch : Option String)
        (skip : Bool)
        → new_execution_id q == execution_id ≡ false
        → Lowers V
            (awaits execution_id tenant_id)
            (execute_action V q action_type_rid params branch skip)
    unfolding execute_action
    Lowers-execute_action action_type_rid params branch skip fresh =
        Lowers-bind _ _ (Lowers-lift _) λ action.
          Lowers-bind _ _ (Lowers-lift _) λ r. Lowers-decide action r params branch skip fresh
