-- ===== src/Function/Executions.antt =====
-- function/models.py, repository/execution_repo.py and audit/logger.py: the records of what was
-- executed, and how they are made, read and completed.
pub mod Listing
use lingshu_round.Prelude.{
  ℕ, String, Bool, true, false, ◌&&◌, Option, none, some, List, find, ◌==◌, string_eq,
}
use lingshu_round.Prelude.Dict.{Dict}
use lingshu_round.Prelude.Value.{Value}
use lingshu_round.Infra.Table.{Table}

-- the values that the service writes to the `status` column
pub data Status : Type 0 where
  pending_confirmation running success failed expired cancelled : Status

-- `status == "pending_confirmation"`
abbrev pub is_pending : Status → Bool
is_pending pending_confirmation = true
is_pending _ = false

-- a row of `executions`; the database sets `started_at` when the row is inserted
pub record Execution : Type 0 where
  pub execution_id : String
  pub tenant_id : String
  pub capability_type : String
  pub capability_rid : String
  pub status : Status
  pub params : Dict String Value
  pub result : Option (Dict String Value)
  pub safety_level : Option String
  pub side_effects : List (Dict String Value)
  pub user_id : String
  pub branch : Option String
  pub started_at : ℕ
  pub completed_at : Option ℕ
  pub confirmed_at : Option ℕ
  pub confirmed_by : Option String

-- the arguments of `update_status`
pub record StatusUpdate : Type 0 where
  pub status : Status
  pub result : Option (Dict String Value)
  pub completed_at : Option ℕ
  pub confirmed_at : Option ℕ
  pub confirmed_by : Option String

-- `if value is not None: values[...] = value`
abbrev given_or {ℓ} : {A : Type ℓ} → Option A → Option A → Option A
given_or none old = old
given_or (some new) old = some new

abbrev pub apply_status : StatusUpdate → Execution → Execution
apply_status u e = record e {
  status = u.status;
  result = given_or u.result e.result;
  completed_at = given_or u.completed_at e.completed_at;
  confirmed_at = given_or u.confirmed_at e.confirmed_at;
  confirmed_by = given_or u.confirmed_by e.confirmed_by;
}

abbrev pub is_execution : String → String → Execution → Bool
is_execution execution_id tenant_id e = e.execution_id == execution_id && e.tenant_id == tenant_id

-- an execution of this id that still waits for its confirmation
abbrev pub awaits : String → String → Execution → Bool
awaits execution_id tenant_id e = is_execution execution_id tenant_id e && is_pending e.status

-- the record that `log_start` makes
abbrev pub started :
    String
    → String
    → String
    → String
    → Status
    → Dict String Value
    → Option String
    → List (Dict String Value)
    → String
    → Option String
    → ℕ
    → Execution
started execution_id tenant_id capability_type capability_rid status params safety_level
      side_effects user_id branch now =
    record {
      execution_id = execution_id;
      tenant_id = tenant_id;
      capability_type = capability_type;
      capability_rid = capability_rid;
      status = status;
      params = params;
      result = none;
      safety_level = safety_level;
      side_effects = side_effects;
      user_id = user_id;
      branch = branch;
      started_at = now;
      completed_at = none;
      confirmed_at = none;
      confirmed_by = none;
    }

-- the update that `log_complete` makes
abbrev pub completion : Status → Option (Dict String Value) → Option String → ℕ → StatusUpdate
completion status result confirmed_by now = record {
  status = status;
  result = result;
  completed_at = some now;
  confirmed_at = none;
  confirmed_by = confirmed_by;
}

module _ (T : Table Execution) where
  unfoldable pub create : Execution → T.State → Execution × T.State
  create e s = (e, T.insert e s)

  unfoldable pub get_by_id : String → String → T.State → Option Execution
  get_by_id execution_id tenant_id s = find (is_execution execution_id tenant_id) (T.rows s)

  unfoldable pub update_status :
      String → String → StatusUpdate → T.State → Option Execution × T.State
  unfolding get_by_id
  update_status execution_id tenant_id u s =
      let s' = T.update_where (is_execution execution_id tenant_id) (apply_status u) s in
      (get_by_id execution_id tenant_id s', s')

  -- `AuditLogger.log_start`
  unfoldable pub log_start :
      String
      → String
      → String
      → String
      → Status
      → Dict String Value
      → Option String
      → List (Dict String Value)
      → String
      → Option String
      → ℕ
      → T.State
      → Execution × T.State
  unfolding create
  log_start execution_id tenant_id capability_type capability_rid status params safety_level
        side_effects user_id branch now s =
      create
        (started execution_id tenant_id capability_type capability_rid status params safety_level
          side_effects user_id branch now)
        s

  -- `AuditLogger.log_complete`
  unfoldable pub log_complete :
      String
      → String
      → Status
      → Option (Dict String Value)
      → Option String
      → ℕ
      → T.State
      → Option Execution × T.State
  unfolding update_status
  log_complete execution_id tenant_id status result confirmed_by now s =
      update_status execution_id tenant_id (completion status result confirmed_by now) s
