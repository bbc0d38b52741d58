-- ===== src/Data/RowLock.antt =====
-- data/writeback/lock.py: the lock that one user holds on one row. The digest of a primary key,
-- `sha256(json.dumps(primary_key))[:16]`, is a parameter.
pub mod Laws
use lingshu_round.Prelude.{
  ℕ, String, ◌<>◌, Bool, true, false, Option, none, some, if◌then◌else◌, ◌==◌, string_eq, option_eq,
  not,
}
use lingshu_round.Prelude.Dict.{Dict}
use lingshu_round.Prelude.Value.{Value}
use lingshu_round.Infra.Redis
use lingshu_round.Infra.Redis.{RedisClient}

-- a row: its tenant, its type and its primary key
pub record Row : Type 0 where
  pub tenant_id : String
  pub type_rid : String
  pub primary_key : Dict String Value

module _ (R : RedisClient) (digest : Dict String Value → String) where
  unfoldable pub make_key : Row → String
  make_key row =
      "row_lock:" <> (row.tenant_id <> (":" <> (row.type_rid <> (":" <> digest row.primary_key))))

  unfoldable pub acquire : Row → String → ℕ → R.State → Bool × R.State
  acquire row user ttl s =
      let (acquired, s1) = Redis.set R (make_key row) user ttl s in
      if acquired
      then (true, s1)
      else if Redis.get R (make_key row) s1 == some user
      then (true, R.expire (make_key row) ttl s1)
      else (false, s1)

  unfoldable pub release : Row → String → R.State → Bool × R.State
  release row user s =
      if not (Redis.get R (make_key row) s == some user)
      then (false, s)
      else (true, R.delete (make_key row) s)

  unfoldable pub is_locked : Row → R.State → Bool × Option String
  is_locked row s = elim (Redis.get R (make_key row) s) [
    | none ↦ (false, none)
    | some holder ↦ (true, some holder)
  ]
