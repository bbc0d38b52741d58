-- ===== src/Ontology/Lock.antt =====
-- ontology/service.py, lock management: the edit lock that one user holds on one entity.
pub mod Laws
use lingshu_round.Prelude.{
  ℕ, String, ◌<>◌, Bool, true, false, not, Option, none, some, if◌then◌else◌, ◌==◌, string_eq,
  option_eq, [], ◌∷◌, List,
}
use lingshu_round.Infra.Errors.{AppError, app_error, ontology_lock_conflict, ontology_lock_required}
use lingshu_round.Infra.Exec.{Result, ok, err, Exec}
use lingshu_round.Infra.Redis
use lingshu_round.Infra.Redis.{RedisClient}

abbrev pub lock_ttl_seconds : ℕ
lock_ttl_seconds = 1800

abbrev pub commit_lock_ttl_seconds : ℕ
commit_lock_ttl_seconds = 60

unfoldable pub lock_key : String → String
lock_key rid = "ontology:lock:" <> rid

-- `LockStatusResponse`
pub record LockStatus : Type 0 where
  pub locked : Bool
  pub locked_by : Option String
  pub expires_in : Option ℕ

abbrev pub held_by : String → LockStatus
held_by user = record { locked = true; locked_by = some user; expires_in = some lock_ttl_seconds }

abbrev or_empty : Option String → List String
or_empty none = []
or_empty (some s) = s ∷ []

-- the refusal, which says who holds the lock
abbrev pub locked_by_other : Option String → AppError
locked_by_other owner = record {
  code = ontology_lock_conflict;
  details = ("locked_by", or_empty owner) ∷ [];
}

module _ (R : RedisClient) where
  -- after a failed `SET NX`: refresh an own lock, refuse another's
  refresh_or_refuse : String → String → Exec R.State LockStatus
  refresh_or_refuse user rid s =
      let owner = Redis.get R (lock_key rid) s in
      if owner == some user
      then (ok (held_by user), R.expire (lock_key rid) lock_ttl_seconds s)
      else (err (locked_by_other owner), s)

  unfoldable pub acquire_lock : String → String → Exec R.State LockStatus
  unfolding refresh_or_refuse
  acquire_lock user rid s =
      let (acquired, s1) = Redis.set R (lock_key rid) user lock_ttl_seconds s in
      if acquired then (ok (held_by user), s1) else refresh_or_refuse user rid s1

  unfoldable pub release_lock : String → String → Exec R.State LockStatus
  release_lock user rid s = (
    ok (record { locked = false; locked_by = none; expires_in = none }),
    if Redis.get R (lock_key rid) s == some user then R.delete (lock_key rid) s else s,
  )

  unfoldable pub refresh_lock : String → String → Exec R.State LockStatus
  refresh_lock user rid s =
      if not (Redis.get R (lock_key rid) s == some user)
      then (err (app_error ontology_lock_conflict), s)
      else let s1 = R.expire (lock_key rid) lock_ttl_seconds s in
        (
          ok (record {
            locked = true;
            locked_by = some user;
            expires_in = Redis.ttl R (lock_key rid) s1;
          }),
          s1,
        )

  -- `_require_lock`, which only reads
  unfoldable pub require_lock : String → String → R.State → Result {0} Unit
  require_lock rid user s =
      if not (Redis.get R (lock_key rid) s == some user)
      then err (app_error ontology_lock_required)
      else ok tt
