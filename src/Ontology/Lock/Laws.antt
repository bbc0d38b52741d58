-- ===== src/Ontology/Lock/Laws.antt =====
-- Who holds the edit lock, its expiry, and what a release leaves alone.
use lingshu_round.Prelude.{
  ℕ, ◌≤◌, ◌<◌, String, ◌≡◌, ◌≢◌, Option, none, some, arith, if◌then◌else◌, ◌==◌, string_eq,
  option_eq,
}
use lingshu_round.Infra.Errors.{app_error, ontology_lock_conflict}
use lingshu_round.Infra.Exec.{ok, err}
use lingshu_round.Infra.Redis
use lingshu_round.Infra.Redis.{RedisClient, IsLawful}
use lingshu_round.Ontology.Lock.{
  LockStatus, held_by, lock_key, locked_by_other, lock_ttl_seconds, acquire_lock, release_lock,
  refresh_lock, require_lock,
}

module _ (R : RedisClient) (L : IsLawful R) where
  abbrev holder : String → R.State → Option String
  holder rid s = Redis.get R (lock_key rid) s

  -- After a successful acquisition the user holds the lock, and edits of the entity are let in.
  pub require-acquire :
      (user rid : String) (s : R.State) (l : LockStatus)
      → (acquire_lock R user rid s).0 ≡ ok l
      → require_lock R rid user (acquire_lock R user rid s).1 ≡ ok tt
  unfolding acquire_lock require_lock
  require-acquire user rid s l h = ground (
    arith,
    L.entry-set_nx (lock_key rid) user lock_ttl_seconds s (lock_key rid),
    L.entry-expire (lock_key rid) lock_ttl_seconds (R.set_nx (lock_key rid) user lock_ttl_seconds s)
        (lock_key rid),
  )

  -- While a lock has time left, it is held by who acquired it.
  pub holder-acquire :
      (a rid : String) (s : R.State) (l : LockStatus) (n : ℕ)
      → (acquire_lock R a rid s).0 ≡ ok l
      → n < lock_ttl_seconds
      → holder rid (R.advance n (acquire_lock R a rid s).1) ≡ some a
  unfolding acquire_lock
  holder-acquire a rid s l n h before =
      let key = lock_key rid in
      let s1 = R.set_nx key a lock_ttl_seconds s in
      let s2 = R.expire key lock_ttl_seconds s1 in
      let k1 = L.entry-set_nx key a lock_ttl_seconds s key in
      let k2 = L.entry-expire key lock_ttl_seconds s1 key in
      let t1 = L.entry-advance n s1 key in let t2 = L.entry-advance n s2 key in ground arith

  -- The acquisition of a lock that another user holds is refused, and the refusal names the holder.
  pub acquire_held :
      (a b rid : String) (s : R.State)
      → holder rid s ≡ some a
      → a ≢ b
      → (acquire_lock R b rid s).0 ≡ err (locked_by_other (some a))
  unfolding acquire_lock
  acquire_held a b rid s held ne =
      let b1 = L.entry-set_nx (lock_key rid) b lock_ttl_seconds s (lock_key rid) in ground arith

  -- Once the time of a lock has passed, anyone can acquire it.
  pub acquire_expired :
      (a b rid : String) (s : R.State) (l : LockStatus) (n : ℕ)
      → (acquire_lock R a rid s).0 ≡ ok l
      → lock_ttl_seconds ≤ n
      → (acquire_lock R b rid (R.advance n (acquire_lock R a rid s).1)).0 ≡ ok (held_by b)
  unfolding acquire_lock
  acquire_expired a b rid s l n h after =
      let key = lock_key rid in
      let s1 = R.set_nx key a lock_ttl_seconds s in
      let s2 = R.expire key lock_ttl_seconds s1 in
      let k1 = L.entry-set_nx key a lock_ttl_seconds s key in
      let k2 = L.entry-expire key lock_ttl_seconds s1 key in
      let t1 = L.entry-advance n s1 key in let t2 = L.entry-advance n s2 key in ground arith

  -- Who does not hold the lock releases nothing; the holder frees the entity and nothing else.
  pub entry-release :
      (user rid : String) (s : R.State) (j : String)
      → R.entry (release_lock R user rid s).1 j ≡ (
          if holder rid s == some user
          then if j == lock_key rid then none else R.entry s j
          else R.entry s j)
  unfolding release_lock
  entry-release user rid s j = ground (arith, L.entry-delete (lock_key rid) s j)

  -- Acquiring, refused or not, leaves the entries of all other keys as they are.
  pub acquire_frame :
      (user rid : String) (s : R.State) (j : String)
      → j ≢ lock_key rid
      → R.entry (acquire_lock R user rid s).1 j ≡ R.entry s j
  unfolding acquire_lock
  acquire_frame user rid s j ne =
      let key = lock_key rid in
      let s1 = R.set_nx key user lock_ttl_seconds s in
      let k1 = L.entry-set_nx key user lock_ttl_seconds s j in
      let k2 = L.entry-expire key lock_ttl_seconds s1 j in ground arith

  -- A refresh succeeds exactly for the holder, and then the lock has its full time again.
  pub refresh_lem :
      (user rid : String) (s : R.State)
      → (refresh_lock R user rid s).0 ≡ (
          if holder rid s == some user
          then ok (held_by user)
          else err (app_error ontology_lock_conflict))
  unfolding refresh_lock
  refresh_lem user rid s =
      ground (arith, L.entry-expire (lock_key rid) lock_ttl_seconds s (lock_key rid))
