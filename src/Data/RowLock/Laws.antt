-- ===== src/Data/RowLock/Laws.antt =====
-- What the row lock excludes, and what its release frees.
use lingshu_round.Prelude.{
  ℕ, ◌<◌, String, ◌≡◌, ◌≢◌, true, false, none, some, if◌then◌else◌, ◌==◌, string_eq, option_eq,
  arith,
}
use lingshu_round.Prelude.Dict.{Dict}
use lingshu_round.Prelude.Value.{Value}
use lingshu_round.Infra.Redis
use lingshu_round.Infra.Redis.{RedisClient, IsLawful}
use lingshu_round.Data.RowLock.{Row, make_key, acquire, release, is_locked}

module _ (R : RedisClient) (L : IsLawful R) (digest : Dict String Value → String) where
  -- An acquisition answers true exactly if the user is the holder after it.
  pub is_locked-acquire :
      (row : Row) (user : String) (ttl : ℕ) (s : R.State)
      → (acquire R digest row user ttl s).0
        ≡ (Redis.get R (make_key R digest row) (acquire R digest row user ttl s).1 == some user)
  unfolding acquire
  is_locked-acquire row user ttl s =
      let key = make_key R digest row in
      let k1 = L.entry-set_nx key user ttl s key in
      let k2 = L.entry-expire key ttl (R.set_nx key user ttl s) key in ground arith

  -- Until the time of a row lock has passed, another user can neither acquire nor release it, and who
  -- asks whether the row is locked is told the holder.
  pub acquire_excluded_row :
      (row : Row) (a b : String) (ttl ttl' n : ℕ) (s : R.State)
      → (acquire R digest row a ttl s).0 ≡ true
      → a ≢ b
      → n < ttl
      → let later = R.advance n (acquire R digest row a ttl s).1 in
        ((acquire R digest row b ttl' later).0 ≡ false)
        × ((release R digest row b later).0 ≡ false)
        × (is_locked R digest row later ≡ (true, some a))
  unfolding acquire release is_locked
  acquire_excluded_row row a b ttl ttl' n s h ne before =
      let key = make_key R digest row in
      let s1 = R.set_nx key a ttl s in
      let s2 = R.expire key ttl s1 in
      let k1 = L.entry-set_nx key a ttl s key in
      let k2 = L.entry-expire key ttl s1 key in
      let t1 = L.entry-advance n s1 key in
      let t2 = L.entry-advance n s2 key in
      let b1 = L.entry-set_nx key b ttl' (R.advance n s1) key in
      let b2 = L.entry-set_nx key b ttl' (R.advance n s2) key in ground arith

  -- A release by the holder answers true and frees the row; by anyone else it answers false and
  -- leaves the row as it was.
  pub is_locked-release :
      (row : Row) (user : String) (s : R.State)
      → ((release R digest row user s).0 ≡ (Redis.get R (make_key R digest row) s == some user))
        × (is_locked R digest row (release R digest row user s).1 ≡ (
            if Redis.get R (make_key R digest row) s == some user
            then (false, none)
            else is_locked R digest row s))
  unfolding release is_locked
  is_locked-release row user s =
      let key = make_key R digest row in
      let k = L.entry-delete key s key in (ground arith, ground arith)
