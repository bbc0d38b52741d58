-- ===== src/Ontology/Service/Publish/Locking.antt =====
-- The lock that a commit holds, and the entries of Redis that a commit keeps.
use lingshu_round.Prelude.{
  ℕ, zero, suc, ◌<◌, String, ◌≡◌, refl, ◌∙◌, Bool, true, false, Option, none, List, [], ◌∷◌,
  string_eq, option_eq, is_empty, leb, contains, starts_with, select, Bool-cases, inl, inr, arith,
}
use lingshu_round.Prelude.Count.{count}
use lingshu_round.Infra.Exec.{◌>>=◌, finally_do}
use lingshu_round.Infra.Redis
use lingshu_round.Ontology.Graph.{Node}
use lingshu_round.Ontology.Lock.{commit_lock_ttl_seconds}
use lingshu_round.Ontology.World.{Context, Servers, World, on_redis}
use lingshu_round.Ontology.Service.Publish.{
  commit_lock_key, cache_prefix, free_commit_lock, delete_keys, delete_cached, on_schema_published,
  commit_body, commit_staging,
}

module _ (V : Servers) (R : Redis.IsLawful V.redis) (c : Context) where
  delete_keys-entry :
      (ks : List String) (r : V.redis.State) (j : String)
      → contains ks j ≡ false
      → V.redis.entry (delete_keys V c ks r) j ≡ V.redis.entry r j
  unfolding delete_keys
  delete_keys-entry [] r j h = refl
  delete_keys-entry (k ∷ ks) r j h =
      ground (arith, delete_keys-entry ks (V.redis.delete k r) j, R.entry-delete k r j)

  -- a key outside the cache is in none of the pages of a scan
  outside_page :
      (cursor : ℕ) (r : V.redis.State) (j : String)
      → starts_with j (cache_prefix c.tenant_id) ≡ false
      → contains (V.redis.scan cursor (cache_prefix c.tenant_id) r).1 j ≡ false
  outside_page cursor r j h = ground (arith, R.scan_matches cursor (cache_prefix c.tenant_id) r j)

  delete_cached-entry :
      (rounds cursor : ℕ) (r : V.redis.State) (j : String)
      → starts_with j (cache_prefix c.tenant_id) ≡ false
      → V.redis.entry (delete_cached V c rounds cursor r) j ≡ V.redis.entry r j
  unfolding delete_cached
  delete_cached-entry zero cursor r j h = refl
  delete_cached-entry (suc rounds) cursor r j h =
      let page = V.redis.scan cursor (cache_prefix c.tenant_id) r in
      let kept = delete_keys-entry page.1 r j (outside_page cursor r j h) in
      elim (Bool-cases (leb page.0 0)) [
        | inl last ↦ rw (last, delete_cached) kept
        | inr more ↦
            rw (more, delete_cached)
              (delete_cached-entry rounds page.0 (delete_keys V c page.1 r) j h ∙ kept)
      ]

  -- Publishing a schema drops cached entries of the tenant only: every other key keeps its entry.
  pub on_schema_published-entry :
      (rounds : ℕ) (snapshot_id : String) (r : V.redis.State) (j : String)
      → starts_with j (cache_prefix c.tenant_id) ≡ false
      → V.redis.entry (on_schema_published V c rounds snapshot_id r) j ≡ V.redis.entry r j
  unfolding on_schema_published
  on_schema_published-entry rounds snapshot_id r j h =
      R.entry-publish _ _ _ j ∙ delete_cached-entry rounds 0 r j h

  -- the key of the lock that a commit holds
  abbrev key : String
  key = commit_lock_key c.tenant_id

  pub nothing_selected :
      (p : Node → Bool) (ns : List Node) → count p ns ≡ 0 → is_empty (select p ns) ≡ true
  unfolding count
  nothing_selected p [] z = refl
  nothing_selected p (n ∷ ns) z = ground (arith, nothing_selected p ns)

  pub some_selected :
      (p : Node → Bool) (ns : List Node) → 0 < count p ns → is_empty (select p ns) ≡ false
  unfolding count
  some_selected p [] z = ground arith
  some_selected p (n ∷ ns) z = ground (arith, some_selected p ns)

  -- the world in which a commit holds its lock
  abbrev pub locked : World V → World V
  locked w = record w { redis = V.redis.set_nx key c.user_id commit_lock_ttl_seconds w.redis }

  pub commit_free :
      (rounds : ℕ) (message : Option String) (w : World V)
      → V.redis.entry w.redis (commit_lock_key c.tenant_id) ≡ none
      → commit_staging V c rounds message w
        ≡ finally_do (commit_body V c rounds message) (free_commit_lock V c) (locked w)
  unfolding commit_staging ◌>>=◌ on_redis
  commit_free rounds message w free = rw free refl

  -- taking and freeing the lock leaves every entry as it was
  pub free_again :
      (w : World V) (j : String)
      → V.redis.entry w.redis (commit_lock_key c.tenant_id) ≡ none
      → V.redis.entry (free_commit_lock V c (locked w)).redis j ≡ V.redis.entry w.redis j
  free_again w j free = ground (
    arith,
    free,
    R.entry-delete key (locked w).redis j,
    R.entry-set_nx key c.user_id commit_lock_ttl_seconds w.redis j,
  )
