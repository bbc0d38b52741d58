-- ===== src/Ontology/Service/Publish/Commit.antt =====
-- What a commit answers when it holds the lock, and what it leaves in the graph, the snapshots, the
-- pointers and Redis.
use lingshu_round.Prelude.{
  ℕ, ◌+◌, ◌<◌, String, ◌≡◌, refl, sym, subst, ◌∙◌, Bool, false, not, ◌&&◌, Option, none, List, [],
  ◌∷◌, if◌then◌else◌, ◌==◌, string_eq, option_eq, find, contains, starts_with, Option-cases, inl,
  inr, arith, ==_refl,
}
use lingshu_round.Prelude.Count.{
  count, one_if, count_ext, count_none, count_mono, count_of_find-none, find-holds,
  count-pos_of_find,
}
use lingshu_round.Infra.Errors.{app_error, ontology_staging_empty}
use lingshu_round.Infra.Exec.{ok, err, ◌>>=◌, finally_do}
use lingshu_round.Infra.Redis
use lingshu_round.Infra.Table
use lingshu_round.Ontology.Graph.{IsLawful}
use lingshu_round.Ontology.Repository.{is_staged, get_staging_nodes, staging_rids}
use lingshu_round.Ontology.Repository.Promotion.{
  no_staging_after_promote, published_of, staged_of, published-promote,
}
use lingshu_round.Ontology.Lock.{commit_lock_ttl_seconds}
use lingshu_round.Ontology.Snapshots.{create_snapshot, get_active_pointer, set_active_pointer}
use lingshu_round.Ontology.World.{Context, Snapshot, ActivePointer, Servers, World}
use lingshu_round.Ontology.Keeps.{nodes_with}
use lingshu_round.Ontology.Service.Publish.{
  commit_lock_key, cache_prefix, publish_snapshot, on_schema_published, commit_body, commit_staging,
  current_id, new_snapshot, entity_changes, entity_data, free_commit_lock,
}
use lingshu_round.Ontology.Service.Publish.Locking.{
  locked, commit_free, free_again, nothing_selected, some_selected, on_schema_published-entry,
}

module _ (V : Servers) (R : Redis.IsLawful V.redis) (c : Context) where
  -- With nothing staged a commit answers so, and changes neither the graph, nor the snapshots, nor
  -- the pointers, nor an entry of Redis: its lock is free again.
  pub commit_empty :
      (rounds : ℕ) (message : Option String) (w : World V)
      → V.redis.entry w.redis (commit_lock_key c.tenant_id) ≡ none
      → nodes_with V (is_staged V.graph c.tenant_id) w ≡ 0
      → ((commit_staging V c rounds message w).0 ≡ err (app_error ontology_staging_empty))
        × ((commit_staging V c rounds message w).1.graph ≡ w.graph)
        × ((commit_staging V c rounds message w).1.snapshots ≡ w.snapshots)
        × ((commit_staging V c rounds message w).1.pointers ≡ w.pointers)
        × ((j : String)
            → V.redis.entry (commit_staging V c rounds message w).1.redis j
              ≡ V.redis.entry w.redis j)
  unfolding finally_do commit_body ◌>>=◌ get_staging_nodes
  commit_empty rounds message w free empty =
      rw
        (
          commit_free V R c rounds message w free,
          nothing_selected V R c (is_staged V.graph c.tenant_id) (V.graph.rows w.graph) empty,
        )
        (refl, refl, refl, refl, λ j. free_again V R c w j free)

  -- the snapshot that a commit writes
  abbrev pub snapshot_of : Option String → World V → Snapshot
  snapshot_of message w =
      let staged = get_staging_nodes V.graph c.tenant_id w.graph in
      new_snapshot V c message (get_active_pointer V c.tenant_id w.pointers)
        (entity_changes V c w.graph staged []) (entity_data V c staged [])

  commit-eq :
      (rounds : ℕ) (message : Option String) (w : World V)
      → V.redis.entry w.redis (commit_lock_key c.tenant_id) ≡ none
      → 0 < nodes_with V (is_staged V.graph c.tenant_id) w
      → commit_staging V c rounds message w
        ≡ finally_do
            (publish_snapshot V c rounds (snapshot_of message w))
            (free_commit_lock V c)
            (locked V R c w)
  unfolding finally_do commit_body ◌>>=◌ get_staging_nodes
  commit-eq rounds message w free staged =
      rw
        (
          commit_free V R c rounds message w free,
          some_selected V R c (is_staged V.graph c.tenant_id) (V.graph.rows w.graph) staged,
        )
        refl

-- the pointers of a tenant, and those of them that are at another snapshot
abbrev of_tenant : String → ActivePointer → Bool
of_tenant tenant r = r.tenant_id == tenant

abbrev elsewhere : String → String → ActivePointer → Bool
elsewhere tenant snapshot_id r = r.tenant_id == tenant && not (r.snapshot_id == snapshot_id)

-- Where no pointer is at another snapshot, the one found is at this one.
found_snapshot :
    (V : Servers) (c : Context) (rows : List ActivePointer) (tenant snapshot_id : String)
    → count (elsewhere tenant snapshot_id) rows ≡ 0
    → 0 < count (of_tenant tenant) rows
    → current_id V c (find (of_tenant tenant) rows) ≡ snapshot_id
unfolding count
found_snapshot V c [] tenant snapshot_id z h = ground arith
found_snapshot V c (r ∷ rs) tenant snapshot_id z h =
    ground (arith, found_snapshot V c rs tenant snapshot_id)

module _ (V : Servers) (P : Table.IsLawful V.pointers) (c : Context) where
  -- Once the pointer of a tenant is set it is at the snapshot.
  current-set_active_pointer :
      (tenant snapshot_id : String) (s : V.pointers.State)
      → current_id V c (get_active_pointer V tenant (set_active_pointer V tenant snapshot_id s))
        ≡ snapshot_id
  unfolding set_active_pointer get_active_pointer
  current-set_active_pointer tenant snapshot_id s =
      elim (Option-cases (find (of_tenant tenant) (V.pointers.rows s))) [
        | inl e ↦
            let none_before = count_of_find-none (of_tenant tenant) (V.pointers.rows s) e in
            let none_else =
              count_mono (elsewhere tenant snapshot_id) (of_tenant tenant) (V.pointers.rows s)
                (λ r h. ground arith) in
            let new : ActivePointer = record { tenant_id = tenant; snapshot_id = snapshot_id } in
            rw e (
              found_snapshot V c _ tenant snapshot_id
                (P.count-insert (elsewhere tenant snapshot_id) new s
                  ∙ ground (arith, ==_refl snapshot_id))
                (ground (arith, P.count-insert (of_tenant tenant) new s, ==_refl tenant)))
        | inr (r, e) ↦
            let moved = λ (p : ActivePointer). record p { snapshot_id = snapshot_id } in
            let before =
              count-pos_of_find (of_tenant tenant) (of_tenant tenant) (V.pointers.rows s) r e
                (find-holds (of_tenant tenant) (V.pointers.rows s) r e) in
            rw e (
              found_snapshot V c _ tenant snapshot_id
                (P.count-update_where (elsewhere tenant snapshot_id) (of_tenant tenant) moved s
                  ∙ count_none
                      (λ p.
                        elsewhere tenant snapshot_id (if of_tenant tenant p then moved p else p))
                      _ (λ p. ground (arith, ==_refl snapshot_id)))
                (subst (λ n. 0 < n)
                  (sym (
                    P.count-update_where (of_tenant tenant) (of_tenant tenant) moved s
                    ∙ count_ext (λ p. of_tenant tenant (if of_tenant tenant p then moved p else p))
                        (of_tenant tenant) _ (λ p. ground arith)))
                  before))
      ]

module _ (V : Servers) (L : IsLawful V.graph) (R : Redis.IsLawful V.redis) (c : Context) where
  -- With something staged and the lock free a commit answers the snapshot that it writes, whatever
  -- drafts are open, and without a validation of what is staged: nothing of the tenant is staged any
  -- more, an entity that was staged is published by its staged versions alone, every other entity
  -- keeps its published versions, and the lock is free again.
  pub commit_publishes :
      (rounds : ℕ) (message : Option String) (w : World V)
      → V.redis.entry w.redis (commit_lock_key c.tenant_id) ≡ none
      → 0 < nodes_with V (is_staged V.graph c.tenant_id) w
      → ((commit_staging V c rounds message w).0 ≡ ok (snapshot_of V R c message w))
        × (nodes_with V (is_staged V.graph c.tenant_id) (commit_staging V c rounds message w).1 ≡ 0)
        × ((rid : String)
            → nodes_with V
                (published_of V.graph L c.tenant_id rid)
                (commit_staging V c rounds message w).1
              ≡ (if contains (staging_rids V.graph c.tenant_id w.graph) rid
                  then nodes_with V (staged_of V.graph L c.tenant_id rid) w
                  else nodes_with V (published_of V.graph L c.tenant_id rid) w))
        × (V.redis.entry (commit_staging V c rounds message w).1.redis (commit_lock_key c.tenant_id)
            ≡ none)
  unfolding finally_do publish_snapshot
  commit_publishes rounds message w free staged =
      rw (commit-eq V R c rounds message w free staged) (
        refl,
        no_staging_after_promote V.graph L c.tenant_id _ w.graph,
        λ rid. published-promote V.graph L c.tenant_id _ rid w.graph,
        R.entry-delete _ _ _ ∙ rw (==_refl (commit_lock_key c.tenant_id)) refl,
      )

module _ (V : Servers) (P : Table.IsLawful V.pointers) (S : Table.IsLawful V.snapshots)
    (R : Redis.IsLawful V.redis) (c : Context) where
  -- A commit that succeeds adds one row to the snapshots, the snapshot that it answers, and the
  -- pointer of the tenant is at that snapshot.
  pub commit_points :
      (rounds : ℕ) (message : Option String) (w : World V)
      → V.redis.entry w.redis (commit_lock_key c.tenant_id) ≡ none
      → 0 < nodes_with V (is_staged V.graph c.tenant_id) w
      → ((p : Snapshot → Bool)
          → count p (V.snapshots.rows (commit_staging V c rounds message w).1.snapshots)
            ≡ one_if (p (snapshot_of V R c message w)) + count p (V.snapshots.rows w.snapshots))
        × (current_id V c
              (get_active_pointer V c.tenant_id (commit_staging V c rounds message w).1.pointers)
            ≡ (snapshot_of V R c message w).snapshot_id)
  unfolding finally_do publish_snapshot create_snapshot
  commit_points rounds message w free staged = rw (commit-eq V R c rounds message w free staged) (
    λ p. S.count-insert p _ w.snapshots,
    current-set_active_pointer V P c c.tenant_id _ w.pointers,
  )

module _ (V : Servers) (R : Redis.IsLawful V.redis) (c : Context) where
  -- With something staged and the lock of commits free, a commit leaves every entry of Redis outside
  -- the cache of the tenant as it was.
  pub commit_keeps_entries :
      (rounds : ℕ) (message : Option String) (w : World V) (j : String)
      → V.redis.entry w.redis (commit_lock_key c.tenant_id) ≡ none
      → 0 < nodes_with V (is_staged V.graph c.tenant_id) w
      → starts_with j (cache_prefix c.tenant_id) ≡ false
      → V.redis.entry (commit_staging V c rounds message w).1.redis j ≡ V.redis.entry w.redis j
  unfolding finally_do publish_snapshot
  commit_keeps_entries rounds message w j free staged outside =
      rw (commit-eq V R c rounds message w free staged) (
        ground (
          arith,
          free,
          R.entry-delete (commit_lock_key c.tenant_id)
              (on_schema_published V c rounds (snapshot_of V R c message w).snapshot_id
                (locked V R c w).redis)
              j,
          on_schema_published-entry V R c rounds (snapshot_of V R c message w).snapshot_id
              (locked V R c w).redis j outside,
          R.entry-set_nx (commit_lock_key c.tenant_id) c.user_id commit_lock_ttl_seconds w.redis j,
        ))
