-- ===== src/Ontology/Service/Publish.antt =====
-- ontology/service.py: staging becomes the published ontology, and a rollback goes back to an
-- earlier snapshot. The SQL session ends with the request, so its rows are written at once.
pub mod Locking
pub mod Commit
pub mod Rollback
use lingshu_round.Prelude.{
  ℕ, zero, suc, String, ◌<>◌, Bool, true, false, not, Option, none, some, List, [], ◌∷◌,
  if◌then◌else◌, ◌==◌, string_eq, select, starts_with, is_some, is_empty, leb, ◌&&◌,
}
use lingshu_round.Prelude.Dict.{Dict, insert}
use lingshu_round.Prelude.Value.{Value, text, object, field, end}
use lingshu_round.Infra.Errors.{
  app_error, ontology_lock_conflict, ontology_staging_empty, ontology_uncommitted_changes,
  ontology_not_found,
}
use lingshu_round.Infra.Exec.{
  Result, ok, err, Exec, pure, raise, gets, lift, raise_if, require, finally_do, ◌>>=◌, ◌>>◌,
}
use lingshu_round.Infra.Redis
use lingshu_round.Ontology.Graph.{Node}
use lingshu_round.Ontology.Repository.{
  get_active_node, get_staging_nodes, promote_staging_to_active, rollback_to_snapshot,
  has_uncommitted_changes, delete_node,
}
use lingshu_round.Ontology.Lock.{commit_lock_ttl_seconds}
use lingshu_round.Ontology.Serialize.{deserialize_from_neo4j}
use lingshu_round.Ontology.Snapshots.{
  create_snapshot, get_by_id, get_active_pointer, set_active_pointer,
}
use lingshu_round.Ontology.World.{
  Context, Change, created, updated, deleted, Snapshot, ActivePointer, Servers, World, generate_rid,
  on_graph, on_redis,
}

unfoldable pub commit_lock_key : String → String
commit_lock_key tenant = "ontology:commit_lock:" <> tenant

unfoldable pub cache_prefix : String → String
cache_prefix tenant = "ontology:cache:" <> (tenant <> ":")

-- the fields whose names do not start with an underscore
abbrev public_fields : Dict String Value → Dict String Value
public_fields = select (λ ((k, _) : String × Value). not (starts_with k "_"))

-- the message on the channel of published schemas
abbrev schema_message : String → String → Value
schema_message tenant snapshot_id = object (
    field "tenant_id" (text tenant)
      (field "snapshot_id" (text snapshot_id) (field "event" (text "schema_published") end)))

module _ (V : Servers) (c : Context) where
  -- the entry of `entity_changes` for a staged node
  unfoldable pub change_of : V.graph.State → Node → Change
  change_of g n =
      if n.is_active
      then if is_some (get_active_node V.graph n.label n.rid c.tenant_id g)
        then updated
        else created
      else deleted

  -- the loop that builds `entity_changes`
  unfoldable pub entity_changes :
      V.graph.State → List Node → Dict String Change → Dict String Change
  unfolding change_of
  entity_changes g [] d = d
  entity_changes g (n ∷ ns) d = entity_changes g ns (insert n.rid (change_of g n) d)

  -- the loop that builds `entity_data`
  unfoldable pub entity_data : List Node → Dict String Node → Dict String Node
  entity_data [] d = d
  entity_data (n ∷ ns) d = entity_data ns (
      if n.rid == ""
      then d
      else insert n.rid
          (record n { properties = public_fields (deserialize_from_neo4j V.json n.properties) }) d)

  pub delete_keys : List String → V.redis.State → V.redis.State
  delete_keys [] r = r
  delete_keys (k ∷ ks) r = delete_keys ks (V.redis.delete k r)

  -- the `SCAN` loop of `on_schema_published`, which ends when the cursor comes back to 0. The
  -- rounds are those that the server takes; the results hold for every number of them.
  pub delete_cached : ℕ → ℕ → V.redis.State → V.redis.State
  unfolding delete_keys
  delete_cached zero cursor r = r
  delete_cached (suc rounds) cursor r =
      let (next, ks) = V.redis.scan cursor (cache_prefix c.tenant_id) r in
      let r' = delete_keys ks r in
      elim (leb next 0) [ true ↦ r' | false ↦ delete_cached rounds next r' ]

  unfoldable pub on_schema_published : ℕ → String → V.redis.State → V.redis.State
  unfolding delete_cached
  on_schema_published rounds snapshot_id r =
      V.redis.publish ("ontology:schema_published:" <> c.tenant_id)
        (V.json.dumps (schema_message c.tenant_id snapshot_id)) (delete_cached rounds 0 r)

  abbrev pub new_snapshot :
      Option String → Option ActivePointer → Dict String Change → Dict String Node → Snapshot
  new_snapshot message pointer changes entities = record {
    snapshot_id = generate_rid "snap" c.uuid;
    parent_snapshot_id = elim pointer [ none ↦ none | some p ↦ some p.snapshot_id ];
    tenant_id = c.tenant_id;
    commit_message = message;
    author = c.user_id;
    entity_changes = changes;
    entity_data = entities;
  }

  -- the writes of a commit, in their order: snapshot, graph, pointer, notification
  pub publish_snapshot : ℕ → Snapshot → Exec (World V) Snapshot
  publish_snapshot rounds snapshot w = (
    ok snapshot,
    record w {
      snapshots = create_snapshot V snapshot w.snapshots;
      graph = (promote_staging_to_active V.graph c.tenant_id snapshot.snapshot_id w.graph).1;
      pointers = set_active_pointer V c.tenant_id snapshot.snapshot_id w.pointers;
      redis = on_schema_published rounds snapshot.snapshot_id w.redis;
    },
  )

  -- the body of the `try`
  pub commit_body : ℕ → Option String → Exec (World V) Snapshot
  unfolding publish_snapshot
  commit_body rounds message = do
    staging_nodes ← gets (λ w. get_staging_nodes V.graph c.tenant_id w.graph)
    raise_if (is_empty staging_nodes) (app_error ontology_staging_empty)
    changes ← gets (λ w. entity_changes w.graph staging_nodes [])
    pointer ← gets (λ w. get_active_pointer V c.tenant_id w.pointers)
    publish_snapshot rounds (new_snapshot message pointer changes (entity_data staging_nodes []))

  -- `finally: await self._redis.delete(commit_lock_key)`
  abbrev pub free_commit_lock : World V → World V
  free_commit_lock w = record w { redis = V.redis.delete (commit_lock_key c.tenant_id) w.redis }

  -- `commit_staging`
  unfoldable pub commit_staging : ℕ → Option String → Exec (World V) Snapshot
  unfolding commit_body
  commit_staging rounds message = do
    acquired ←
        on_redis V
          (Redis.set V.redis (commit_lock_key c.tenant_id) c.user_id commit_lock_ttl_seconds)
    raise_if (not acquired) (app_error ontology_lock_conflict)
    finally_do (commit_body rounds message) free_commit_lock

  -- the loop of `discard_all_staging`
  pub discard_nodes : List Node → V.graph.State → ℕ × V.graph.State
  discard_nodes [] g = (0, g)
  discard_nodes (n ∷ ns) g =
      let named = not (n.label == "") && not (n.rid == "") in
      let g' = (delete_node V.graph n.label n.rid c.tenant_id none (some true) none g).1 in
      let (count, g'') = discard_nodes ns (if named then g' else g) in
      (if named then suc count else count, g'')

  unfoldable pub discard_all_staging : Exec (World V) ℕ
  unfolding discard_nodes
  discard_all_staging = do
    staging_nodes ← gets (λ w. get_staging_nodes V.graph c.tenant_id w.graph)
    on_graph V (discard_nodes staging_nodes)

  abbrev pub current_id : Option ActivePointer → String
  current_id none = ""
  current_id (some p) = p.snapshot_id

  pub move_pointer : String → Exec (World V) Unit
  move_pointer snapshot_id w =
      (ok tt, record w { pointers = set_active_pointer V c.tenant_id snapshot_id w.pointers })

  -- `rollback_to_snapshot`
  unfoldable pub rollback : String → Exec (World V) Snapshot
  unfolding move_pointer
  rollback snapshot_id = do
    has_changes ← gets (λ w. has_uncommitted_changes V.graph c.tenant_id w.graph)
    raise_if has_changes (app_error ontology_uncommitted_changes)
    found ← gets (λ w. get_by_id V snapshot_id w.snapshots)
    snap ← require found (app_error ontology_not_found)
    pointer ← gets (λ w. get_active_pointer V c.tenant_id w.pointers)
    on_graph V (rollback_to_snapshot V.graph c.tenant_id snapshot_id (current_id pointer))
    move_pointer snapshot_id
    pure snap
