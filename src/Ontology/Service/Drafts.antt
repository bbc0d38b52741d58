-- ===== src/Ontology/Service/Drafts.antt =====
-- ontology/service.py: the life of a draft. An entity is created and edited as a draft, submitted
-- to staging, or discarded.
pub mod Hidden
pub mod Runs
pub mod Outcomes
use lingshu_round.Prelude.{
  ℕ, String, Bool, true, false, not, Option, none, some, List, [], if◌then◌else◌, ◌==◌, string_eq,
}
use lingshu_round.Prelude.Dict.{Dict, keys, update}
use lingshu_round.Prelude.Value.{Value}
use lingshu_round.Infra.Errors.{
  app_error, ontology_duplicate_api_name, ontology_not_found, ontology_draft_not_found,
  ontology_staging_not_found,
}
use lingshu_round.Infra.Exec.{
  Result, ok, err, Exec, pure, raise, gets, lift, raise_if, require, ◌>>=◌, ◌>>◌,
}
use lingshu_round.Ontology.Graph.{Node}
use lingshu_round.Ontology.Repository.{
  Patch, apply_patch, create_node, get_active_node, get_draft_node, get_staging_node,
  get_effective_node, update_node, delete_node, check_api_name_unique, or_try,
}
use lingshu_round.Ontology.Lock.{lock_key}
use lingshu_round.Ontology.Serialize.{EntityResponse, node_to_response, serialize_for_neo4j}
use lingshu_round.Ontology.Validators.Immutable.{check_immutable_fields}
use lingshu_round.Ontology.Validators.Dependency.{check_delete_dependencies}
use lingshu_round.Ontology.World.{
  Context, Servers, World, entity_rid_type, generate_rid, on_graph, on_redis, check_lock,
}

module _ (V : Servers) (c : Context) where
  -- the node of a new entity
  abbrev pub new_node : String → String → Dict String Value → Node
  new_node label api_name props = record {
    label = label;
    rid = generate_rid (entity_rid_type label) c.uuid;
    tenant_id = c.tenant_id;
    api_name = api_name;
    is_draft = true;
    is_staging = false;
    is_active = true;
    draft_owner = some c.user_id;
    snapshot_id = none;
    parent_snapshot_id = none;
    updated_at = c.now;
    properties = serialize_for_neo4j V.json props;
  }

  -- `_create_entity`
  unfoldable pub create_entity : String → String → Dict String Value → Exec (World V) EntityResponse
  create_entity label api_name props = do
    unique ← gets (λ w. check_api_name_unique V.graph label api_name c.tenant_id none w.graph)
    raise_if (not unique) (app_error ontology_duplicate_api_name)
    node ← on_graph V (create_node V.graph (new_node label api_name props))
    pure (node_to_response V.json node)

  -- `_get_entity_draft`
  unfoldable pub get_entity_draft : String → String → Exec (World V) EntityResponse
  get_entity_draft label rid = do
    node ← gets (λ w. get_effective_node V.graph label rid c.tenant_id c.user_id w.graph)
    found ← require node (app_error ontology_not_found)
    pure (node_to_response V.json found)

  -- the draft that an update makes of the staged or published version
  abbrev pub draft_clone : Node → Dict String Value → Node
  draft_clone source updates = record source {
    is_draft = true;
    is_staging = false;
    draft_owner = some c.user_id;
    parent_snapshot_id = source.snapshot_id;
    properties = update source.properties (serialize_for_neo4j V.json updates);
    updated_at = c.now;
  }

  abbrev pub update_patch : Dict String Value → Patch
  update_patch updates = record {
    is_draft = none;
    is_staging = none;
    draft_owner = none;
    updated_at = some c.now;
    properties = serialize_for_neo4j V.json updates;
  }

  -- the two branches on `draft`
  write_draft : String → String → Dict String Value → Option Node → Exec (World V) Node
  write_draft label rid updates none = do
    found ← gets (λ w.
        or_try (get_staging_node V.graph label rid c.tenant_id w.graph)
          (get_active_node V.graph label rid c.tenant_id w.graph))
    source ← require found (app_error ontology_not_found)
    on_graph V (create_node V.graph (draft_clone source updates))
  write_draft label rid updates (some _) = do
    updated ← on_graph V (
        update_node V.graph label rid c.tenant_id (update_patch updates) (some true)
          (some c.user_id))
    require updated (app_error ontology_not_found)

  -- `_update_entity`
  unfoldable pub update_entity : String → String → Dict String Value → Exec (World V) EntityResponse
  unfolding write_draft
  update_entity label rid updates = do
    check_lock V rid c.user_id
    lift (check_immutable_fields label (keys updates))
    draft ← gets (λ w. get_draft_node V.graph label rid c.tenant_id c.user_id w.graph)
    node ← write_draft label rid updates draft
    pure (node_to_response V.json node)

  -- the draft that marks a published entity for deletion
  abbrev pub deletion_marker : Node → Node
  deletion_marker active = record active {
    is_draft = true;
    is_staging = false;
    is_active = false;
    draft_owner = some c.user_id;
    parent_snapshot_id = active.snapshot_id;
    updated_at = c.now;
  }

  delete_staging_unless : String → String → Bool → Exec (World V) Unit
  delete_staging_unless label rid true = pure tt
  delete_staging_unless label rid false = do
    on_graph V (delete_node V.graph label rid c.tenant_id none (some true) none)
    pure tt

  -- the two branches on `active`
  mark_deleted : String → String → Option Node → Exec (World V) Unit
  unfolding delete_staging_unless
  mark_deleted label rid (some active) = do
    on_graph V (create_node V.graph (deletion_marker active))
    pure tt
  mark_deleted label rid none = do
    deleted ←
        on_graph V (delete_node V.graph label rid c.tenant_id (some true) none (some c.user_id))
    delete_staging_unless label rid deleted

  -- `_delete_entity`
  unfoldable pub delete_entity : String → String → Exec (World V) Unit
  unfolding mark_deleted
  delete_entity label rid = do
    dependencies ← gets (λ w. check_delete_dependencies V.graph label rid c.tenant_id w.graph)
    lift dependencies
    check_lock V rid c.user_id
    active ← gets (λ w. get_active_node V.graph label rid c.tenant_id w.graph)
    mark_deleted label rid active

  abbrev pub submit_patch : Patch
  submit_patch = record {
    is_draft = some false;
    is_staging = some true;
    draft_owner = some none;
    updated_at = some c.now;
    properties = [];
  }

  -- `await self._redis.delete(lock_key)`
  unfoldable pub drop_lock : String → Exec (World V) Unit
  drop_lock rid = on_redis V (λ r. (tt, V.redis.delete (lock_key rid) r))

  -- `submit_to_staging`
  unfoldable pub submit_to_staging : String → String → Exec (World V) EntityResponse
  submit_to_staging label rid = do
    draft ← gets (λ w. get_draft_node V.graph label rid c.tenant_id c.user_id w.graph)
    require draft (app_error ontology_draft_not_found)
    updated ←
        on_graph V
          (update_node V.graph label rid c.tenant_id submit_patch (some true) (some c.user_id))
    node ← require updated (app_error ontology_draft_not_found)
    drop_lock rid
    pure (node_to_response V.json node)

  -- `discard_draft`
  unfoldable pub discard_draft : String → String → Exec (World V) Unit
  discard_draft label rid = do
    deleted ←
        on_graph V (delete_node V.graph label rid c.tenant_id (some true) none (some c.user_id))
    raise_if (not deleted) (app_error ontology_draft_not_found)
    drop_lock rid

  abbrev pub back_to_draft : Patch
  back_to_draft = record {
    is_draft = some true;
    is_staging = some false;
    draft_owner = some (some c.user_id);
    updated_at = none;
    properties = [];
  }

  -- the two branches on `active`
  unstage : String → String → Option Node → Exec (World V) Unit
  unstage label rid (some _) = do
    deleted ← on_graph V (delete_node V.graph label rid c.tenant_id none (some true) none)
    raise_if (not deleted) (app_error ontology_staging_not_found)
  unstage label rid none = do
    staging ← gets (λ w. get_staging_node V.graph label rid c.tenant_id w.graph)
    require staging (app_error ontology_staging_not_found)
    on_graph V (update_node V.graph label rid c.tenant_id back_to_draft none none)
    pure tt

  -- `discard_staging`
  unfoldable pub discard_staging : String → String → Exec (World V) Unit
  unfolding unstage
  discard_staging label rid = do
    active ← gets (λ w. get_active_node V.graph label rid c.tenant_id w.graph)
    unstage label rid active
