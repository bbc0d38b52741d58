-- ===== src/Tests/Publishing.antt =====
-- A commit and a rollback of a tenant with a published entity, a staged change of it, and a
-- published entity of another tenant.
use lingshu_round.Prelude.{
  ◌+◌, String, ◌≡◌, refl, Bool, true, false, none, some, List, [], ◌∷◌, if◌then◌else◌, ◌==◌,
  string_eq, option_eq, contains, arith,
}
use lingshu_round.Prelude.Count.{count, one_if}
use lingshu_round.Infra.Exec.{ok}
use lingshu_round.Ontology.Graph.{Node}
use lingshu_round.Ontology.Repository.{is_staged, staging_rids, promote_staging_to_active}
use lingshu_round.Ontology.Repository.Promotion.{
  published_of, staged_of, restored_of, published-promote,
}
use lingshu_round.Ontology.Snapshots.{get_active_pointer, get_by_id}
use lingshu_round.Ontology.World.{Context, Snapshot, ActivePointer, World}
use lingshu_round.Ontology.Keeps.{nodes_with}
use lingshu_round.Ontology.Service.Publish.{
  commit_staging, cache_prefix, commit_lock_key, rollback, current_id,
}
use lingshu_round.Ontology.Service.Publish.Commit.{
  commit_publishes, commit_points, commit_keeps_entries, snapshot_of,
}
use lingshu_round.Ontology.Service.Publish.Rollback.{rollback_restores}
use lingshu_round.Tests.Memory.{
  memory, memory_graph, memory_graph-IsLawful, memory_redis-IsLawful, memory_table-IsLawful,
}

abbrev pub published_node : Node
published_node = record {
  label = "ObjectType";
  rid = "ri.obj.1";
  tenant_id = "t1";
  api_name = "robot";
  is_draft = false;
  is_staging = false;
  is_active = true;
  draft_owner = none;
  snapshot_id = some "ri.snap.1";
  parent_snapshot_id = none;
  updated_at = 1;
  properties = [];
}

abbrev pub staged_node : Node
staged_node = record published_node { is_staging = true; parent_snapshot_id = some "ri.snap.1" }

abbrev pub foreign_node : Node
foreign_node = record published_node { tenant_id = "t2" }

abbrev pub ada : Context
ada = record { tenant_id = "t1"; user_id = "ada"; now = 7; uuid = "2" }

abbrev first_snapshot : Snapshot
first_snapshot = record {
  snapshot_id = "ri.snap.1";
  parent_snapshot_id = none;
  tenant_id = "t1";
  commit_message = none;
  author = "ada";
  entity_changes = [];
  entity_data = [];
}

abbrev pub world_of : List Node → World memory
world_of nodes = record {
  graph = record { nodes = nodes; edges = [] };
  redis = λ _. none;
  snapshots = first_snapshot ∷ [];
  pointers = record { tenant_id = "t1"; snapshot_id = "ri.snap.1" } ∷ [];
}

abbrev clean : World memory
clean = world_of (published_node ∷ foreign_node ∷ [])

abbrev pub staged : World memory
staged = world_of (published_node ∷ staged_node ∷ foreign_node ∷ [])

published-promote_example :
    count
      (published_of memory_graph memory_graph-IsLawful "t1" "ri.obj.1")
      (promote_staging_to_active memory_graph "t1" "ri.snap.2" staged.graph).1.nodes
    ≡ (if contains (staging_rids memory_graph "t1" staged.graph) "ri.obj.1"
        then count (staged_of memory_graph memory_graph-IsLawful "t1" "ri.obj.1") staged.graph.nodes
        else count
            (published_of memory_graph memory_graph-IsLawful "t1" "ri.obj.1")
            staged.graph.nodes)
published-promote_example =
    published-promote memory_graph memory_graph-IsLawful "t1" "ri.snap.2" "ri.obj.1" staged.graph

abbrev committed : World memory
committed = (commit_staging memory ada 1 none staged).1

commit_publishes_example :
    ((commit_staging memory ada 1 none staged).0
      ≡ ok (snapshot_of memory memory_redis-IsLawful ada none staged))
    × (nodes_with memory (is_staged memory_graph "t1") committed ≡ 0)
    × ((rid : String)
        → nodes_with memory (published_of memory_graph memory_graph-IsLawful "t1" rid) committed ≡ (
            if contains (staging_rids memory_graph "t1" staged.graph) rid
            then nodes_with memory (staged_of memory_graph memory_graph-IsLawful "t1" rid) staged
            else nodes_with memory
                (published_of memory_graph memory_graph-IsLawful "t1" rid)
                staged))
    × (committed.redis (commit_lock_key "t1") ≡ none)
commit_publishes_example =
    commit_publishes memory memory_graph-IsLawful memory_redis-IsLawful ada 1 none staged refl
      (unfold count string_eq in omega arith)

commit_points_example :
    ((p : Snapshot → Bool)
      → count p committed.snapshots
        ≡ one_if (p (snapshot_of memory memory_redis-IsLawful ada none staged))
          + count p staged.snapshots)
    × (current_id memory ada (get_active_pointer memory "t1" committed.pointers)
        ≡ (snapshot_of memory memory_redis-IsLawful ada none staged).snapshot_id)
commit_points_example =
    commit_points memory (memory_table-IsLawful ActivePointer) (memory_table-IsLawful Snapshot)
      memory_redis-IsLawful ada 1 none staged refl (unfold count string_eq in omega arith)

-- ada edits an object while she commits
abbrev while_editing : World memory
while_editing = record staged {
  redis = λ j.
      if j == "ontology:lock:ri.obj.9" then some (record { value = "ada"; ttl = 1800 }) else none;
}

commit_keeps_entries_example :
    (commit_staging memory ada 1 none while_editing).1.redis "ontology:lock:ri.obj.9"
    ≡ while_editing.redis "ontology:lock:ri.obj.9"
commit_keeps_entries_example =
    commit_keeps_entries memory memory_redis-IsLawful ada 1 none while_editing
      "ontology:lock:ri.obj.9" (unfold commit_lock_key string_eq in refl)
      (unfold count string_eq in omega arith) (unfold cache_prefix in refl)

rollback_restores_example :
    ((rollback memory ada "ri.snap.1" clean).0 ≡ ok first_snapshot)
    × ((rid : String)
        → nodes_with memory
            (published_of memory_graph memory_graph-IsLawful "t1" rid)
            (rollback memory ada "ri.snap.1" clean).1
          ≡ nodes_with memory
              (restored_of memory_graph memory_graph-IsLawful "t1" rid "ri.snap.1"
                (current_id memory ada (get_active_pointer memory "t1" clean.pointers)))
              clean)
rollback_restores_example =
    rollback_restores memory memory_graph-IsLawful ada "ri.snap.1" clean first_snapshot
      (unfold count string_eq in refl) (unfold get_by_id string_eq in refl)
