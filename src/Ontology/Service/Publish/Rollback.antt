-- ===== src/Ontology/Service/Publish/Rollback.antt =====
-- What a rollback answers, and the versions that it leaves published.
use lingshu_round.Prelude.{◌<◌, String, ◌≡◌, refl, Bool, ◌&&◌, ◌||◌, some, ◌==◌, string_eq, arith}
use lingshu_round.Infra.Errors.{app_error, ontology_uncommitted_changes}
use lingshu_round.Infra.Exec.{ok, err, ◌>>=◌}
use lingshu_round.Ontology.Graph.{Node, IsLawful}
use lingshu_round.Ontology.Repository.{has_uncommitted_changes}
use lingshu_round.Ontology.Repository.Promotion.{published_of, restored_of, published-rollback}
use lingshu_round.Ontology.Snapshots.{get_by_id, get_active_pointer}
use lingshu_round.Ontology.World.{Context, Snapshot, Servers, World, on_graph}
use lingshu_round.Ontology.Keeps.{nodes_with}
use lingshu_round.Ontology.Service.Publish.{rollback, move_pointer, current_id}

module _ (V : Servers) (c : Context) where
  -- the drafts and the staged versions of the tenant
  abbrev pub uncommitted : Node → Bool
  uncommitted n = n.tenant_id == c.tenant_id && (n.is_draft || n.is_staging)

  -- While the tenant has a draft or a staged version, of any user, a rollback is refused, and it
  -- leaves the world as it was.
  pub rollback_refused :
      (snapshot_id : String) (w : World V)
      → 0 < nodes_with V uncommitted w
      → rollback V c snapshot_id w ≡ (err (app_error ontology_uncommitted_changes), w)
  unfolding rollback ◌>>=◌ has_uncommitted_changes
  rollback_refused snapshot_id w h = ground arith

module _ (V : Servers) (L : IsLawful V.graph) (c : Context) where
  -- With nothing uncommitted, a rollback to a snapshot that there is answers it, whichever tenant
  -- wrote it, and an entity is then published by its versions of that snapshot and by those that
  -- were published by a snapshot other than the current one.
  pub rollback_restores :
      (snapshot_id : String) (w : World V) (snap : Snapshot)
      → nodes_with V (uncommitted V c) w ≡ 0
      → get_by_id V snapshot_id w.snapshots ≡ some snap
      → ((rollback V c snapshot_id w).0 ≡ ok snap)
        × ((rid : String)
            → nodes_with V (published_of V.graph L c.tenant_id rid) (rollback V c snapshot_id w).1
              ≡ nodes_with V
                  (restored_of V.graph L c.tenant_id rid snapshot_id
                    (current_id V c (get_active_pointer V c.tenant_id w.pointers)))
                  w)
  unfolding rollback ◌>>=◌ has_uncommitted_changes on_graph move_pointer
  rollback_restores snapshot_id w snap z e =
      rw (z, e) (refl, λ rid. published-rollback V.graph L c.tenant_id snapshot_id _ rid w.graph)
