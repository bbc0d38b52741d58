-- ===== src/Ontology/Snapshots.antt =====
-- ontology/repository/snapshot_repo.py over the tables `snapshots` and `active_pointers`.
pub mod FieldDiff
use lingshu_round.Prelude.{
  String, Bool, Option, none, some, if◌then◌else◌, find, is_some, ◌==◌, string_eq,
}
use lingshu_round.Ontology.World.{Snapshot, ActivePointer, Servers}

module _ (V : Servers) where
  unfoldable pub create_snapshot : Snapshot → V.snapshots.State → V.snapshots.State
  create_snapshot snapshot s = V.snapshots.insert snapshot s

  unfoldable pub get_by_id : String → V.snapshots.State → Option Snapshot
  get_by_id snapshot_id s = find (λ r. r.snapshot_id == snapshot_id) (V.snapshots.rows s)

  unfoldable pub get_active_pointer : String → V.pointers.State → Option ActivePointer
  get_active_pointer tenant s = find (λ r. r.tenant_id == tenant) (V.pointers.rows s)

  unfoldable pub set_active_pointer : String → String → V.pointers.State → V.pointers.State
  unfolding get_active_pointer
  set_active_pointer tenant snapshot_id s =
      if is_some (get_active_pointer tenant s)
      then V.pointers.update_where (λ r. r.tenant_id == tenant)
          (λ r. record r { snapshot_id = snapshot_id }) s
      else V.pointers.insert (record { tenant_id = tenant; snapshot_id = snapshot_id }) s
