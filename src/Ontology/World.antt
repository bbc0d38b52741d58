-- ===== src/Ontology/World.antt =====
-- The servers that the ontology service stands on, their states, and the actions on them. A
-- request's context is an argument: its tenant and user, the time, and what `uuid4` gives next.
use lingshu_round.Prelude.{ℕ, String, ◌<>◌, Option, if◌then◌else◌, ◌==◌, string_eq}
use lingshu_round.Prelude.Dict.{Dict}
use lingshu_round.Infra.Table.{Table}
use lingshu_round.Infra.Redis.{RedisClient}
use lingshu_round.Infra.Exec.{ok, Exec}
use lingshu_round.Ontology.Graph.{Node, GraphDb}
use lingshu_round.Ontology.Serialize.{Json}
use lingshu_round.Ontology.Lock.{require_lock}

pub record Context : Type 0 where
  pub tenant_id : String
  pub user_id : String
  pub now : ℕ
  pub uuid : String

pub data Change : Type 0 where
  created updated deleted : Change

-- a row of `snapshots`
pub record Snapshot : Type 0 where
  pub snapshot_id : String
  pub parent_snapshot_id : Option String
  pub tenant_id : String
  pub commit_message : Option String
  pub author : String
  pub entity_changes : Dict String Change
  pub entity_data : Dict String Node

-- a row of `active_pointers`
pub record ActivePointer : Type 0 where
  pub tenant_id : String
  pub snapshot_id : String

pub record Servers : Type 1 where
  pub graph : GraphDb
  pub redis : RedisClient
  pub snapshots : Table Snapshot
  pub pointers : Table ActivePointer
  pub json : Json

pub record World (V : Servers) : Type 0 where
  pub graph : V.graph.State
  pub redis : V.redis.State
  pub snapshots : V.snapshots.State
  pub pointers : V.pointers.State

-- `ENTITY_RID_TYPES[label]`
unfoldable pub entity_rid_type : String → String
entity_rid_type label =
    if label == "ObjectType"
    then "obj"
    else if label == "LinkType"
    then "link"
    else if label == "InterfaceType"
    then "iface"
    else if label == "SharedPropertyType"
    then "shprop"
    else if label == "ActionType"
    then "action"
    else "prop"

-- `generate_rid`, for a registered resource type
unfoldable pub generate_rid : String → String → String
generate_rid resource_type uuid = "ri." <> (resource_type <> ("." <> uuid))

module _ (V : Servers) where
  -- a call that reads and writes the graph
  unfoldable pub on_graph : {A : Type 0} → (V.graph.State → A × V.graph.State) → Exec (World V) A
  on_graph f w = let (a, g) = f w.graph in (ok a, record w { graph = g })

  unfoldable pub on_redis : {A : Type 0} → (V.redis.State → A × V.redis.State) → Exec (World V) A
  on_redis f w = let (a, r) = f w.redis in (ok a, record w { redis = r })

  -- `await self._require_lock(rid, user_id)`
  unfoldable pub check_lock : String → String → Exec (World V) Unit
  check_lock rid user w = (require_lock V.redis rid user w.redis, w)
