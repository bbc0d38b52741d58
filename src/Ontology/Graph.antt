-- ===== src/Ontology/Graph.antt =====
-- The nodes of the ontology graph, and the Neo4j server as the Cypher statements of
-- ontology/repository/graph_repo.py use it. The server is a parameter of the code.
use lingshu_round.Prelude.{ℕ, String, ◌≡◌, Bool, Option, List, ◌==◌, string_eq, ◌&&◌, not}
use lingshu_round.Prelude.Count.{count}
use lingshu_round.Prelude.Dict.{Dict}
use lingshu_round.Prelude.Value.{Value}
use lingshu_round.Infra.Table.{Table}
use lingshu_round.Infra.Table

-- One version of an entity. The fields that decide its version and identity are named; the others
-- (`display_name`, `widget`, `parameters`, …) are in `properties`, as they are stored.
pub record Node : Type 0 where
  pub label : String
  pub rid : String
  pub tenant_id : String
  pub api_name : String
  pub is_draft : Bool
  pub is_staging : Bool
  pub is_active : Bool
  pub draft_owner : Option String
  pub snapshot_id : Option String
  pub parent_snapshot_id : Option String
  pub updated_at : ℕ
  pub properties : Dict String Value

pub data Direction : Type 0 where
  outgoing incoming both : Direction

pub record GraphDb : Type 1 where
  pub table : Table Node
  pub open table use *
  -- `MATCH (n) MATCH (n)-[:T]->(m) RETURN m`, for the nodes `n` that meet the condition
  pub related : (Node → Bool) → String → Direction → State → List Node
  -- `MATCH (a) MATCH (b) CREATE (a)-[:T]->(b)`
  pub relate : (Node → Bool) → String → (Node → Bool) → State → State

pub record IsLawful (G : GraphDb) : Type 0 where
  pub nodes_table : Table.IsLawful G.table
  -- a new relationship changes no node
  pub count-relate :
      (p a b : Node → Bool) (t : String) (s : G.State)
      → count p (G.rows (G.relate a t b s)) ≡ count p (G.rows s)

-- the version that readers of the published ontology see
abbrev pub is_published : Node → Bool
is_published n = not n.is_draft && (not n.is_staging && n.is_active)

-- `{rid: $rid, tenant_id: $tenant_id}` under a label
abbrev pub is_version_of : String → String → String → Node → Bool
is_version_of label rid tenant n = n.label == label && (n.rid == rid && n.tenant_id == tenant)
