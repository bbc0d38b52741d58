-- ===== src/Tests/Memory.antt =====
-- Servers in memory: a table is a list of rows, the graph a list of nodes and one of edges, Redis a
-- function from keys to entries. They do what the servers are documented to do.
use lingshu_round.Prelude.{
  String, refl, Bool, not, ◌&&◌, ◌||◌, Option, none, some, List, [], ◌∷◌, ◌++◌, if◌then◌else◌, ◌==◌,
  string_eq, is_some, map, select, any, contains, arith,
}
use lingshu_round.Prelude.Count.{count, count-map, count-select}
use lingshu_round.Prelude.Value.{array, nil}
use lingshu_round.Infra.Table.{Table}
use lingshu_round.Infra.Table
use lingshu_round.Infra.Redis.{RedisClient, Entry, aged, with_ttl}
use lingshu_round.Infra.Redis
use lingshu_round.Ontology.Graph.{Node, Direction, outgoing, incoming, both, GraphDb, IsLawful}
use lingshu_round.Ontology.Serialize.{Json}
use lingshu_round.Ontology.World.{Snapshot, ActivePointer, Servers}

abbrev pub memory_table : (A : Type 0) → Table A
memory_table A = record {
  State = List A;
  rows = λ s. s;
  insert = λ a s. a ∷ s;
  update_where = λ q f s. map (λ a. if q a then f a else a) s;
  delete_where = λ q s. select (λ a. not (q a)) s;
}

pub memory_table-IsLawful : (A : Type 0) → Table.IsLawful (memory_table A)
unfolding count
memory_table-IsLawful A = record {
  count-insert = λ p a s. refl;
  count-update_where = λ p q f s. count-map p (λ a. if q a then f a else a) s;
  count-delete_where = λ p q s. count-select p (λ a. not (q a)) s;
}

-- a relationship, by the rids that it joins
pub record Edge : Type 0 where
  pub source : String
  pub kind : String
  pub target : String

pub record Stored : Type 0 where
  pub nodes : List Node
  pub edges : List Edge

-- the rids of the nodes that meet a condition
abbrev rids_where : (Node → Bool) → List Node → List String
rids_where q ns = map (λ (n : Node). n.rid) (select q ns)

abbrev leads : Direction → String → List String → String → Edge → Bool
leads outgoing t rids m e = e.kind == t && (contains rids e.source && e.target == m)
leads incoming t rids m e = e.kind == t && (contains rids e.target && e.source == m)
leads both t rids m e =
    e.kind == t
    && (contains rids e.source && e.target == m || contains rids e.target && e.source == m)

abbrev edges_to : String → List String → String → List Edge
edges_to t [] a = []
edges_to t (b ∷ bs) a = record { source = a; kind = t; target = b } ∷ edges_to t bs a

abbrev edges_between : String → List String → List String → List Edge
edges_between t [] bs = []
edges_between t (a ∷ rest) bs = edges_to t bs a ++ edges_between t rest bs

abbrev nodes_memory : Table Node
nodes_memory = record {
  State = Stored;
  rows = λ s. s.nodes;
  insert = λ n s. record s { nodes = n ∷ s.nodes };
  update_where = λ q f s. record s { nodes = map (λ n. if q n then f n else n) s.nodes };
  delete_where = λ q s. record s { nodes = select (λ n. not (q n)) s.nodes };
}

abbrev pub memory_graph : GraphDb
memory_graph = record {
  table = nodes_memory;
  related = λ q t d s. select (λ m. any (leads d t (rids_where q s.nodes) m.rid) s.edges) s.nodes;
  relate = λ a t b s. record s {
    edges = edges_between t (rids_where a s.nodes) (rids_where b s.nodes) ++ s.edges;
  };
}

pub memory_graph-IsLawful : IsLawful memory_graph
unfolding count
memory_graph-IsLawful = record {
  nodes_table = record {
    count-insert = λ p a s. refl;
    count-update_where = λ p q f s. count-map p (λ a. if q a then f a else a) s.nodes;
    count-delete_where = λ p q s. count-select p (λ a. not (q a)) s.nodes;
  };
  count-relate = λ p a b t s. refl;
}

abbrev pub memory_redis : RedisClient
memory_redis = record {
  State = String → Option Entry;
  entry = λ s k. s k;
  set_nx = λ k v n s j.
      if is_some (s k) then s j else if j == k then some (record { value = v; ttl = n }) else s j;
  expire = λ k n s j. if j == k then with_ttl n (s j) else s j;
  delete = λ k s j. if j == k then none else s j;
  advance = λ n s j. aged n (s j);
  scan = λ cursor prefix s. (0, []);
  publish = λ channel message s. s;
}

pub memory_redis-IsLawful : Redis.IsLawful memory_redis
memory_redis-IsLawful = record {
  entry-set_nx = λ k v n s j. refl;
  entry-expire = λ k n s j. refl;
  entry-delete = λ k s j. refl;
  entry-publish = λ channel message s j. refl;
  scan_matches = λ cursor prefix s j h. ground arith;
  entry-advance = λ n s j. refl;
}

-- a format in which every value is an empty array
abbrev pub empty_json : Json
empty_json = record { dumps = λ v. "[]"; loads = λ s. some (array nil) }

abbrev pub memory : Servers
memory = record {
  graph = memory_graph;
  redis = memory_redis;
  snapshots = memory_table Snapshot;
  pointers = memory_table ActivePointer;
  json = empty_json;
}
