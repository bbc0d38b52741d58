-- ===== src/Tests/Retrying.antt =====
-- Promotions that are started again, and an operation that fails twice before it succeeds.
use lingshu_round.Prelude.{
  ℕ, suc, String, Bool, ◌&&◌, ◌==◌, string_eq, ◌≡◌, refl, length, if◌then◌else◌, ltb, arith,
}
use lingshu_round.Prelude.Count.{count}
use lingshu_round.Ontology.Graph.{Node, is_published}
use lingshu_round.Ontology.Repository.{
  staging_rids, deactivate_staged, promote_staged, promote_staging_to_active,
}
use lingshu_round.Ontology.Repository.Resume.{resume_after_promote}
use lingshu_round.Ontology.Retry.{
  Attempt, done, transient, retry_neo4j_operation, default_max_retries,
}
use lingshu_round.Ontology.Retry.Laws.{retry_succeeds}
use lingshu_round.Tests.Memory.{Stored, memory_graph, memory_graph-IsLawful}
use lingshu_round.Tests.Publishing.{staged}

abbrev deactivated : Stored
deactivated =
    deactivate_staged memory_graph "t1" (staging_rids memory_graph "t1" staged.graph) staged.graph

abbrev half_promoted : Stored
half_promoted = promote_staged memory_graph "t1" "ri.snap.2" deactivated

-- the version that was staged is published once
abbrev is_current : Node → Bool
is_current n = n.rid == "ri.obj.1" && is_published n

resume_after_promote_example :
    count is_current (promote_staging_to_active memory_graph "t1" "ri.snap.2" half_promoted).1.nodes
    ≡ count is_current
        (promote_staging_to_active memory_graph "t1" "ri.snap.2" staged.graph).1.nodes
resume_after_promote_example =
    resume_after_promote memory_graph memory_graph-IsLawful "t1" "ri.snap.2" is_current staged.graph

-- the number of runs so far is the state; the first two fail
abbrev third_time : ℕ → Attempt ℕ String × ℕ
third_time n = (if ltb n 2 then transient "session expired" else done n, suc n)

retry_succeeds_example :
    ((retry_neo4j_operation third_time 500 5000 default_max_retries 0).0 ≡ done 2)
    × (length (retry_neo4j_operation third_time 500 5000 default_max_retries 0).1 ≡ 2)
    × ((retry_neo4j_operation third_time 500 5000 default_max_retries 0).2 ≡ 3)
retry_succeeds_example =
    retry_succeeds third_time 500 5000 2 default_max_retries 0 (omega arith) (refl, (refl, tt)) refl
