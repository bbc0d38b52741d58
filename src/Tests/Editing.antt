-- ===== src/Tests/Editing.antt =====
-- Requests for drafts and locks by users of one tenant.
use lingshu_round.Prelude.{
  String, ◌≡◌, ◌≢◌, refl, true, false, ◌&&◌, Option, none, some, List, [], ◌∷◌, if◌then◌else◌, ◌==◌,
  string_eq, option_eq, arith, ne_of_test,
}
use lingshu_round.Prelude.Value.{text}
use lingshu_round.Infra.Errors.{app_error, ontology_lock_required}
use lingshu_round.Infra.Exec.{err, is_ok}
use lingshu_round.Infra.Redis
use lingshu_round.Infra.Redis.{Entry}
use lingshu_round.Ontology.Graph.{Node, is_published}
use lingshu_round.Ontology.Lock.{held_by, lock_key, locked_by_other, acquire_lock}
use lingshu_round.Ontology.World.{Context, World}
use lingshu_round.Ontology.Keeps.{nodes_with}
use lingshu_round.Ontology.Service.Drafts.{update_entity, delete_entity, submit_to_staging}
use lingshu_round.Ontology.Service.Drafts.Outcomes.{edit_excluded}
use lingshu_round.Ontology.Service.Drafts.Runs.{
  Edit, create, update, delete, submit, discard, run, run_published, run_other_tenant,
}
use lingshu_round.Tests.Memory.{memory, memory_graph-IsLawful, memory_redis, memory_redis-IsLawful}
use lingshu_round.Tests.Publishing.{published_node, staged_node, ada, world_of}

abbrev bob : Context
bob = record ada { user_id = "bob" }

abbrev draft_of_ada : Node
draft_of_ada = record published_node { is_draft = true; draft_owner = some "ada" }

abbrev locked_for : String → String → Option Entry
locked_for user key =
    if key == "ontology:lock:ri.obj.1" then some (record { value = user; ttl = 1800 }) else none

abbrev edited : World memory
edited = record (world_of (published_node ∷ draft_of_ada ∷ [])) { redis = locked_for "ada" }

abbrev only_staged : World memory
only_staged = world_of (staged_node ∷ draft_of_ada ∷ [])

abbrev requests : List (Context × Edit)
requests =
    (ada, update "ObjectType" "ri.obj.1" (("display_name", text "Robot") ∷ []))
    ∷ (bob, delete "ObjectType" "ri.obj.1")
    ∷ (ada, submit "ObjectType" "ri.obj.1")
    ∷ (bob, create "LinkType" "owns" [])
    ∷ (bob, discard "LinkType" "ri.link.2")
    ∷ []

other_tenant : ◌≢◌ {A = String} "t1" "t2"
unfolding string_eq
other_tenant = ne_of_test {A = String} "t1" "t2" refl

ada_is_not_bob : ◌≢◌ {A = String} "ada" "bob"
unfolding string_eq
ada_is_not_bob = ne_of_test {A = String} "ada" "bob" refl

bob_holds_nothing : Redis.get memory_redis (lock_key "ri.obj.1") edited.redis ≢ some bob.user_id
unfolding lock_key string_eq option_eq
bob_holds_nothing =
    ne_of_test {A = Option String} (Redis.get memory_redis (lock_key "ri.obj.1") edited.redis)
      (some bob.user_id) refl

run_published_example :
    nodes_with memory (λ n. is_published n && n.rid == "ri.obj.1") (run memory requests edited)
    ≡ nodes_with memory (λ n. is_published n && n.rid == "ri.obj.1") edited
run_published_example =
    run_published memory memory_graph-IsLawful (λ n. n.rid == "ri.obj.1") requests edited

run_other_tenant_example :
    nodes_with memory (λ n. n.tenant_id == "t2" && n.is_draft) (run memory requests edited)
    ≡ nodes_with memory (λ n. n.tenant_id == "t2" && n.is_draft) edited
run_other_tenant_example =
    run_other_tenant memory memory_graph-IsLawful "t2" (λ n. n.is_draft) requests edited
      (other_tenant, (other_tenant, (other_tenant, (other_tenant, (other_tenant, tt)))))

abbrev submitted : World memory
submitted = (submit_to_staging memory ada "ObjectType" "ri.obj.1" edited).1

abbrev no_locks : String → Option Entry
no_locks _ = none

abbrev ada_locks : String → Option Entry
ada_locks = (acquire_lock memory_redis "ada" "ri.obj.1" no_locks).1

abbrev while_ada_edits : World memory
while_ada_edits = record edited { redis = memory_redis.advance 60 ada_locks }

edit_excluded_example :
    ((acquire_lock memory_redis "bob" "ri.obj.1" while_ada_edits.redis).0
      ≡ err (locked_by_other (some "ada")))
    × (update_entity memory bob "ObjectType" "ri.obj.1" [] while_ada_edits
        ≡ (err (app_error ontology_lock_required), while_ada_edits))
    × (is_ok (delete_entity memory bob "ObjectType" "ri.obj.1" while_ada_edits).0 ≡ false)
    × ((delete_entity memory bob "ObjectType" "ri.obj.1" while_ada_edits).1 ≡ while_ada_edits)
edit_excluded_example =
    edit_excluded memory bob memory_redis-IsLawful "ada" "ObjectType" "ri.obj.1" []
      (record edited { redis = no_locks }) (held_by "ada") 60 (unfold acquire_lock in refl)
      ada_is_not_bob (omega arith)
