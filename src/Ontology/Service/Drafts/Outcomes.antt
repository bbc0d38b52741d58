-- ===== src/Ontology/Service/Drafts/Outcomes.antt =====
-- What each request for a draft answers, and the versions that it leaves.
use lingshu_round.Prelude.{
  ℕ, ◌<◌, String, ◌≡◌, ◌≢◌, refl, ◌∙◌, Bool, true, false, ◌&&◌, ◌||◌, none, some, arith,
  if◌then◌else◌, string_eq, option_eq, ==_refl, find, Option-cases, inl, inr,
}
use lingshu_round.Prelude.Count.{
  count, count_ext, count_none, find-none_of_count, count_of_find-none,
}
use lingshu_round.Prelude.Dict.{Dict}
use lingshu_round.Prelude.Value.{Value}
use lingshu_round.Infra.Errors.{app_error, ontology_lock_required, ontology_draft_not_found}
use lingshu_round.Infra.Exec.{ok, err, is_ok, ◌>>=◌}
use lingshu_round.Infra.Redis
use lingshu_round.Ontology.Graph.{Node, IsLawful, is_version_of}
use lingshu_round.Ontology.Repository.{
  get_draft_node, get_active_node, get_staging_node, update_node, apply_patch, owned_by,
}
use lingshu_round.Ontology.Lock.{
  LockStatus, lock_key, lock_ttl_seconds, locked_by_other, acquire_lock, require_lock,
}
use lingshu_round.Ontology.Lock.Laws.{holder-acquire, acquire_held}
use lingshu_round.Ontology.Serialize.{node_to_response}
use lingshu_round.Ontology.World.{Context, Servers, World, on_graph, on_redis, check_lock}
use lingshu_round.Ontology.Keeps.{nodes_with}
use lingshu_round.Ontology.Service.Drafts.{
  update_entity, delete_entity, submit_to_staging, discard_staging, unstage, drop_lock,
  submit_patch,
}

-- the drafts of an entity that a user owns
abbrev pub own_draft : String → String → String → String → Node → Bool
own_draft label rid tenant user n =
    is_version_of label rid tenant n && (n.is_draft && owned_by user n)

module _ (V : Servers) (c : Context) where
  -- Who does not hold the lock of an entity can neither update nor delete it, and both requests
  -- leave the world as it was.
  pub edit_needs_lock :
      (label rid : String) (updates : Dict String Value) (w : World V)
      → Redis.get V.redis (lock_key rid) w.redis ≢ some c.user_id
      → (update_entity V c label rid updates w ≡ (err (app_error ontology_lock_required), w))
        × (is_ok (delete_entity V c label rid w).0 ≡ false)
        × ((delete_entity V c label rid w).1 ≡ w)
  unfolding update_entity delete_entity ◌>>=◌ check_lock require_lock
  edit_needs_lock label rid updates w free = (ground arith, ground arith, ground arith)

  module _ (R : Redis.IsLawful V.redis) where
    -- While the lock that a user acquired has time left, another user can neither acquire it nor
    -- edit the entity: the acquisition is refused with the name of the holder, and its updates and
    -- deletions are refused and leave the world as it was.
    pub edit_excluded :
        (a label rid : String) (updates : Dict String Value) (w : World V) (l : LockStatus) (n : ℕ)
        → (acquire_lock V.redis a rid w.redis).0 ≡ ok l
        → a ≢ c.user_id
        → n < lock_ttl_seconds
        → let later : World V = record w {
          redis = V.redis.advance n (acquire_lock V.redis a rid w.redis).1;
        } in
          ((acquire_lock V.redis c.user_id rid later.redis).0 ≡ err (locked_by_other (some a)))
          × (update_entity V c label rid updates later
              ≡ (err (app_error ontology_lock_required), later))
          × (is_ok (delete_entity V c label rid later).0 ≡ false)
          × ((delete_entity V c label rid later).1 ≡ later)
    edit_excluded a label rid updates w l n acquired ne before =
        let later : World V = record w {
          redis = V.redis.advance n (acquire_lock V.redis a rid w.redis).1;
        } in
        let held = holder-acquire V.redis R a rid w.redis l n acquired before in
        let (no_update, no_deletion, unchanged) =
          edit_needs_lock label rid updates later (λ mine. absurd (ground arith)) in
        (
          acquire_held V.redis R a c.user_id rid later.redis held ne,
          no_update,
          no_deletion,
          unchanged,
        )

module _ (V : Servers) (L : IsLawful V.graph) (R : Redis.IsLawful V.redis) (c : Context) where
  -- the versions of an entity that are staged, or are drafts of the user
  abbrev pub staged_or_own : String → String → Node → Bool
  staged_or_own label rid n =
      is_version_of label rid c.tenant_id n && (n.is_staging || n.is_draft && owned_by c.user_id n)

  -- Without a draft of the user a submission is refused, and nothing changes.
  pub submit_refused :
      (label rid : String) (w : World V)
      → nodes_with V (own_draft label rid c.tenant_id c.user_id) w ≡ 0
      → submit_to_staging V c label rid w ≡ (err (app_error ontology_draft_not_found), w)
  unfolding submit_to_staging ◌>>=◌ get_draft_node
  submit_refused label rid w z =
      rw (find-none_of_count (own_draft label rid c.tenant_id c.user_id) (V.graph.rows w.graph) z)
        refl

  submit-eq :
      (label rid : String) (w : World V) (n : Node)
      → find (own_draft label rid c.tenant_id c.user_id) (V.graph.rows w.graph) ≡ some n
      → submit_to_staging V c label rid w ≡ (
        ok (node_to_response V.json (apply_patch (submit_patch V c) n)),
        record w {
          graph =
              V.graph.update_where
                (own_draft label rid c.tenant_id c.user_id)
                (apply_patch (submit_patch V c))
                w.graph;
          redis = V.redis.delete (lock_key rid) w.redis;
        },
      )
  unfolding submit_to_staging ◌>>=◌ drop_lock on_graph on_redis update_node get_draft_node
  submit-eq label rid w n e = simp e refl

  -- the draft that a submission moves is no draft any more
  not_own :
      (label rid : String) (n : Node)
      → (own_draft label rid c.tenant_id c.user_id (
          if own_draft label rid c.tenant_id c.user_id n
          then apply_patch (submit_patch V c) n
          else n))
        ≡ false
  unfolding apply_patch
  not_own label rid n = ground arith

  none_owned :
      (label rid : String) (w : World V)
      → count (own_draft label rid c.tenant_id c.user_id) (
          V.graph.rows (
            V.graph.update_where
              (own_draft label rid c.tenant_id c.user_id)
              (apply_patch (submit_patch V c))
              w.graph))
        ≡ 0
  none_owned label rid w =
      L.nodes_table.count-update_where _ _ _ w.graph ∙ count_none _ _ (not_own label rid)

  abbrev staged_only : String → String → Node → Bool
  staged_only label rid n = is_version_of label rid c.tenant_id n && n.is_staging

  now_staged :
      (label rid : String) (n : Node)
      → staged_only label rid (
          if own_draft label rid c.tenant_id c.user_id n
          then apply_patch (submit_patch V c) n
          else n)
        ≡ staged_or_own label rid n
  unfolding apply_patch
  now_staged label rid n = ground arith

  then_staged :
      (label rid : String) (w : World V)
      → count (staged_only label rid) (
          V.graph.rows (
            V.graph.update_where
              (own_draft label rid c.tenant_id c.user_id)
              (apply_patch (submit_patch V c))
              w.graph))
        ≡ nodes_with V (staged_or_own label rid) w
  then_staged label rid w =
      L.nodes_table.count-update_where _ _ _ w.graph ∙ count_ext _ _ _ (now_staged label rid)

  -- A submission by a user with a draft succeeds, whether or not the user holds the lock: the user
  -- has no draft of the entity any more, the staged versions are those that were staged or drafts
  -- of the user before, and nobody holds the lock.
  pub submit_accepted :
      (label rid : String) (w : World V)
      → 0 < nodes_with V (own_draft label rid c.tenant_id c.user_id) w
      → (is_ok (submit_to_staging V c label rid w).0 ≡ true)
        × (nodes_with V
              (own_draft label rid c.tenant_id c.user_id)
              (submit_to_staging V c label rid w).1
            ≡ 0)
        × (nodes_with V
              (λ n. is_version_of label rid c.tenant_id n && n.is_staging)
              (submit_to_staging V c label rid w).1
            ≡ nodes_with V (staged_or_own label rid) w)
        × (Redis.get V.redis (lock_key rid) (submit_to_staging V c label rid w).1.redis ≡ none)
  submit_accepted label rid w some_draft =
      elim (Option-cases
        (find (own_draft label rid c.tenant_id c.user_id) (V.graph.rows w.graph))) [
          | inl e ↦
              (let z =
                  count_of_find-none (own_draft label rid c.tenant_id c.user_id)
                    (V.graph.rows w.graph) e in
                ground arith)
          | inr (n, e) ↦ rw (submit-eq label rid w n e) (
            refl,
            none_owned label rid w,
            then_staged label rid w,
            rw (R.entry-delete (lock_key rid) w.redis (lock_key rid), ==_refl (lock_key rid)) refl,
          )
        ]

  -- Where an entity is staged but not published, discarding its staged version makes drafts of the
  -- user out of all its versions, the drafts of other users among them.
  pub discard_staging_takes_all :
      (label rid : String) (w : World V) (n : Node)
      → get_active_node V.graph label rid c.tenant_id w.graph ≡ none
      → get_staging_node V.graph label rid c.tenant_id w.graph ≡ some n
      → nodes_with V (own_draft label rid c.tenant_id c.user_id) (discard_staging V c label rid w).1
        ≡ nodes_with V (is_version_of label rid c.tenant_id) w
  unfolding discard_staging unstage ◌>>=◌ on_graph update_node
  discard_staging_takes_all label rid w n e f =
      rw (e, f)
        (L.nodes_table.count-update_where _ _ _ w.graph
          ∙ count_ext _ _ _ (λ m. unfold apply_patch in ground arith))
