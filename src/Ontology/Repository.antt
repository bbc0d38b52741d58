-- ===== src/Ontology/Repository.antt =====
-- ontology/repository/graph_repo.py: each method as a function of the database state. A statement
-- of several clauses is one function; `single()` is the first row.
pub mod Promotion
pub mod Resume
use lingshu_round.Prelude.{
  ℕ, ◌+◌, ◌<◌, String, Bool, true, false, not, ◌&&◌, ◌||◌, Option, none, some, List, map, ltb, find,
  select, if◌then◌else◌, is_empty, ◌==◌, string_eq, option_eq, contains,
}
use lingshu_round.Prelude.Count.{count}
use lingshu_round.Prelude.Dict.{Dict, update}
use lingshu_round.Prelude.Value.{Value}
use lingshu_round.Ontology.Graph.{
  Node, Direction, outgoing, incoming, both, GraphDb, is_published, is_version_of,
}

-- The properties of a `SET n += $props`: those that are `none` are left as they are.
pub record Patch : Type 0 where
  pub is_draft : Option Bool
  pub is_staging : Option Bool
  pub draft_owner : Option (Option String)
  pub updated_at : Option ℕ
  pub properties : Dict String Value

abbrev or_old {ℓ} : {A : Type ℓ} → Option A → A → A
or_old none old = old
or_old (some new) old = new

unfoldable pub apply_patch : Patch → Node → Node
unfolding update
apply_patch p n = record n {
  is_draft = or_old p.is_draft n.is_draft;
  is_staging = or_old p.is_staging n.is_staging;
  draft_owner = or_old p.draft_owner n.draft_owner;
  updated_at = or_old p.updated_at n.updated_at;
  properties = update n.properties p.properties;
}

-- the row that a statement with `SET n += $props RETURN n` gives
abbrev pub patched : Patch → Option Node → Option Node
patched p none = none
patched p (some n) = some (apply_patch p n)

-- a condition that the statement has only if the argument is given
abbrev pub when_given {ℓ} : {A : Type ℓ} → Option A → (A → Bool) → Bool
when_given none test = true
when_given (some a) test = test a

abbrev pub same_flag : Bool → Bool → Bool
same_flag true b = b
same_flag false b = not b

-- `draft_owner: $user_id` matches a node that has this owner
abbrev pub owned_by : String → Node → Bool
owned_by user n = n.draft_owner == some user

-- `if node: return node`: a node has a rid, so it is true as a dict
abbrev pub or_try {ℓ} : {A : Type ℓ} → Option A → Option A → Option A
or_try none o = o
or_try (some a) o = some a

module _ (G : GraphDb) where
  unfoldable pub create_node : Node → G.State → Node × G.State
  create_node n s = (n, G.insert n s)

  unfoldable pub get_node : String → String → String → G.State → Option Node
  get_node label rid tenant s = find (is_version_of label rid tenant) (G.rows s)

  unfoldable pub get_active_node : String → String → String → G.State → Option Node
  get_active_node label rid tenant s =
      find (λ n. is_version_of label rid tenant n && is_published n) (G.rows s)

  unfoldable pub get_draft_node : String → String → String → String → G.State → Option Node
  get_draft_node label rid tenant user s =
      find (λ n. is_version_of label rid tenant n && (n.is_draft && owned_by user n)) (G.rows s)

  unfoldable pub get_staging_node : String → String → String → G.State → Option Node
  get_staging_node label rid tenant s =
      find (λ n. is_version_of label rid tenant n && n.is_staging) (G.rows s)

  unfoldable pub get_effective_node : String → String → String → String → G.State → Option Node
  unfolding get_draft_node get_staging_node get_active_node
  get_effective_node label rid tenant user s =
      or_try (get_draft_node label rid tenant user s)
        (or_try (get_staging_node label rid tenant s) (get_active_node label rid tenant s))

  unfoldable pub update_node :
      String
      → String
      → String
      → Patch
      → Option Bool
      → Option String
      → G.State
      → Option Node × G.State
  unfolding apply_patch
  update_node label rid tenant patch is_draft draft_owner s =
      let test = λ (n : Node).
        is_version_of label rid tenant n
        && (when_given is_draft (λ b. same_flag b n.is_draft)
            && when_given draft_owner (λ user. owned_by user n)) in
      (patched patch (find test (G.rows s)), G.update_where test (apply_patch patch) s)

  unfoldable pub delete_node :
      String
      → String
      → String
      → Option Bool
      → Option Bool
      → Option String
      → G.State
      → Bool × G.State
  delete_node label rid tenant is_draft is_staging draft_owner s =
      let test = λ (n : Node).
        is_version_of label rid tenant n
        && (when_given is_draft (λ b. same_flag b n.is_draft)
            && (when_given is_staging (λ b. same_flag b n.is_staging)
                && when_given draft_owner (λ user. owned_by user n))) in
      (ltb 0 (count test (G.rows s)), G.delete_where test s)

  -- ── Relationships and dependency checks

  unfoldable pub create_relationship :
      String → String → String → String → String → String → G.State → Bool × G.State
  create_relationship from_label from_rid to_label to_rid rel_type tenant s =
      let a = is_version_of from_label from_rid tenant in
      let b = is_version_of to_label to_rid tenant in
      (ltb 0 (count a (G.rows s)) && ltb 0 (count b (G.rows s)), G.relate a rel_type b s)

  unfoldable pub get_related_nodes :
      String → String → String → String → Direction → G.State → List Node
  get_related_nodes label rid tenant rel_type direction s =
      G.related (is_version_of label rid tenant) rel_type direction s

  unfoldable pub get_incoming_referencing_rids :
      String → String → String → String → G.State → List String
  get_incoming_referencing_rids label rid tenant rel_type s =
      map (λ (m : Node). m.rid) (G.related (is_version_of label rid tenant) rel_type incoming s)

  -- ── Staging and drafts

  unfoldable pub get_staging_nodes : String → G.State → List Node
  get_staging_nodes tenant s = select (λ n. n.tenant_id == tenant && n.is_staging) (G.rows s)

  abbrev pub is_staged : String → Node → Bool
  is_staged tenant n = n.tenant_id == tenant && n.is_staging

  -- `collect(staging.rid)`
  unfoldable pub staging_rids : String → G.State → List String
  staging_rids tenant s = map (λ (n : Node). n.rid) (select (is_staged tenant) (G.rows s))

  -- `deactivate_query`: the published nodes whose rid is among those of the staging nodes
  abbrev pub deactivate_staged : String → List String → G.State → G.State
  deactivate_staged tenant rids =
      G.update_where (λ n. n.tenant_id == tenant && (is_published n && contains rids n.rid))
        (λ n. record n { is_active = false })

  -- `promote_query`
  abbrev pub promote_staged : String → String → G.State → G.State
  promote_staged tenant snapshot =
      G.update_where (is_staged tenant)
        (λ n. record n { is_staging = false; snapshot_id = some snapshot })

  -- `cleanup_query`: what was promoted as a deletion marker goes
  abbrev pub cleanup_deleted : String → String → G.State → G.State
  cleanup_deleted tenant snapshot =
      G.delete_where
        (λ n. n.tenant_id == tenant && (n.snapshot_id == some snapshot && not n.is_active))

  unfoldable pub promote_staging_to_active : String → String → G.State → ℕ × G.State
  promote_staging_to_active tenant snapshot s =
      let s1 = deactivate_staged tenant (staging_rids tenant s) s in
      (
        count (is_staged tenant) (G.rows s1),
        cleanup_deleted tenant snapshot (promote_staged tenant snapshot s1),
      )

  unfoldable pub rollback_to_snapshot : String → String → String → G.State → ℕ × G.State
  rollback_to_snapshot tenant target current s =
      let s1 =
        G.update_where
          (λ n. n.tenant_id == tenant && (n.snapshot_id == some current && n.is_active))
          (λ n. record n { is_active = false }) s in
      let test = λ (n : Node). n.tenant_id == tenant && n.snapshot_id == some target in
      (count test (G.rows s1), G.update_where test (λ n. record n { is_active = true }) s1)

  unfoldable pub check_api_name_unique : String → String → String → Option String → G.State → Bool
  check_api_name_unique label api_name tenant exclude_rid s =
      let taken = λ (n : Node).
        n.label == label
        && (n.tenant_id == tenant
            && (n.api_name == api_name
                && (is_published n && when_given exclude_rid (λ rid. not (n.rid == rid))))) in
      if ltb 0 (count taken (G.rows s)) then false else true

  unfoldable pub has_uncommitted_changes : String → G.State → Bool
  has_uncommitted_changes tenant s =
      ltb 0 (count (λ n. n.tenant_id == tenant && (n.is_draft || n.is_staging)) (G.rows s))
