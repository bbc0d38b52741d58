-- ===== src/Ontology/Repository/Promotion.antt =====
-- What publishing and rolling back do to the versions in the graph.
use lingshu_round.Prelude.{
  String, ◌≡◌, ◌∙◌, Bool, false, not, ◌&&◌, ◌||◌, some, arith, if◌then◌else◌, ◌==◌, string_eq,
  option_eq, contains, Bool-cases, inl, inr,
}
use lingshu_round.Prelude.Count.{
  count, count_ext, count_ext_except, count_of_not_contains, count_none,
}
use lingshu_round.Infra.Table
use lingshu_round.Ontology.Graph.{Node, GraphDb, IsLawful, is_published}
use lingshu_round.Ontology.Repository.{
  is_staged, staging_rids, promote_staging_to_active, rollback_to_snapshot,
}

module _ (G : GraphDb) (L : IsLawful G) where
  abbrev pub table_laws : Table.IsLawful G.table
  table_laws = L.nodes_table

  -- a count after the three statements of a promotion, by the rows before them
  pub count-promote :
      (p : Node → Bool) (tenant snapshot : String) (s : G.State)
      → let rids = staging_rids G tenant s in
        let deactivated = λ (n : Node).
          if n.tenant_id == tenant && (is_published n && contains rids n.rid)
          then record n { is_active = false }
          else n in
        let promoted = λ (n : Node).
          if is_staged G tenant n
          then record n { is_staging = false; snapshot_id = some snapshot }
          else n in
        let cleaned = λ (n : Node).
          not (n.tenant_id == tenant && (n.snapshot_id == some snapshot && not n.is_active)) in
        count p (G.rows (promote_staging_to_active G tenant snapshot s).1)
        ≡ count (λ n. cleaned (promoted (deactivated n)) && p (promoted (deactivated n))) (G.rows s)
  unfolding promote_staging_to_active
  count-promote p tenant snapshot s =
      table_laws.count-delete_where p _ _
      ∙ (table_laws.count-update_where _ _ _ _ ∙ table_laws.count-update_where _ _ _ _)

  -- After a promotion the tenant has no staging version left.
  pub no_staging_after_promote :
      (tenant snapshot : String) (s : G.State)
      → count (is_staged G tenant) (G.rows (promote_staging_to_active G tenant snapshot s).1) ≡ 0
  no_staging_after_promote tenant snapshot s =
      count-promote (is_staged G tenant) tenant snapshot s ∙ count_none _ _ (λ n. ground arith)

  -- the published version of an entity
  abbrev pub published_of : String → String → Node → Bool
  published_of tenant r n = n.tenant_id == tenant && (n.rid == r && is_published n)

  -- the staged version of an entity that is no deletion marker
  abbrev pub staged_of : String → String → Node → Bool
  staged_of tenant r n =
      n.tenant_id == tenant && (n.rid == r && (n.is_staging && (n.is_active && not n.is_draft)))

  -- After a promotion an entity that was staged is published by its staged versions alone, none
  -- for a deletion marker. An entity that was not staged keeps its published versions.
  pub published-promote :
      (tenant snapshot r : String) (s : G.State)
      → count (published_of tenant r) (G.rows (promote_staging_to_active G tenant snapshot s).1) ≡ (
          if contains (staging_rids G tenant s) r
          then count (staged_of tenant r) (G.rows s)
          else count (published_of tenant r) (G.rows s))
  published-promote tenant snapshot r s = elim (Bool-cases (contains (staging_rids G tenant s) r)) [
    | inl staged ↦ rw staged (
        count-promote (published_of tenant r) tenant snapshot s
        ∙ count_ext _ _ _ (λ n. ground arith))
    | inr kept ↦ rw kept (
        count-promote (published_of tenant r) tenant snapshot s
        ∙ count_ext_except _ _ (λ n. is_staged G tenant n && n.rid == r) _
            (count_of_not_contains (λ (n : Node). n.rid) (is_staged G tenant) r (G.rows s)
              (unfold staging_rids in kept))
            (λ n other. ground arith))
  ]

  -- A promotion changes nothing of another tenant.
  pub promote_other_tenant :
      (tenant snapshot : String) (p : Node → Bool) (s : G.State)
      → count
          (λ n. not (n.tenant_id == tenant) && p n)
          (G.rows (promote_staging_to_active G tenant snapshot s).1)
        ≡ count (λ n. not (n.tenant_id == tenant) && p n) (G.rows s)
  promote_other_tenant tenant snapshot p s =
      count-promote _ tenant snapshot s ∙ count_ext _ _ _ (λ n. ground arith)

  -- the versions that a rollback leaves published
  abbrev pub restored_of : String → String → String → String → Node → Bool
  restored_of tenant r target current n =
      n.tenant_id == tenant
      && (n.rid == r
          && (not n.is_draft
              && (not n.is_staging
                  && (n.snapshot_id == some target
                      || n.is_active && not (n.snapshot_id == some current)))))

  -- After a rollback the published versions of an entity are those of the target snapshot and
  -- those that were published by a snapshot other than the current one.
  pub published-rollback :
      (tenant target current r : String) (s : G.State)
      → count (published_of tenant r) (G.rows (rollback_to_snapshot G tenant target current s).1)
        ≡ count (restored_of tenant r target current) (G.rows s)
  unfolding rollback_to_snapshot
  published-rollback tenant target current r s =
      table_laws.count-update_where _ _ _ _
      ∙ (table_laws.count-update_where _ _ _ _ ∙ count_ext _ _ _ (λ n. ground arith))

  -- A rollback changes nothing of another tenant.
  pub rollback_other_tenant :
      (tenant target current : String) (p : Node → Bool) (s : G.State)
      → count
          (λ n. not (n.tenant_id == tenant) && p n)
          (G.rows (rollback_to_snapshot G tenant target current s).1)
        ≡ count (λ n. not (n.tenant_id == tenant) && p n) (G.rows s)
  unfolding rollback_to_snapshot
  rollback_other_tenant tenant target current p s =
      table_laws.count-update_where _ _ _ _
      ∙ (table_laws.count-update_where _ _ _ _ ∙ count_ext _ _ _ (λ n. ground arith))
