-- ===== src/Ontology/Repository/Resume.antt =====
-- What a promotion does that is started again: a retry after a failure runs the three statements
-- from the first one, whichever of them were through before.
use lingshu_round.Prelude.{
  String, ◌≡◌, refl, sym, ap, ◌∙◌, Bool, true, false, not, ◌&&◌, some, List, [], ◌∷◌, if◌then◌else◌,
  ◌==◌, string_eq, option_eq, contains, ltb, map, select, arith,
}
use lingshu_round.Prelude.Count.{count, count_ext, count_none}
use lingshu_round.Ontology.Graph.{Node, GraphDb, IsLawful, is_published}
use lingshu_round.Ontology.Repository.{
  is_staged, staging_rids, deactivate_staged, promote_staged, promote_staging_to_active,
}
use lingshu_round.Ontology.Repository.Promotion.{count-promote}

-- whether a rid is among those of the selected rows, by their number
contains-select :
    (q : Node → Bool) (k : String) (ns : List Node)
    → contains (map (λ (n : Node). n.rid) (select q ns)) k
      ≡ ltb 0 (count (λ n. q n && n.rid == k) ns)
unfolding count
contains-select q k [] = ground arith
contains-select q k (n ∷ ns) = ground (arith, contains-select q k ns)

twice : (b c : Bool) → (b && (b && c)) ≡ (b && c)
twice true c = refl
twice false c = refl

module _ (G : GraphDb) (L : IsLawful G) where
  contains-staging_rids :
      (tenant k : String) (s : G.State)
      → contains (staging_rids G tenant s) k
        ≡ ltb 0 (count (λ n. is_staged G tenant n && n.rid == k) (G.rows s))
  unfolding staging_rids
  contains-staging_rids tenant k s = contains-select (is_staged G tenant) k (G.rows s)

  -- The first statement leaves what is staged as it is.
  rids-deactivate :
      (tenant k : String) (rids : List String) (s : G.State)
      → contains (staging_rids G tenant (deactivate_staged G tenant rids s)) k
        ≡ contains (staging_rids G tenant s) k
  rids-deactivate tenant k rids s =
      contains-staging_rids tenant k _
      ∙ (ap (ltb 0) (L.nodes_table.count-update_where _ _ _ s ∙ count_ext _ _ _ (λ n. ground arith))
          ∙ sym (contains-staging_rids tenant k s))

  -- After the second one nothing is staged.
  rids-promote :
      (tenant snapshot k : String) (s : G.State)
      → contains (staging_rids G tenant (promote_staged G tenant snapshot s)) k ≡ false
  rids-promote tenant snapshot k s =
      contains-staging_rids tenant k _
      ∙ ap (ltb 0) (L.nodes_table.count-update_where _ _ _ s ∙ count_none _ _ (λ n. ground arith))

  rids-again :
      (tenant snapshot k : String) (s : G.State)
      → contains (staging_rids G tenant (promote_staging_to_active G tenant snapshot s).1) k ≡ false
  rids-again tenant snapshot k s =
      contains-staging_rids tenant k _
      ∙ ap (ltb 0) (count-promote G L _ tenant snapshot s ∙ count_none _ _ (λ n. ground arith))

  -- what the statements make of one node, given the rids that are staged
  abbrev promoted : String → String → Node → Node
  promoted tenant snapshot n =
      if is_staged G tenant n
      then record n { is_staging = false; snapshot_id = some snapshot }
      else n

  abbrev deactivated : String → List String → Node → Node
  deactivated tenant rids n =
      if n.tenant_id == tenant && (is_published n && contains rids n.rid)
      then record n { is_active = false }
      else n

  abbrev cleaned : String → String → Node → Bool
  cleaned tenant snapshot n =
      not (n.tenant_id == tenant && (n.snapshot_id == some snapshot && not n.is_active))

  not_staged :
      (tenant snapshot : String) (n : Node)
      → is_staged G tenant (promoted tenant snapshot n) ≡ false
  not_staged tenant snapshot n = ground arith

  same_deactivated :
      (tenant : String) (rids : List String) (m : Node)
      → contains rids m.rid ≡ false
      → deactivated tenant rids m ≡ m
  same_deactivated tenant rids m there = ground arith

  same_promoted :
      (tenant snapshot : String) (m : Node)
      → is_staged G tenant m ≡ false
      → promoted tenant snapshot m ≡ m
  same_promoted tenant snapshot m staged = ground arith

  -- Where nothing is staged, the first two statements leave a node as it is.
  nothing_to_promote :
      (tenant snapshot : String) (rids : List String) (p : Node → Bool) (m : Node)
      → is_staged G tenant m ≡ false
      → contains rids m.rid ≡ false
      → (cleaned tenant snapshot (promoted tenant snapshot (deactivated tenant rids m))
          && p (promoted tenant snapshot (deactivated tenant rids m)))
        ≡ (cleaned tenant snapshot m && p m)
  nothing_to_promote tenant snapshot rids p m staged there =
      ap (λ x. cleaned tenant snapshot x && p x)
        (ap (promoted tenant snapshot) (same_deactivated tenant rids m there)
          ∙ same_promoted tenant snapshot m staged)

  -- A promotion that failed after its first statement, and is started again, leaves as many nodes
  -- for every test as one that did not fail.
  pub resume_after_deactivate :
      (tenant snapshot : String) (p : Node → Bool) (s : G.State)
      → count p (
          G.rows
            (promote_staging_to_active G tenant snapshot
              (deactivate_staged G tenant (staging_rids G tenant s) s)).1)
        ≡ count p (G.rows (promote_staging_to_active G tenant snapshot s).1)
  resume_after_deactivate tenant snapshot p s =
      count-promote G L p tenant snapshot _
      ∙ (L.nodes_table.count-update_where _ _ _ s
          ∙ (count_ext _ _ _
                (λ n. ground (arith, rids-deactivate tenant n.rid (staging_rids G tenant s) s))
              ∙ sym (count-promote G L p tenant snapshot s)))

  -- A promotion that failed after its second statement, and is started again, leaves as many nodes
  -- for every test as one that did not fail.
  pub resume_after_promote :
      (tenant snapshot : String) (p : Node → Bool) (s : G.State)
      → count p (
          G.rows
            (promote_staging_to_active G tenant snapshot (
              promote_staged G tenant snapshot
                (deactivate_staged G tenant (staging_rids G tenant s) s))).1)
        ≡ count p (G.rows (promote_staging_to_active G tenant snapshot s).1)
  resume_after_promote tenant snapshot p s =
      let s1 = deactivate_staged G tenant (staging_rids G tenant s) s in
      count-promote G L p tenant snapshot _
      ∙ (L.nodes_table.count-update_where _ _ _ s1
          ∙ (L.nodes_table.count-update_where _ _ _ s
              ∙ (count_ext _ _ _ (λ n.
                    let m =
                      promoted tenant snapshot (deactivated tenant (staging_rids G tenant s) n) in
                    nothing_to_promote tenant snapshot _ p m
                      (not_staged tenant snapshot (deactivated tenant (staging_rids G tenant s) n))
                      (rids-promote tenant snapshot m.rid s1))
                  ∙ sym (count-promote G L p tenant snapshot s))))

  -- A promotion that is run again after it was through changes no number of nodes.
  pub promote_again :
      (tenant snapshot : String) (p : Node → Bool) (s : G.State)
      → count p (
          G.rows
            (promote_staging_to_active G tenant snapshot
              (promote_staging_to_active G tenant snapshot s).1).1)
        ≡ count p (G.rows (promote_staging_to_active G tenant snapshot s).1)
  promote_again tenant snapshot p s =
      let t = (promote_staging_to_active G tenant snapshot s).1 in
      count-promote G L p tenant snapshot t
      ∙ (count-promote G L _ tenant snapshot s
          ∙ (count_ext _ _ _ (λ n.
                let m = promoted tenant snapshot (deactivated tenant (staging_rids G tenant s) n) in
                ap (λ b. cleaned tenant snapshot m && b)
                  (nothing_to_promote tenant snapshot _ p m
                    (not_staged tenant snapshot (deactivated tenant (staging_rids G tenant s) n))
                    (rids-again tenant snapshot m.rid s))
                ∙ twice (cleaned tenant snapshot m) (p m))
              ∙ sym (count-promote G L p tenant snapshot s)))
