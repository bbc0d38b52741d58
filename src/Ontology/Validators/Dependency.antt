-- ===== src/Ontology/Validators/Dependency.antt =====
-- ontology/validators/dependency.py
use lingshu_round.Prelude.{
  String, ◌≡◌, refl, ◌↔◌, List, [], ◌∷◌, ◌++◌, arith, if◌then◌else◌, ◌==◌, string_eq, is_empty,
  take,
}
use lingshu_round.Infra.Errors.{ontology_dependency_conflict}
use lingshu_round.Infra.Exec.{Result, ok, err}
use lingshu_round.Ontology.Graph.{GraphDb}
use lingshu_round.Ontology.Repository.{get_incoming_referencing_rids}

-- `DEPENDENCY_RULES.get(label, [])`: a label and the relationship that it depends by
unfoldable pub dependency_rules : String → List (String × String)
dependency_rules label =
    if label == "SharedPropertyType"
    then ("PropertyType", "BASED_ON") ∷ ("InterfaceType", "REQUIRES") ∷ []
    else if label == "InterfaceType"
    then ("ObjectType", "IMPLEMENTS")
      ∷ ("LinkType", "IMPLEMENTS")
      ∷ ("InterfaceType", "EXTENDS")
      ∷ []
    else if label == "ObjectType"
    then ("LinkType", "CONNECTS") ∷ ("ActionType", "OPERATES_ON") ∷ []
    else if label == "LinkType"
    then ("ActionType", "OPERATES_ON") ∷ []
    else []

module _ (G : GraphDb) where
  -- the loop over the rules
  unfoldable pub referencing_rids :
      List (String × String) → String → String → String → G.State → List String
  referencing_rids [] label rid tenant s = []
  referencing_rids ((_, rel_type) ∷ rules) label rid tenant s =
      get_incoming_referencing_rids G label rid tenant rel_type s
      ++ referencing_rids rules label rid tenant s

  unfoldable pub check_delete_dependencies : String → String → String → G.State → Result {0} Unit
  unfolding dependency_rules referencing_rids
  check_delete_dependencies label rid tenant s =
      let rids = referencing_rids (dependency_rules label) label rid tenant s in
      if is_empty rids
      then ok tt
      else err (record {
        code = ontology_dependency_conflict;
        details = ("referencing_rids", take 10 rids) ∷ [];
      })

  -- no relationship of a rule leads to the entity
  abbrev pub NoReference : List (String × String) → String → String → String → G.State → Type 0
  NoReference [] label rid tenant s = Unit
  NoReference ((_, rel_type) ∷ rules) label rid tenant s =
      (get_incoming_referencing_rids G label rid tenant rel_type s ≡ [])
      × NoReference rules label rid tenant s

  append-eq-nil : (xs ys : List String) → (xs ++ ys ≡ []) ↔ ((xs ≡ []) × (ys ≡ []))
  append-eq-nil [] ys = (λ e. (refl, e), λ p. p.1)
  append-eq-nil (x ∷ xs) ys = (λ e. cc e, λ p. cc p.0)

  referencing_rids-eq-nil :
      (rules : List (String × String)) (label rid tenant : String) (s : G.State)
      → (referencing_rids rules label rid tenant s ≡ []) ↔ NoReference rules label rid tenant s
  unfolding referencing_rids
  referencing_rids-eq-nil [] label rid tenant s = (λ _. tt, λ _. refl)
  referencing_rids-eq-nil ((l, rel_type) ∷ rules) label rid tenant s =
      let (to, from) = referencing_rids-eq-nil rules label rid tenant s in
      let (apart, join) =
        append-eq-nil (get_incoming_referencing_rids G label rid tenant rel_type s)
          (referencing_rids rules label rid tenant s) in
      (λ e. ((apart e).0, to (apart e).1), λ p. join (p.0, from p.1))

  -- A deletion is let through exactly when no relationship that the rules of the label name leads
  -- to the entity.
  pub check_delete_dependencies_iff :
      (label rid tenant : String) (s : G.State)
      → (check_delete_dependencies label rid tenant s ≡ ok tt)
        ↔ NoReference (dependency_rules label) label rid tenant s
  unfolding check_delete_dependencies
  check_delete_dependencies_iff label rid tenant s =
      let (to, from) = referencing_rids-eq-nil (dependency_rules label) label rid tenant s in
      (λ e. to (ground arith), λ h. ground (arith, from h))
