-- ===== src/Ontology/Validators/Contract.antt =====
-- ontology/validators/contract.py
use lingshu_round.Prelude.{
  String, ◌≡◌, refl, ◌↔◌, true, not, Option, some, List, [], ◌∷◌, ◌++◌, arith, if◌then◌else◌, ◌==◌,
  string_eq, contains, is_empty, select, starts_with,
}
use lingshu_round.Prelude.Dict.{lookup}
use lingshu_round.Prelude.Value.{Value, text}
use lingshu_round.Infra.Errors.{ontology_contract_violation}
use lingshu_round.Infra.Exec.{Result, ok, err}
use lingshu_round.Ontology.Graph.{Node, GraphDb, incoming}
use lingshu_round.Ontology.Repository.{get_related_nodes}

-- `_detect_entity_label`. The nodes of `get_related_nodes` carry no `_label`, so it goes by the rid.
unfoldable pub detect_entity_label : Node → String
detect_entity_label n =
    if starts_with n.rid "ri.obj."
    then "ObjectType"
    else if starts_with n.rid "ri.link."
    then "LinkType"
    else "ObjectType"

abbrev text_of : Option Value → List String
text_of (some (text s)) = if s == "" then [] else s ∷ []
text_of _ = []

-- the loop that collects `covered_shared_rids`
unfoldable pub covered_shared_rids : List Node → List String
covered_shared_rids [] = []
covered_shared_rids (n ∷ ns) =
    text_of (lookup "inherit_from_shared_property_type_rid" n.properties) ++ covered_shared_rids ns

abbrev pub Violation : Type 0
Violation = String × List String

module _ (G : GraphDb) where
  -- what an implementor lacks
  unfoldable pub missing_rids : String → List String → Node → G.State → List String
  unfolding detect_entity_label covered_shared_rids
  missing_rids tenant required implementor s =
      let prop_nodes =
        get_related_nodes G (detect_entity_label implementor) implementor.rid tenant "BELONGS_TO"
          incoming s in
      let covered = covered_shared_rids prop_nodes in
      select (λ rid. not (contains covered rid)) required

  -- the loop over the implementors
  unfoldable pub violations : String → List String → List Node → G.State → List Violation
  violations tenant required [] s = []
  violations tenant required (n ∷ ns) s =
      let rest = violations tenant required ns s in
      let missing = missing_rids tenant required n s in
      if is_empty missing then rest else (n.rid, missing) ∷ rest

  unfoldable pub check_contract_satisfaction :
      String → String → List String → G.State → Result (List Violation)
  unfolding violations missing_rids
  check_contract_satisfaction interface_rid tenant required s =
      if is_empty required
      then ok []
      else let found =
          violations tenant required
            (get_related_nodes G "InterfaceType" interface_rid tenant "IMPLEMENTS" incoming s) s in
        if is_empty found
        then ok []
        else err (record { code = ontology_contract_violation; details = found })

  -- the implementor has a property based on each required shared property
  abbrev pub Satisfies : String → List String → Node → G.State → Type 0
  Satisfies tenant required n s =
      (r : String)
      → contains required r ≡ true
      → contains
          (covered_shared_rids
            (get_related_nodes G (detect_entity_label n) n.rid tenant "BELONGS_TO" incoming s))
          r
        ≡ true

  abbrev pub AllSatisfy : String → List String → List Node → G.State → Type 0
  AllSatisfy tenant required [] s = Unit
  AllSatisfy tenant required (n ∷ ns) s =
      Satisfies tenant required n s × AllSatisfy tenant required ns s

select_missing :
    (covered required : List String)
    → (is_empty (select (λ rid. not (contains covered rid)) required) ≡ true)
      ↔ ((r : String) → contains required r ≡ true → contains covered r ≡ true)
select_missing covered [] = (λ _ r m. ground arith, λ _. refl)
select_missing covered (x ∷ xs) = (
  λ e y m. ground (
    arith,
    λ (h : is_empty (select (λ rid. not (contains covered rid)) xs) ≡ true).
        (select_missing covered xs).0 h y,
  ),
  λ h. ground (arith, h x, (select_missing covered xs).1 (λ y m. h y (ground arith))),
)

module _ (G : GraphDb) where
  violations-eq-nil :
      (tenant : String) (required : List String) (ns : List Node) (s : G.State)
      → (is_empty (violations G tenant required ns s) ≡ true) ↔ AllSatisfy G tenant required ns s
  unfolding violations missing_rids
  violations-eq-nil tenant required [] s = (λ _. tt, λ _. refl)
  violations-eq-nil tenant required (n ∷ ns) s =
      let (to, from) = violations-eq-nil tenant required ns s in
      let (fills, filled) = select_missing _ required in
      (λ e. (fills (ground arith), to (ground arith)), λ h. ground (arith, filled h.0, from h.1))

  nothing_required : (tenant : String) (ns : List Node) (s : G.State) → AllSatisfy G tenant [] ns s
  nothing_required tenant [] s = tt
  nothing_required tenant (n ∷ ns) s = (λ r m. ground arith, nothing_required tenant ns s)

  -- The check passes exactly when each implementor has a property based on each shared property
  -- that the interface requires.
  pub check_contract_satisfaction_iff :
      (interface_rid tenant : String) (required : List String) (s : G.State)
      → (check_contract_satisfaction G interface_rid tenant required s ≡ ok [])
        ↔ AllSatisfy G tenant required
            (get_related_nodes G "InterfaceType" interface_rid tenant "IMPLEMENTS" incoming s)
            s
  unfolding check_contract_satisfaction
  check_contract_satisfaction_iff interface_rid tenant [] s =
      (λ _. nothing_required tenant _ s, λ _. refl)
  check_contract_satisfaction_iff interface_rid tenant (r ∷ rs) s =
      let (to, from) =
        violations-eq-nil tenant (r ∷ rs)
          (get_related_nodes G "InterfaceType" interface_rid tenant "IMPLEMENTS" incoming s) s in
      (λ e. to (ground arith), λ h. ground (arith, from h))
