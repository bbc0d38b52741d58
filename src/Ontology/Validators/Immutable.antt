-- ===== src/Ontology/Validators/Immutable.antt =====
-- ontology/validators/immutable.py
use lingshu_round.Prelude.{
  String, ◌≡◌, refl, ◌↔◌, Bool, true, false, ◌||◌, List, [], ◌∷◌, arith, if◌then◌else◌, ◌==◌,
  string_eq, contains, select, is_empty,
}
use lingshu_round.Prelude.Sort.{sorted}
use lingshu_round.Infra.Errors.{ontology_immutable_field}
use lingshu_round.Infra.Exec.{Result, ok, err}

abbrev pub immutable_fields : List String
immutable_fields = "rid" ∷ "api_name" ∷ "tenant_id" ∷ "created_at" ∷ []

-- `ENTITY_IMMUTABLE_FIELDS.get(label, frozenset())`
unfoldable pub entity_immutable_fields : String → List String
entity_immutable_fields label =
    if label == "LinkType"
    then "source_object_type_rid" ∷ "target_object_type_rid" ∷ []
    else if label == "InterfaceType"
    then "category" ∷ []
    else if label == "SharedPropertyType"
    then "data_type" ∷ []
    else []

-- `f in all_immutable`
abbrev pub is_immutable : String → String → Bool
is_immutable label f = contains immutable_fields f || contains (entity_immutable_fields label) f

-- `updates` by its keys, which are all that the check reads
unfoldable pub check_immutable_fields : String → List String → Result {0} Unit
unfolding entity_immutable_fields sorted
check_immutable_fields label updates =
    let violated = select (is_immutable label) updates in
    if is_empty violated
    then ok tt
    else err (record {
      code = ontology_immutable_field;
      details = ("fields", sorted violated) ∷ ("entity_type", label ∷ []) ∷ [];
    })

select-eq-nil :
    (p : String → Bool) (xs : List String)
    → (is_empty (select p xs) ≡ true) ↔ ((x : String) → contains xs x ≡ true → p x ≡ false)
select-eq-nil p [] = (λ _ x m. ground arith, λ _. refl)
select-eq-nil p (x ∷ xs) = (
  λ e y m. ground (
    arith,
    (select-eq-nil p xs).0,
    λ (h : is_empty (select p xs) ≡ true). (select-eq-nil p xs).0 h y,
  ),
  λ h. ground (arith, h x, (select-eq-nil p xs).1 (λ y m. h y (ground arith))),
)

-- An update passes exactly when none of its fields is immutable for its kind of entity.
pub check_immutable_fields_iff :
    (label : String) (updates : List String)
    → (check_immutable_fields label updates ≡ ok tt)
      ↔ ((f : String) → contains updates f ≡ true → is_immutable label f ≡ false)
unfolding check_immutable_fields
check_immutable_fields_iff label updates =
    let (to, from) = select-eq-nil (is_immutable label) updates in
    (λ e. to (ground arith), λ h. ground (arith, from h))
