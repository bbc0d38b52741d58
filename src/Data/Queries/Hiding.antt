-- ===== src/Data/Queries/Hiding.antt =====
-- What a query shows does not depend on the values of a masked field.
use lingshu_round.Prelude.{
  String, ◌≡◌, refl, ◌∙◌, ap, sym, subst, Bool, true, false, not, Option, none, some, List, [], ◌∷◌,
  map, arith, ◌==◌, string_eq, Bool-cases, inl, inr,
}
use lingshu_round.Prelude.Dict.{Dict, lookup, erase, has_key, lookup-erase}
use lingshu_round.Prelude.Value.{Value, is_null}
use lingshu_round.Data.Merge.{Row}
use lingshu_round.Data.Masking.{build_masking_rules, mask_row, apply_masking}
use lingshu_round.Data.Masking.Laws.{
  is_full, masked_cell, lookup-mask_row, mask_value_full, build_masking_rules-is_dict,
}
use lingshu_round.Data.Virtual.{Language, enrich}
use lingshu_round.Data.Virtual.Reads.{
  Agree, none_reads, enrich-Agree, lookup-enrich, apply_virtual_fields_lem,
}
use lingshu_round.Data.Schema.{SchemaInfo}
use lingshu_round.Data.Queries.{presented}

-- a cell that is there and not null
abbrev pub is_given : Option Value → Bool
is_given none = false
is_given (some v) = not (is_null v)

abbrev pub SameCells : Row → Row → Type 0
SameCells row row' = (k : String) → lookup k row ≡ lookup k row'

-- the same cells in row after row
abbrev pub SameRows : List Row → List Row → Type 0
SameRows [] [] = Unit
SameRows [] (row' ∷ rows') = ⊥
SameRows (row ∷ rows) [] = ⊥
SameRows (row ∷ rows) (row' ∷ rows') = SameCells row row' × SameRows rows rows'

-- the same cells but for the field, which both rows have
abbrev AlikeBut : String → Row → Row → Type 0
AlikeBut field row row' =
    SameCells (erase field row) (erase field row')
    × (is_given (lookup field row) ≡ true)
    × (is_given (lookup field row') ≡ true)

-- the same rows but for the values of the field
abbrev pub DifferAt : String → List Row → List Row → Type 0
DifferAt field [] [] = Unit
DifferAt field [] (row' ∷ rows') = ⊥
DifferAt field (row ∷ rows) [] = ⊥
DifferAt field (row ∷ rows) (row' ∷ rows') = AlikeBut field row row' × DifferAt field rows rows'

Agree-of :
    (P : Language) (field : String) (row row' : Row)
    → SameCells (erase field row) (erase field row')
    → Agree P field row row'
Agree-of P field row row' same k other =
    ground (arith, same k, lookup-erase k field row, lookup-erase k field row')

masked_alike :
    (str : Value → String) (strategy : String) (o o' : Option Value)
    → is_full strategy ≡ true
    → is_given o ≡ true
    → is_given o' ≡ true
    → masked_cell str (some strategy) o ≡ masked_cell str (some strategy) o'
masked_alike str strategy none o' full given given' = ground arith
masked_alike str strategy (some v) none full given given' = ground arith
masked_alike str strategy (some v) (some v') full given given' =
    ap some (mask_value_full str v v' strategy full (ground arith) (ground arith))

apply_masking_lem :
    (str : Value → String) (rows : List Row) (rules : Dict String String)
    → apply_masking str rows rules ≡ map (mask_row str rules) rows
unfolding apply_masking mask_row
apply_masking_lem str [] [] = refl
apply_masking_lem str (row ∷ rows) [] = ap (λ r. row ∷ r) (apply_masking_lem str rows [])
apply_masking_lem str rows (r ∷ rules) = refl

module _ (P : Language) (schema : SchemaInfo) (field strategy : String)
    (rule : lookup field (build_masking_rules schema.property_types) ≡ some strategy)
    (full : is_full strategy ≡ true) (physical : has_key field schema.virtual_fields ≡ false)
    (unread : none_reads P field schema.virtual_fields ≡ true) where
  abbrev shown : Row → Row
  shown row =
      mask_row P.str (build_masking_rules schema.property_types)
        (enrich P schema.virtual_fields row)

  presented_lem : (rows : List Row) → presented P schema rows ≡ map shown rows
  unfolding presented
  presented_lem rows =
      apply_masking_lem P.str _ _
      ∙ ap (map (mask_row P.str (build_masking_rules schema.property_types)))
          (apply_virtual_fields_lem P rows schema.virtual_fields)
      ∙ map_map rows
    where
      map_map :
          (rows : List Row)
          → map
              (mask_row P.str (build_masking_rules schema.property_types))
              (map (enrich P schema.virtual_fields) rows)
            ≡ map shown rows
      map_map [] = refl
      map_map (row ∷ rows) = ap (λ r. shown row ∷ r) (map_map rows)

  at_field :
      (row row' : Row)
      → AlikeBut field row row'
      → (k : String) → field ≡ k
      → masked_cell P.str
          (lookup k (build_masking_rules schema.property_types))
          (lookup k (enrich P schema.virtual_fields row))
        ≡ masked_cell P.str
            (lookup k (build_masking_rules schema.property_types))
            (lookup k (enrich P schema.virtual_fields row'))
  at_field row row' alike k same =
      subst
        (λ j.
          masked_cell P.str (lookup j (build_masking_rules schema.property_types))
            (lookup j (enrich P schema.virtual_fields row))
          ≡ masked_cell P.str (lookup j (build_masking_rules schema.property_types))
              (lookup j (enrich P schema.virtual_fields row')))
        same
        (rw
          (
            rule,
            lookup-enrich P field schema.virtual_fields row physical,
            lookup-enrich P field schema.virtual_fields row' physical,
          )
          (masked_alike P.str strategy (lookup field row) (lookup field row') full alike.1 alike.2))

  shown-SameCells : (row row' : Row) → AlikeBut field row row' → SameCells (shown row) (shown row')
  shown-SameCells row row' alike k =
      let rules = build_masking_rules schema.property_types in
      let dict = build_masking_rules-is_dict schema.property_types in
      lookup-mask_row P.str k rules (enrich P schema.virtual_fields row) dict
      ∙ elim (Bool-cases (k == field)) [
        | inl same ↦ at_field row row' alike k (ground arith)
        | inr other ↦ ap (masked_cell P.str (lookup k rules)) (
            enrich-Agree P field schema.virtual_fields row row' unread
              (Agree-of P field row row' alike.0) k other)
      ]
      ∙ sym (lookup-mask_row P.str k rules (enrich P schema.virtual_fields row') dict)

  shown-SameRows :
      (rows rows' : List Row)
      → DifferAt field rows rows'
      → SameRows (map shown rows) (map shown rows')
  shown-SameRows [] [] d = tt
  shown-SameRows [] (row' ∷ rows') d = d
  shown-SameRows (row ∷ rows) [] d = d
  shown-SameRows (row ∷ rows) (row' ∷ rows') d =
      (shown-SameCells row row' d.0, shown-SameRows rows rows' d.1)

  -- The rows that a query shows do not depend on the values of a field that is masked in full: rows
  -- that differ in that field alone are shown alike, where the field is not virtual itself, no
  -- virtual expression names it, and each row has a value for it.
  pub presented_hides :
      (rows rows' : List Row)
      → DifferAt field rows rows'
      → SameRows (presented P schema rows) (presented P schema rows')
  presented_hides rows rows' d =
      rw (presented_lem rows, presented_lem rows') (shown-SameRows rows rows' d)
