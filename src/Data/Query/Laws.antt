-- ===== src/Data/Query/Laws.antt =====
-- Which queries are refused for a masked field.
use lingshu_round.Prelude.{
  ℕ, String, ◌≡◌, refl, ◌∙◌, ap, true, false, ◌||◌, Option, List, [], ◌∷◌, any, arith,
  if◌then◌else◌, ◌==◌, string_eq, contains, is_some, Bool-cases, Option-cases, inl, inr, ◌⊎◌,
}
use lingshu_round.Prelude.Dict.{Dict, has_key, lookup-insert, lookup-nil}
use lingshu_round.Infra.Errors.{app_error, data_masked_field_not_sortable}
use lingshu_round.Infra.Exec.{Result, ok, err, is_ok, ◌>>=ʳ◌}
use lingshu_round.Data.Masking.{PropertyType, is_masked, add_rule, add_rules, build_masking_rules}
use lingshu_round.Data.Schema.{
  SchemaInfo, AssetMapping, nonempty, add_member, add_column, add_masked, add_properties, schema_of,
}
use lingshu_round.Data.Query.{
  Filter, SortSpec, Connector, translate_filters, translate_sort, build_column_map, query_instances,
}

contains-add_member :
    (field name : String) (names : List String)
    → contains (add_member name names) field ≡ (field == name || contains names field)
contains-add_member field name names = elim (Bool-cases (contains names name)) [
  | inl old ↦ rw old (ground arith)
  | inr new ↦ rw new refl
]

masked_fields-add_column :
    (pt : PropertyType) (s : SchemaInfo) → (add_column pt s).masked_fields ≡ s.masked_fields
masked_fields-add_column pt s = ground arith

masked_fields-add_masked :
    (pt : PropertyType) (s : SchemaInfo)
    → (add_masked pt s).masked_fields ≡ (
        if is_masked pt.compliance then add_member pt.api_name s.masked_fields else s.masked_fields)
masked_fields-add_masked pt s = elim (Bool-cases (is_masked pt.compliance)) [
  | inl e ↦ rw e refl
  | inr e ↦ elim (Bool-cases (is_some (nonempty pt.physical_column))) [
    | inl e' ↦ rw (e, e') refl
    | inr e' ↦ rw (e, e') refl
  ]
]

masked_step :
    (pt : PropertyType) (s : SchemaInfo) (rules : Dict String String) (field : String)
    → contains s.masked_fields field ≡ has_key field rules
    → contains (add_masked pt (add_column pt s)).masked_fields field
      ≡ has_key field (add_rule pt rules)
masked_step pt s rules field h =
    ap (λ names. contains names field)
      (masked_fields-add_masked pt (add_column pt s)
        ∙ ap (λ names. if is_masked pt.compliance then add_member pt.api_name names else names)
            (masked_fields-add_column pt s))
    ∙ elim (Option-cases pt.compliance) [
      | inl e ↦ rw e h
      | inr (c, e) ↦ rw e (
          ground (
            arith,
            contains-add_member field pt.api_name s.masked_fields,
            lookup-insert field pt.api_name c.masking_strategy rules,
          ))
    ]

masked_steps :
    (pts : List PropertyType) (s : SchemaInfo) (rules : Dict String String) (field : String)
    → contains s.masked_fields field ≡ has_key field rules
    → contains (add_properties pts s).masked_fields field ≡ has_key field (add_rules pts rules)
unfolding add_properties add_rules
masked_steps [] s rules field h = h
masked_steps (pt ∷ pts) s rules field h =
    masked_steps pts _ _ field (masked_step pt s rules field h)

-- The loader and the masking go by the same fields.
pub masked_fields_lem :
    (type_rid : String) (pts : List PropertyType) (mapping : Option AssetMapping) (field : String)
    → contains (schema_of type_rid pts mapping).masked_fields field
      ≡ has_key field (build_masking_rules pts)
unfolding schema_of build_masking_rules
masked_fields_lem type_rid pts mapping field =
    masked_steps pts _ [] field (ground (arith, lookup-nil {V = String} field))

-- the error for a query by a masked field
abbrev refused : {A : Type 0} → Result A
refused = err (app_error data_masked_field_not_sortable)

module _ (col_map : Dict String String) (schema : SchemaInfo) where
  translate_filters-refused :
      (fs : List Filter)
      → any (λ (f : Filter). contains schema.masked_fields f.field) fs ≡ true
      → translate_filters fs col_map schema ≡ refused
  unfolding translate_filters
  translate_filters-refused [] h = ground arith
  translate_filters-refused (f ∷ fs) h = ground (arith, translate_filters-refused fs)

  translate_filters_accepted :
      (fs : List Filter)
      → any (λ (f : Filter). contains schema.masked_fields f.field) fs ≡ false
      → is_ok (translate_filters fs col_map schema) ≡ true
  unfolding translate_filters
  translate_filters_accepted [] h = refl
  translate_filters_accepted (f ∷ fs) h = ground (arith, translate_filters_accepted fs)

  translate_sort-refused :
      (ss : List SortSpec)
      → any (λ (s : SortSpec). contains schema.masked_fields s.field) ss ≡ true
      → translate_sort ss col_map schema ≡ refused
  unfolding translate_sort
  translate_sort-refused [] h = ground arith
  translate_sort-refused (s ∷ ss) h = ground (arith, translate_sort-refused ss)

refused_by :
    {A B C : Type 0} (r : Result A) (r' : Result B) (k : A → B → Result C)
    → (r ≡ refused) ⊎ ((is_ok r ≡ true) × (r' ≡ refused))
    → (r >>=ʳ λ a. r' >>=ʳ λ b. k a b) ≡ refused
refused_by r r' k (inl e) = rw e refl
refused_by (ok a) r' k (inr (accepted, e)) = rw e refl
refused_by (err x) r' k (inr (accepted, e)) = ground arith

module _ (type_rid : String) (pts : List PropertyType) (mapping : Option AssetMapping) where
  any_masked :
      {A : Type 0} (field_of : A → String) (xs : List A)
      → any (λ x. contains (schema_of type_rid pts mapping).masked_fields (field_of x)) xs
        ≡ any (λ x. has_key (field_of x) (build_masking_rules pts)) xs
  any_masked field_of [] = refl
  any_masked field_of (x ∷ xs) =
      ground (arith, any_masked field_of xs, masked_fields_lem type_rid pts mapping (field_of x))

  -- A query that filters or sorts by a field with a masking rule is refused, whatever the connector
  -- would answer.
  pub query_instances_refused :
      (connector : Connector) (table_path : String) (filters : List Filter) (sort : List SortSpec)
      (offset limit : ℕ)
      → (any (λ (f : Filter). has_key f.field (build_masking_rules pts)) filters
          || any (λ (s : SortSpec). has_key s.field (build_masking_rules pts)) sort)
        ≡ true
      → query_instances connector
          (schema_of type_rid pts mapping)
          table_path
          filters
          sort
          offset
          limit
        ≡ err (app_error data_masked_field_not_sortable)
  unfolding query_instances
  query_instances_refused connector table_path filters sort offset limit h =
      let s = schema_of type_rid pts mapping in
      let col_map = build_column_map s in
      refused_by (translate_filters filters col_map s) (translate_sort sort col_map s) _
        (elim (Bool-cases (any (λ (f : Filter). contains s.masked_fields f.field) filters)) [
          | inl masked ↦ inl (translate_filters-refused col_map s filters masked)
          | inr none_masked ↦ inr (
            translate_filters_accepted col_map s filters none_masked,
            translate_sort-refused col_map s sort (
                ground (
                  arith,
                  any_masked (λ (f : Filter). f.field) filters,
                  any_masked (λ (s : SortSpec). s.field) sort,
                )),
          )
        ])
