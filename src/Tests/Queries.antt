-- ===== src/Tests/Queries.antt =====
-- Queries of instances over a small schema.
use lingshu_round.Prelude.{
  String, ◌<>◌, ◌≡◌, refl, Option, none, some, List, [], ◌∷◌, ◌==◌, string_eq, if◌then◌else◌,
}
use lingshu_round.Prelude.Dict.{lookup, insert, erase}
use lingshu_round.Prelude.Text.{characters, prefix, suffix}
use lingshu_round.Prelude.Value.{text, num}
use lingshu_round.Infra.Errors.{app_error, data_masked_field_not_sortable}
use lingshu_round.Infra.Exec.{ok, err}
use lingshu_round.Data.Merge.{Row}
use lingshu_round.Data.Masking.{
  PropertyType, mask_value, apply_masking, build_masking_rules, mask_row,
}
use lingshu_round.Data.Masking.Laws.{mask_value_shows}
use lingshu_round.Data.Virtual.{
  add, name, bin_op, Language, apply_virtual_fields, enrich, evaluate_expression,
}
use lingshu_round.Data.Virtual.Reads.{reads}
use lingshu_round.Data.Schema.{
  SchemaInfo, OntologyReads, cache_key, schema_of, get_schema, invalidate, load_schema,
}
use lingshu_round.Data.Schema.Age.{
  Call, read, invalidation, after, LoadedSince, get_schema-LoadedSince,
}
use lingshu_round.Data.Query.{Connector, eq, asc, query_instances}
use lingshu_round.Data.Query.Laws.{query_instances_refused}
use lingshu_round.Data.Queries.{presented}
use lingshu_round.Data.Queries.Hiding.{SameRows, presented_hides}

abbrev property : String → Option String → PropertyType
property api_name strategy = record {
  api_name = api_name;
  physical_column = some ("c_" <> api_name);
  virtual_expression = none;
  compliance = elim strategy [
    | none ↦ none
    | some s ↦ some (record { sensitivity = "HIGH"; masking_strategy = s })
  ];
}

abbrev virtual_property : PropertyType
virtual_property = record {
  api_name = "sum";
  physical_column = none;
  virtual_expression = some "a + b";
  compliance = none;
}

abbrev properties : List PropertyType
properties =
    property "a" none
    ∷ property "b" none
    ∷ property "secret" (some "MASK_REDACT_FULL")
    ∷ virtual_property
    ∷ []

abbrev schema : SchemaInfo
schema =
    schema_of "ri.obj.1" properties
      (some (record { read_connection_id = "ri.conn.1"; read_asset_path = "t" }))

abbrev language : Language
language = record {
  parse = λ s. if s == "a + b" then some (bin_op add (name "a") (name "b")) else none;
  binary = λ op l r. some (num 3);
  negate = λ v. none;
  absolute = λ v. some v;
  round = λ v n. some v;
  str = λ v. "?";
  upper = λ s. s;
}

abbrev row : String → Row
row secret = ("a", num 1) ∷ ("b", num 2) ∷ ("secret", text secret) ∷ []

presented-row :
    presented language schema (row "x" ∷ [])
    ≡ (("a", num 1) ∷ ("b", num 2) ∷ ("secret", text "***") ∷ ("sum", num 3) ∷ []) ∷ []
unfolding presented schema_of apply_masking build_masking_rules string_eq insert
    apply_virtual_fields mask_row lookup enrich mask_value evaluate_expression
presented-row = refl

presented_hides_example :
    SameRows
      (presented language schema (row "x" ∷ row "y" ∷ []))
      (presented language schema (row "v" ∷ row "w" ∷ []))
unfolding schema_of lookup build_masking_rules string_eq insert reads erase
presented_hides_example =
    presented_hides language schema "secret" "MASK_REDACT_FULL" refl refl refl refl
      (row "x" ∷ row "y" ∷ []) (row "v" ∷ row "w" ∷ [])
      (((λ k. refl), refl, refl), (((λ k. refl), refl, refl), tt))

abbrev silent : Connector
silent = record {
  execute_query =
      λ path columns fs ss offset limit. ok (record { rows = []; total = 0; columns = columns });
  get_row = λ path key columns. ok none;
}

query_instances_refused_example :
    query_instances silent schema "t"
      (record { field = "a"; operator = eq; value = num 1 } ∷ [])
      (record { field = "secret"; order = asc } ∷ [])
      0
      20
    ≡ err (app_error data_masked_field_not_sortable)
unfolding schema_of lookup build_masking_rules string_eq insert
query_instances_refused_example =
    query_instances_refused "ri.obj.1" properties
      (some (record { read_connection_id = "ri.conn.1"; read_asset_path = "t" })) silent "t"
      (record { field = "a"; operator = eq; value = num 1 } ∷ [])
      (record { field = "secret"; order = asc } ∷ []) 0 20 refl

abbrev ontology : OntologyReads
ontology = record {
  get_property_types_for_entity = λ type_rid tenant_id. ok properties;
  get_asset_mapping = λ type_rid tenant_id.
      ok (some (record { read_connection_id = "ri.conn.1"; read_asset_path = "t" }));
}

-- the type was read, its tenant invalidated, and the type read again
abbrev calls : List Call
calls =
    read 120 ontology "ri.obj.1" "t1" ∷ invalidation "t1" ∷ read 100 ontology "ri.obj.1" "t1" ∷ []

get_schema-LoadedSince_example :
    LoadedSince 200 (cache_key "t1" "ri.obj.1") schema (read 200 ontology "ri.obj.1" "t1" ∷ calls)
unfolding get_schema lookup after invalidate load_schema insert string_eq
get_schema-LoadedSince_example =
    get_schema-LoadedSince 200 ontology "ri.obj.1" "t1" calls schema refl

mask_value_shows_example :
    (mask_value (λ v. "?") (text ("135" <> ("0000" <> "1234"))) "SHOW_LAST_4"
      ≡ text ("***" <> "1234"))
    × (mask_value (λ v. "?") (text ("135" <> ("0000" <> "1234"))) "MASK_PHONE_MIDDLE"
        ≡ text ("135" <> ("****" <> "1234")))
unfolding characters
mask_value_shows_example = mask_value_shows (λ v. "?") "135" "0000" "1234" refl refl

-- nothing of seven digits is hidden
mask_phone_short : mask_value (λ v. "?") (text "1351234") "MASK_PHONE_MIDDLE" ≡ text "135****1234"
unfolding mask_value string_eq characters prefix suffix
mask_phone_short = refl
