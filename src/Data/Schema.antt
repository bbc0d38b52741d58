-- ===== src/Data/Schema.antt =====
-- data/pipeline/schema_loader.py: what the data layer needs of a type, read from the ontology service
-- and kept for five minutes.
pub mod Age
use lingshu_round.Prelude.{
  ℕ, ◌+◌, String, ◌<>◌, Bool, true, false, not, ◌&&◌, Option, none, some, List, [], ◌∷◌, ◌++◌,
  if◌then◌else◌, ◌==◌, string_eq, ltb, contains, starts_with, is_some,
}
use lingshu_round.Prelude.Dict.{Dict, lookup, insert}
use lingshu_round.Infra.Exec.{Result, ok, err, Exec, pure, lift, ◌>>=◌, ◌>>=ʳ◌}
use lingshu_round.Data.Masking.{PropertyType, is_masked}

abbrev pub cache_ttl_seconds : ℕ
cache_ttl_seconds = 300

-- the parts of an asset mapping that the queries read, `""` where they are missing
pub record AssetMapping : Type 0 where
  pub read_connection_id : String
  pub read_asset_path : String

pub record SchemaInfo : Type 0 where
  pub type_rid : String
  pub property_types : List PropertyType
  pub asset_mapping : Option AssetMapping
  pub physical_columns : List String
  pub virtual_fields : Dict String String
  pub sortable_fields : List String
  pub filterable_fields : List String
  pub masked_fields : List String
  pub primary_key_fields : List String

-- a text that is there and not empty
abbrev pub nonempty : Option String → Option String
nonempty none = none
nonempty (some s) = if s == "" then none else some s

-- `masked_fields.add(api_name)`
abbrev pub add_member : String → List String → List String
add_member name names = if contains names name then names else name ∷ names

abbrev pub add_column : PropertyType → SchemaInfo → SchemaInfo
add_column pt s = elim (nonempty pt.physical_column) [
  | some column ↦ record s { physical_columns = s.physical_columns ++ column ∷ [] }
  | none ↦ elim (nonempty pt.virtual_expression) [
    | some expression ↦ record s { virtual_fields = insert pt.api_name expression s.virtual_fields }
    | none ↦ s
  ]
]

abbrev pub add_masked : PropertyType → SchemaInfo → SchemaInfo
add_masked pt s =
    if is_masked pt.compliance
    then record s { masked_fields = add_member pt.api_name s.masked_fields }
    else if is_some (nonempty pt.physical_column)
    then record s {
      sortable_fields = s.sortable_fields ++ pt.api_name ∷ [];
      filterable_fields = s.filterable_fields ++ pt.api_name ∷ [];
    }
    else s

-- the loop over the property types
unfoldable pub add_properties : List PropertyType → SchemaInfo → SchemaInfo
add_properties [] s = s
add_properties (pt ∷ pts) s = add_properties pts (add_masked pt (add_column pt s))

abbrev pub empty_schema : String → List PropertyType → Option AssetMapping → SchemaInfo
empty_schema type_rid pts mapping = record {
  type_rid = type_rid;
  property_types = pts;
  asset_mapping = mapping;
  physical_columns = [];
  virtual_fields = [];
  sortable_fields = [];
  filterable_fields = [];
  masked_fields = [];
  primary_key_fields = [];
}

unfoldable pub schema_of : String → List PropertyType → Option AssetMapping → SchemaInfo
unfolding add_properties
schema_of type_rid pts mapping = add_properties pts (empty_schema type_rid pts mapping)

-- what the ontology service answers at the time of a request, for a type and a tenant
pub record OntologyReads : Type 0 where
  pub get_property_types_for_entity : String → String → Result (List PropertyType)
  pub get_asset_mapping : String → String → Result (Option AssetMapping)

pub record CacheEntry : Type 0 where
  pub schema : SchemaInfo
  pub expires_at : ℕ

abbrev pub Cache : Type 0
Cache = Dict String CacheEntry

abbrev pub cache_key : String → String → String
cache_key tenant_id type_rid = tenant_id <> (":" <> type_rid)

-- `entry and entry.expires_at > now`
abbrev pub live : ℕ → Option CacheEntry → Option SchemaInfo
live now none = none
live now (some e) = if ltb now e.expires_at then some e.schema else none

-- One request: the clock, and what the ontology service answers.
module _ (now : ℕ) (O : OntologyReads) where
  unfoldable pub load_schema : String → String → Result SchemaInfo
  unfolding schema_of
  load_schema type_rid tenant_id = O.get_property_types_for_entity type_rid tenant_id >>=ʳ λ pts.
      O.get_asset_mapping type_rid tenant_id >>=ʳ λ mapping. ok (schema_of type_rid pts mapping)

  abbrev pub keep : String → Result SchemaInfo → Cache → Result SchemaInfo × Cache
  keep key (err e) c = (err e, c)
  keep key (ok schema) c =
      (ok schema, insert key (record { schema = schema; expires_at = now + cache_ttl_seconds }) c)

  unfoldable pub get_schema : String → String → Exec Cache SchemaInfo
  get_schema type_rid tenant_id c =
      let key = cache_key tenant_id type_rid in
      elim (live now (lookup key c)) [
        | some schema ↦ (ok schema, c)
        | none ↦ keep key (load_schema type_rid tenant_id) c
      ]

-- every key that starts with the tenant and a colon is deleted
unfoldable pub invalidate : String → Cache → Cache
invalidate tenant_id [] = []
invalidate tenant_id ((k, e) ∷ c) =
    let rest = invalidate tenant_id c in
    if starts_with k (tenant_id <> ":") then rest else (k, e) ∷ rest
