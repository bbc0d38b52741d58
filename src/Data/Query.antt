-- ===== src/Data/Query.antt =====
-- data/pipeline/query_engine.py: queries by api names become queries of physical columns, and the
-- rows come back under api names. A connector is a parameter.
pub mod Laws
use lingshu_round.Prelude.{
  ℕ, String, Bool, true, false, not, Option, none, some, List, [], ◌∷◌, map, if◌then◌else◌, ◌==◌,
  string_eq, contains,
}
use lingshu_round.Prelude.Dict.{Dict, keys, lookup, insert}
use lingshu_round.Prelude.Value.{Value}
use lingshu_round.Infra.Errors.{AppError, app_error, data_masked_field_not_sortable}
use lingshu_round.Infra.Exec.{Result, ok, err, ◌>>=ʳ◌}
use lingshu_round.Data.Merge.{Row}
use lingshu_round.Data.Masking.{PropertyType}
use lingshu_round.Data.Schema.{SchemaInfo, nonempty}

pub data FilterOperator : Type 0 where
  eq : FilterOperator
  neq : FilterOperator
  gt : FilterOperator
  gte : FilterOperator
  lt : FilterOperator
  lte : FilterOperator
  contained : FilterOperator
  among : FilterOperator

pub data SortOrder : Type 0 where
  asc : SortOrder
  desc : SortOrder

pub record Filter : Type 0 where
  pub field : String
  pub operator : FilterOperator
  pub value : Value

pub record SortSpec : Type 0 where
  pub field : String
  pub order : SortOrder

pub record QueryResult : Type 0 where
  pub rows : List Row
  pub total : ℕ
  pub columns : List String

-- what a connector answers: a query of a table's columns with filters, an order, an offset and a
-- limit, and one row by its key
pub record Connector : Type 0 where
  pub execute_query :
      String → List String → List Filter → List SortSpec → ℕ → ℕ → Result QueryResult
  pub get_row : String → Dict String Value → List String → Result (Option Row)

abbrev pub add_column : PropertyType → Dict String String → Dict String String
add_column pt col_map = elim (nonempty pt.physical_column) [
  | none ↦ col_map
  | some column ↦ insert pt.api_name column col_map
]

unfoldable pub add_columns : List PropertyType → Dict String String → Dict String String
add_columns [] col_map = col_map
add_columns (pt ∷ pts) col_map = add_columns pts (add_column pt col_map)

unfoldable pub build_column_map : SchemaInfo → Dict String String
unfolding add_columns
build_column_map schema = add_columns schema.property_types []

abbrev values : Dict String String → List String
values [] = []
values ((_, v) ∷ d) = v ∷ values d

-- a filter on a virtual field is not passed on
abbrev translated : Filter → Option String → List Filter → List Filter
translated f none fs = fs
translated f (some column) fs =
    record { field = column; operator = f.operator; value = f.value } ∷ fs

unfoldable pub translate_filters :
    List Filter → Dict String String → SchemaInfo → Result (List Filter)
translate_filters [] col_map schema = ok []
translate_filters (f ∷ fs) col_map schema =
    let rest = translate_filters fs col_map schema in
    if contains schema.masked_fields f.field
    then err (app_error data_masked_field_not_sortable)
    else rest >>=ʳ λ ts. ok (translated f (lookup f.field col_map) ts)

abbrev sorted_by : SortSpec → Option String → List SortSpec → List SortSpec
sorted_by s none ss = ss
sorted_by s (some column) ss = record { field = column; order = s.order } ∷ ss

unfoldable pub translate_sort :
    List SortSpec → Dict String String → SchemaInfo → Result (List SortSpec)
translate_sort [] col_map schema = ok []
translate_sort (s ∷ ss) col_map schema =
    let rest = translate_sort ss col_map schema in
    if contains schema.masked_fields s.field
    then err (app_error data_masked_field_not_sortable)
    else rest >>=ʳ λ ts. ok (sorted_by s (lookup s.field col_map) ts)

-- `{v: k for k, v in col_map.items()}`
unfoldable pub reverse_map : Dict String String → Dict String String → Dict String String
reverse_map [] names = names
reverse_map ((k, v) ∷ d) names = reverse_map d (insert v k names)

abbrev name_or_self : String → Option String → String
name_or_self column none = column
name_or_self column (some api_name) = api_name

-- `{reverse_map.get(k, k): v for k, v in row.items()}`
unfoldable pub rename : Dict String String → Row → Row → Row
rename names [] renamed = renamed
rename names ((k, v) ∷ row) renamed =
    rename names row (insert (name_or_self k (lookup k names)) v renamed)

abbrev pub mapped_row : Dict String String → Row → Row
mapped_row col_map row = rename (reverse_map col_map []) row []

module _ (connector : Connector) (schema : SchemaInfo) (table_path : String) where
  unfoldable pub query_instances : List Filter → List SortSpec → ℕ → ℕ → Result QueryResult
  unfolding build_column_map translate_filters translate_sort rename reverse_map
  query_instances filters sort offset limit =
      let col_map = build_column_map schema in
      translate_filters filters col_map schema >>=ʳ λ fs.
      translate_sort sort col_map schema >>=ʳ λ ss.
      connector.execute_query table_path (values col_map) fs ss offset limit >>=ʳ λ result.
      ok (record {
        rows = map (mapped_row col_map) result.rows;
        total = result.total;
        columns = keys col_map;
      })

  abbrev put_key : Option String → Value → Dict String Value → Dict String Value
  put_key none v pk = pk
  put_key (some column) v pk = insert column v pk

  unfoldable pub physical_key : Dict String Value → Dict String Value → Dict String Value
  unfolding build_column_map
  physical_key [] pk = pk
  physical_key ((api_name, v) ∷ primary_key) pk =
      physical_key primary_key (put_key (lookup api_name (build_column_map schema)) v pk)

  -- `if not row: return None`
  abbrev mapped : Option Row → Option Row
  mapped none = none
  mapped (some []) = none
  mapped (some (cell ∷ row)) = some (mapped_row (build_column_map schema) (cell ∷ row))

  unfoldable pub get_instance : Dict String Value → Result (Option Row)
  unfolding physical_key build_column_map rename reverse_map
  get_instance primary_key =
      connector.get_row table_path (physical_key primary_key []) (values (build_column_map schema))
      >>=ʳ λ row. ok (mapped row)
