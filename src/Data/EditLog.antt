-- ===== src/Data/EditLog.antt =====
-- data/writeback/fdb_client.py: the edit log in its default store, a table of rows, and
-- `write_editlog` of data/service.py.
pub mod Laws
use lingshu_round.Prelude.{
  ℕ, String, Bool, true, false, ◌&&◌, ◌||◌, ◌≡◌, Option, none, some, List, [], ◌∷◌, map, take,
  if◌then◌else◌, ◌==◌, string_eq, select,
}
use lingshu_round.Prelude.Dict.{Dict}
use lingshu_round.Prelude.SortBy.{sort_by}
use lingshu_round.Prelude.Value.{Value, Fields, object, end, field, value_eq}
use lingshu_round.Infra.Errors.{app_error, common_internal_error}
use lingshu_round.Infra.Exec.{Exec, Result, ok, err}
use lingshu_round.Infra.Table.{Table}
use lingshu_round.Data.Merge.{EditLogEntry}

-- a row of `edit_logs`, and the dataclass with the same fields
pub record EditLog : Type 0 where
  pub entry_id : String
  pub tenant_id : String
  pub type_rid : Value
  pub primary_key : Value
  pub operation : String
  pub field_values : Dict String Value
  pub user_id : String
  pub action_type_rid : Option String
  pub branch : String
  pub created_at : ℕ

-- a dict as a value
abbrev pub fields_of : Dict String Value → Fields
fields_of [] = end
fields_of ((k, v) ∷ d) = field k v (fields_of d)

abbrev pub object_of : Dict String Value → Value
object_of d = object (fields_of d)

-- `operation in ("create", "update", "delete")`
abbrev pub is_operation : String → Bool
is_operation operation = operation == "create" || (operation == "update" || operation == "delete")

-- `make_entry` with the check of `__post_init__`. A `ValueError` is caught by no handler of the
-- service: the server answers it as an internal error.
unfoldable pub make_entry : EditLog → Result EditLog
make_entry entry =
    if is_operation entry.operation then ok entry else err (app_error common_internal_error)

-- the fields that the merge reads
abbrev pub to_entry : EditLog → EditLogEntry
to_entry row = record { operation = row.operation; field_values = row.field_values }

-- how the database compares two JSON columns
pub record Jsonb : Type 0 where
  pub equal : Value → Value → Bool
  pub equal-refl : (v : Value) → equal v v ≡ true

abbrev pub is_about : Jsonb → String → Value → Value → String → EditLog → Bool
is_about J tenant type_rid primary_key branch row =
    row.tenant_id == tenant
    && (row.type_rid == type_rid && (J.equal row.primary_key primary_key && row.branch == branch))

module _ (T : Table EditLog) where
  unfoldable pub write : EditLog → T.State → String × T.State
  write entry s = (entry.entry_id, T.insert entry s)

  -- `EditLogStore.read_by_key`, oldest first
  unfoldable pub read_by_key : Jsonb → String → Value → Value → String → T.State → List EditLogEntry
  read_by_key J tenant type_rid primary_key branch s = map to_entry (
      sort_by (λ row. row.created_at)
        (select (is_about J tenant type_rid primary_key branch) (T.rows s)))

  -- `DataServiceImpl.write_editlog`
  unfoldable pub write_editlog : EditLog → Exec T.State String
  unfolding make_entry write
  write_editlog entry s = elim (make_entry entry) [
    | ok made ↦ let (entry_id, s') = write made s in (ok entry_id, s')
    | err e ↦ (err e, s)
  ]
