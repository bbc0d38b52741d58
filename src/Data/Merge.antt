-- ===== src/Data/Merge.antt =====
-- data/pipeline/merge.py: the edit log is replayed over the base rows when they are read.
pub mod Laws
use lingshu_round.Prelude.{
  String, Bool, Option, none, some, List, [], ◌∷◌, if◌then◌else◌, ◌==◌, string_eq, is_empty,
}
use lingshu_round.Prelude.Dict.{Dict, lookup, update}
use lingshu_round.Prelude.Value.{Value, is_null}

-- the fields of an `EditLogEntry` that the merge reads
pub record EditLogEntry : Type 0 where
  pub operation : String
  pub field_values : Dict String Value

abbrev pub Row : Type 0
Row = Dict String Value

-- `{**row, **entry.field_values}`, or the values themselves without a row
abbrev pub overlay : Option Row → Dict String Value → Option Row
overlay none values = some values
overlay (some row) values = some (update row values)

-- one round of the loop of `merge_row`
unfoldable pub apply_entry : EditLogEntry → Option Row → Option Row
unfolding update
apply_entry e row =
    if e.operation == "create"
    then some e.field_values
    else if e.operation == "update"
    then overlay row e.field_values
    else if e.operation == "delete"
    then none
    else row

unfoldable pub replay : List EditLogEntry → Option Row → Option Row
unfolding apply_entry
replay [] row = row
replay (e ∷ es) row = replay es (apply_entry e row)

-- what `read_by_key` gives for a tenant, a type and a branch, oldest first, by the primary key
module _ (read_by_key : Dict String Value → List EditLogEntry) where
  unfoldable pub merge_row : Option Row → Dict String Value → Option Row
  unfolding replay
  merge_row base_row primary_key =
      let entries = read_by_key primary_key in
      if is_empty entries then base_row else replay entries base_row

  abbrev pub keep_row : Option Row → List Row → List Row
  keep_row none rows = rows
  keep_row (some row) rows = row ∷ rows

  -- `base_row.get(primary_key_field)` is `None` for a missing field and for a null
  abbrev pub key_value : String → Row → Option Value
  key_value field row = elim (lookup field row) [
    | none ↦ none
    | some v ↦ if is_null v then none else some v
  ]

  unfoldable pub merge_rows : List Row → String → List Row
  unfolding merge_row
  merge_rows [] field = []
  merge_rows (row ∷ rows) field =
      let rest = merge_rows rows field in
      elim (key_value field row) [
        | none ↦ row ∷ rest
        | some pk ↦ keep_row (merge_row (some row) ((field, pk) ∷ [])) rest
      ]
