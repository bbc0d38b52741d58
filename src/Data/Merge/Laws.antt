-- ===== src/Data/Merge/Laws.antt =====
-- What a replayed edit log says of a row and of its fields.
use lingshu_round.Prelude.{
  ◌≤◌, String, ◌≡◌, refl, ◌∙◌, sym, ap, Bool, true, ◌||◌, Option, none, some, List, [], ◌∷◌, ◌++◌,
  if◌then◌else◌, ◌==◌, string_eq, length, arith, all, ==_other, Option-cases, inl, inr,
}
use lingshu_round.Prelude.Dict.{Dict, lookup, update, last_write, lookup-update}
use lingshu_round.Prelude.Value.{Value}
use lingshu_round.Data.Merge.{
  EditLogEntry, Row, apply_entry, replay, merge_row, merge_rows, key_value,
}

pub replay-append :
    (es fs : List EditLogEntry) (row : Option Row)
    → replay (es ++ fs) row ≡ replay fs (replay es row)
unfolding replay
replay-append [] fs row = refl
replay-append (e ∷ es) fs row = replay-append es fs (apply_entry e row)

-- the test for an empty log changes nothing
pub merge_row-replay :
    (k : Dict String Value) (es : List EditLogEntry) (row : Option Row)
    → merge_row (λ _. es) row k ≡ replay es row
unfolding merge_row replay
merge_row-replay k [] row = refl
merge_row-replay k (e ∷ es) row = refl

forgets :
    (e : EditLogEntry) (row row' : Option Row)
    → (e.operation == "create" || e.operation == "delete") ≡ true
    → apply_entry e row ≡ apply_entry e row'
unfolding apply_entry string_eq
forgets e row row' h = ground (arith, ==_other e.operation "delete" "update" refl)

-- A row that is made or deleted forgets what was before: the base row, and the log up to there,
-- make no difference to what the whole log gives.
pub merge_row-reset :
    (k : Dict String Value) (es es' fs : List EditLogEntry) (e : EditLogEntry)
    (row row' : Option Row)
    → (e.operation == "create" || e.operation == "delete") ≡ true
    → merge_row (λ _. es ++ e ∷ fs) row k ≡ merge_row (λ _. es' ++ e ∷ fs) row' k
unfolding replay
merge_row-reset k es es' fs e row row' h =
    merge_row-replay k (es ++ e ∷ fs) row
    ∙ (replay-append es (e ∷ fs) row
        ∙ (ap (replay fs) (forgets e (replay es row) (replay es' row') h)
            ∙ sym (merge_row-replay k (es' ++ e ∷ fs) row' ∙ replay-append es' (e ∷ fs) row')))

abbrev is_update : EditLogEntry → Bool
is_update e = e.operation == "update"

-- the fields that a log of updates writes, in their order
abbrev pub writes : List EditLogEntry → Dict String Value
writes [] = []
writes (e ∷ es) = e.field_values ++ writes es

abbrev pub field_of : String → Option Row → Option Value
field_of field none = none
field_of field (some row) = lookup field row

last_write-append :
    (k : String) (xs ys : Dict String Value) (o : Option Value)
    → last_write k (xs ++ ys) o ≡ last_write k ys (last_write k xs o)
last_write-append k [] ys o = refl
last_write-append k ((j, v) ∷ xs) ys o = last_write-append k xs ys (if k == j then some v else o)

lookup-replay :
    (field : String) (es : List EditLogEntry) (row : Row)
    → all is_update es ≡ true
    → field_of field (replay es (some row)) ≡ last_write field (writes es) (lookup field row)
unfolding replay apply_entry string_eq
lookup-replay field [] row h = refl
lookup-replay field (e ∷ es) row h = ground (
  arith,
  ==_other e.operation "update" "create" refl,
  lookup-replay field es (update row e.field_values),
  lookup-update field row e.field_values,
  last_write-append field e.field_values (writes es) (lookup field row),
)

-- Under updates alone, a field of a row has the value that the log wrote last, or else its own.
pub lookup-merge_row :
    (field : String) (k : Dict String Value) (es : List EditLogEntry) (row : Row)
    → all is_update es ≡ true
    → field_of field (merge_row (λ _. es) (some row) k)
      ≡ last_write field (writes es) (lookup field row)
lookup-merge_row field k es row h =
    ap (field_of field) (merge_row-replay k es (some row)) ∙ lookup-replay field es row h

-- A merge never has more rows than the base, and where nothing was edited it is the base.
pub merge_rows_lem :
    (read_by_key : Dict String Value → List EditLogEntry) (rows : List Row) (field : String)
    → length (merge_rows read_by_key rows field) ≤ length rows
unfolding merge_rows
merge_rows_lem read_by_key [] field = omega arith
merge_rows_lem read_by_key (row ∷ rows) field =
    ground (arith, merge_rows_lem read_by_key rows field)

pub merge_rows-unedited :
    (read_by_key : Dict String Value → List EditLogEntry) (rows : List Row) (field : String)
    → ((k : Dict String Value) → read_by_key k ≡ [])
    → merge_rows read_by_key rows field ≡ rows
unfolding merge_rows merge_row
merge_rows-unedited read_by_key [] field h = refl
merge_rows-unedited read_by_key (row ∷ rows) field h =
    elim (Option-cases (key_value read_by_key field row)) [
      | inl e ↦
          rw (e, merge_rows)
            (ap (λ rest. row ∷ rest) (merge_rows-unedited read_by_key rows field h))
      | inr (pk, e) ↦
          rw (e, merge_rows, h ((field, pk) ∷ []))
            (ap (λ rest. row ∷ rest) (merge_rows-unedited read_by_key rows field h))
    ]
