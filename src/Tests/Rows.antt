-- ===== src/Tests/Rows.antt =====
-- Row locks and edit logs at small inputs.
use lingshu_round.Prelude.{
  String, ◌≡◌, ◌≢◌, refl, true, false, Option, none, some, List, [], ◌∷◌, string_eq, option_eq,
  ne_of_test, arith,
}
use lingshu_round.Prelude.Dict.{Dict, lookup, last_write}
use lingshu_round.Prelude.Value.{Value, text, num}
use lingshu_round.Infra.Redis.{Entry}
use lingshu_round.Data.RowLock.{Row, acquire, release, is_locked}
use lingshu_round.Data.RowLock.Laws.{acquire_excluded_row}
use lingshu_round.Data.Merge.{EditLogEntry, merge_row}
use lingshu_round.Data.Merge.Laws.{field_of, writes, lookup-merge_row}
use lingshu_round.Tests.Memory.{memory_redis, memory_redis-IsLawful}

abbrev digest : Dict String Value → String
digest key = "d"

abbrev row : Row
row = record { tenant_id = "t1"; type_rid = "ri.obj.1"; primary_key = ("id", num 1) ∷ [] }

abbrev unlocked : String → Option Entry
unlocked _ = none

abbrev held : String → Option Entry
held = (acquire memory_redis digest row "ada" 300 unlocked).1

ada_and_bob : ◌≢◌ {A = String} "ada" "bob"
unfolding string_eq
ada_and_bob = ne_of_test {A = String} "ada" "bob" refl

acquire_excluded_row_example :
    ((acquire memory_redis digest row "bob" 60 (memory_redis.advance 200 held)).0 ≡ false)
    × ((release memory_redis digest row "bob" (memory_redis.advance 200 held)).0 ≡ false)
    × (is_locked memory_redis digest row (memory_redis.advance 200 held) ≡ (true, some "ada"))
acquire_excluded_row_example =
    acquire_excluded_row memory_redis memory_redis-IsLawful digest row "ada" "bob" 300 60 200
      unlocked (unfold acquire in refl) ada_and_bob (omega arith)

abbrev entry : String → Dict String Value → EditLogEntry
entry operation values = record { operation = operation; field_values = values }

abbrev base : Dict String Value
base = ("id", num 1) ∷ ("name", text "a") ∷ []

abbrev renames : List EditLogEntry
renames = entry "update" (("name", text "b") ∷ []) ∷ entry "update" (("name", text "c") ∷ []) ∷ []

lookup-merge_row_example :
    field_of "name" (merge_row (λ _. renames) (some base) (("id", num 1) ∷ []))
    ≡ last_write "name" (writes renames) (lookup "name" base)
lookup-merge_row_example =
    lookup-merge_row "name" (("id", num 1) ∷ []) renames base (unfold string_eq in refl)
