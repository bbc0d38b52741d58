-- ===== src/Data/EditLog/Laws.antt =====
-- What is read back after a write to the edit log.
use lingshu_round.Prelude.{
  ◌+◌, String, ◌≡◌, refl, ap, subst, ◌∙◌, Bool, true, false, not, ◌&&◌, Option, none, some, List,
  [], ◌∷◌, ◌++◌, map, leb, select, ◌==◌, string_eq, arith, ==_other, ==_refl, Eq, Bool-cases, inl,
  inr, Option-cases,
}
use native.Mathlib.Decide.{ℕ_discrete}
use lingshu_round.Prelude.Count.{count, one_if, count_mono, count-select, count-append}
use lingshu_round.Prelude.Dict.{Dict, lookup, lookup-update, is_dict, last_write_given}
use lingshu_round.Prelude.SortBy.{sort_by, count-sort_by, sort_by-is_sorted, last_of_sorted}
use lingshu_round.Prelude.Value.{Value, Value-discrete, value_eq}
use lingshu_round.Infra.Table.{Table}
use lingshu_round.Infra.Table
use lingshu_round.Data.Merge.{Row, apply_entry, replay, merge_row}
use lingshu_round.Data.Merge.Laws.{replay-append, field_of, merge_row-replay}
use lingshu_round.Data.EditLog.{
  EditLog, to_entry, is_operation, make_entry, Jsonb, write, is_about, read_by_key, write_editlog,
  object_of,
}

string_discrete : Discrete String
unfolding string_eq
string_discrete = string_eq.dec

EditLog-discrete : Discrete EditLog
EditLog-discrete = hlevel (string_discrete, Value-discrete, ℕ_discrete)

instance edit_log_eq : Eq EditLog
edit_log_eq = record { dec = EditLog-discrete }

map-append : {A B : Type 0} (f : A → B) (xs ys : List A) → map f (xs ++ ys) ≡ (map f xs ++ map f ys)
map-append f [] ys = refl
map-append f (x ∷ xs) ys = ap (λ r. f x ∷ r) (map-append f xs ys)

count_one : {A : Type 0} (p : A → Bool) (x : A) → count p (x ∷ []) ≡ one_if (p x)
unfolding count
count_one p x = omega arith

module _ (T : Table EditLog) (L : Table.IsLawful T) (m : EditLog → Bool) (e : EditLog)
    (s : T.State) where
  -- what the statement of `read_by_key` gives after the entry was written
  abbrev selected : List EditLog
  selected = sort_by (λ row. row.created_at) (select m (T.rows (T.insert e s)))

  abbrev late : EditLog → Bool
  late row = leb e.created_at row.created_at

  count-selected :
      (p : EditLog → Bool)
      → count p selected ≡ one_if (m e && p e) + count (λ r. m r && p r) (T.rows s)
  count-selected p =
      count-sort_by (λ row. row.created_at) p (select m (T.rows (T.insert e s)))
      ∙ (count-select p m (T.rows (T.insert e s)) ∙ L.count-insert (λ r. m r && p r) e s)

  module _ (about : m e ≡ true) (newest : count (λ r. m r && late r) (T.rows s) ≡ 0) where
    others : count (λ r. late r && not (r == e)) selected ≡ 0
    others = ground (
      arith,
      count-selected (λ r. late r && not (r == e)),
      count_mono (λ r. m r && (late r && not (r == e))) (λ r. m r && late r) (T.rows s)
          (λ r h. ground arith),
      ==_refl e,
    )

    latest : count late selected ≡ 1
    latest = ground (arith, count-selected late)

    is_written : (x : EditLog) (ys : List EditLog) → selected ≡ ys ++ x ∷ [] → late x ≡ true → x ≡ e
    is_written x ys h x_late = elim (Bool-cases (x == e)) [
      | inl same ↦ ground arith
      | inr differ ↦ absurd (
          ground (
            arith,
            count-append (λ r. late r && not (r == e)) ys (x ∷ []),
            subst (λ l. count (λ r. late r && not (r == e)) l ≡ 0) h others,
            count_one (λ r. late r && not (r == e)) x,
          ))
    ]

    written_last : (ys : List EditLog) × (selected ≡ ys ++ e ∷ [])
    written_last =
        let (x, ys, e₁, x_late) =
          last_of_sorted (λ r. r.created_at) e.created_at selected
            (sort_by-is_sorted (λ r. r.created_at) (select m (T.rows (T.insert e s)))) latest in
        (ys, e₁ ∙ ap (λ r. ys ++ r ∷ []) (is_written x ys e₁ x_late))

module _ (e : EditLog) (before : Option Row) where
  deleted : e.operation == "delete" ≡ true → apply_entry (to_entry e) before ≡ none
  unfolding apply_entry string_eq
  deleted h = ground (
    arith,
    ==_other e.operation "delete" "create" refl,
    ==_other e.operation "delete" "update" refl,
  )

  written :
      is_operation e.operation ≡ true
      → is_dict e.field_values ≡ true
      → (field : String) (v : Value) → e.operation == "delete" ≡ false
      → lookup field e.field_values ≡ some v
      → field_of field (apply_entry (to_entry e) before) ≡ some v
  unfolding apply_entry
  written valid dict field v keeps given = elim (Option-cases before) [
    | inl e₁ ↦ ground (arith)
    | inr (row, e₁) ↦ ground (
      arith,
      lookup-update field row e.field_values,
      last_write_given field v e.field_values (lookup field row),
    )
  ]

-- the row of a merge that reads the log of one key
abbrev pub merged :
    (T : Table EditLog) → Jsonb → EditLog → Dict String Value → Option Row → T.State → Option Row
merged T J e key base s =
    merge_row (λ k. read_by_key T J e.tenant_id e.type_rid (object_of k) e.branch s) base key

-- the entries of the same row that are not older
abbrev pub not_older : Jsonb → EditLog → EditLog → Bool
not_older J e row =
    is_about J e.tenant_id e.type_rid e.primary_key e.branch row && leb e.created_at row.created_at

module _ (T : Table EditLog) (L : Table.IsLawful T) (J : Jsonb) (e : EditLog) (s : T.State)
    (key : Dict String Value) (base : Option Row) where
  stored : is_operation e.operation ≡ true → (write_editlog T e s).1 ≡ T.insert e s
  unfolding write_editlog make_entry write
  stored valid = ground arith

  about :
      e.primary_key ≡ object_of key
      → is_about J e.tenant_id e.type_rid (object_of key) e.branch e ≡ true
  about named =
      subst (λ k. is_about J e.tenant_id e.type_rid k e.branch e ≡ true) named
        (ground (
          arith,
          J.equal-refl e.primary_key,
          ==_refl e.tenant_id,
          ==_refl e.type_rid,
          ==_refl e.branch,
        ))

  recent :
      e.primary_key ≡ object_of key
      → count (not_older J e) (T.rows s) ≡ 0
      → count
          (λ r.
            is_about J e.tenant_id e.type_rid (object_of key) e.branch r
            && leb e.created_at r.created_at)
          (T.rows s)
        ≡ 0
  recent named newest =
      subst
        (λ k.
          count
            (λ r. is_about J e.tenant_id e.type_rid k e.branch r && leb e.created_at r.created_at)
            (T.rows s)
          ≡ 0)
        named newest

  -- The written entry is the last one that the merge replays.
  merged-write :
      is_operation e.operation ≡ true
      → e.primary_key ≡ object_of key
      → count (not_older J e) (T.rows s) ≡ 0
      → (before : Option Row) × (merged T J e key base (write_editlog T e s).1
          ≡ apply_entry (to_entry e) before)
  unfolding merge_row read_by_key replay
  merged-write valid named newest =
      let m = is_about J e.tenant_id e.type_rid (object_of key) e.branch in
      let (ys, last) = written_last T L m e s (about named) (recent named newest) in
      (
        replay (map to_entry ys) base,
        ap (merged T J e key base) (stored valid)
            ∙ (merge_row-replay key (map to_entry (selected T L m e s)) base
                ∙ (ap (λ l. replay (map to_entry l) base) last
                    ∙ (ap (λ l. replay l base) (map-append to_entry ys (e ∷ []))
                        ∙ replay-append (map to_entry ys) (to_entry e ∷ []) base))),
      )

  -- What was written is what is read: after a valid entry that is newer than every other of its
  -- row and does not delete it, a merge gives every field of the entry its value.
  pub write-then_merge :
      (field : String) (v : Value)
      → is_operation e.operation ≡ true
      → e.primary_key ≡ object_of key
      → count (not_older J e) (T.rows s) ≡ 0
      → is_dict e.field_values ≡ true
      → e.operation == "delete" ≡ false
      → lookup field e.field_values ≡ some v
      → field_of field (merged T J e key base (write_editlog T e s).1) ≡ some v
  write-then_merge field v valid named newest dict keeps given =
      let (before, e₁) = merged-write valid named newest in
      ap (field_of field) e₁ ∙ written e before valid dict field v keeps given

  -- After an entry that deletes its row, and that is newer than every other of the row, a merge
  -- has no row, whatever the base row and the log before it.
  pub write-deleted :
      is_operation e.operation ≡ true
      → e.primary_key ≡ object_of key
      → count (not_older J e) (T.rows s) ≡ 0
      → e.operation == "delete" ≡ true
      → merged T J e key base (write_editlog T e s).1 ≡ none
  write-deleted valid named newest deletes =
      let (before, e₁) = merged-write valid named newest in e₁ ∙ deleted e before deletes
