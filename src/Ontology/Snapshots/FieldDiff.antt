-- ===== src/Ontology/Snapshots/FieldDiff.antt =====
-- `_compute_field_diff` of ontology/repository/snapshot_repo.py. The source walks the union of the
-- keys as a set; here the keys of the first dict come first, then those that only the second has.
use lingshu_round.Prelude.{
  String, ◌≡◌, refl, true, false, not, ◌&&◌, ◌||◌, Option, none, some, List, [], ◌∷◌, ◌++◌, arith,
  if◌then◌else◌, ◌==◌, string_eq, is_some, select, contains, ◌⊎◌, inl, inr, Bool-cases,
  Option-cases,
}
use lingshu_round.Prelude.Dict.{Dict, lookup, insert, has_key, keys, lookup-insert}
use lingshu_round.Prelude.Value.{Value, equals}

pub record FieldDiff : Type 0 where
  pub added : Dict String Value
  pub removed : Dict String Value
  pub changed : Dict String (Value × Value)

abbrev pub no_diff : FieldDiff
no_diff = record { added = []; removed = []; changed = [] }

-- one round of the loop, for a key with what the two dicts have under it
unfoldable pub diff_key : String → Option Value → Option Value → FieldDiff → FieldDiff
diff_key k none none d = d
diff_key k none (some b) d = record d { added = insert k b d.added }
diff_key k (some a) none d = record d { removed = insert k a d.removed }
diff_key k (some a) (some b) d =
    if not (equals a b) then record d { changed = insert k (a, b) d.changed } else d

unfoldable pub diff_keys :
    List String → Dict String Value → Dict String Value → FieldDiff → FieldDiff
unfolding diff_key
diff_keys [] a b d = d
diff_keys (k ∷ ks) a b d = diff_keys ks a b (diff_key k (lookup k a) (lookup k b) d)

unfoldable pub compute_field_diff : Dict String Value → Dict String Value → FieldDiff
unfolding diff_keys
compute_field_diff a b = diff_keys (keys a ++ select (λ k. not (has_key k a)) (keys b)) a b no_diff

-- what the diff says of one key
abbrev pub added_of : Option Value → Option Value → Option Value
added_of none b = b
added_of (some _) b = none

abbrev pub changed_of : Option Value → Option Value → Option (Value × Value)
changed_of none b = none
changed_of (some a) none = none
changed_of (some a) (some b) = if equals a b then none else some (a, b)

-- the fields of one round, by the rounds' own key
lookup-diff_key :
    (j k : String) (a b : Option Value) (d : FieldDiff)
    → (lookup j (diff_key k a b d).added
        ≡ (if j == k && is_some (added_of a b) then added_of a b else lookup j d.added))
      × (lookup j (diff_key k a b d).removed
          ≡ (if j == k && is_some (added_of b a) then added_of b a else lookup j d.removed))
      × (lookup j (diff_key k a b d).changed
          ≡ (if j == k && is_some (changed_of a b) then changed_of a b else lookup j d.changed))
unfolding diff_key
lookup-diff_key j k none none d = ground arith
lookup-diff_key j k none (some b) d = ground (arith, lookup-insert j k b d.added)
lookup-diff_key j k (some a) none d = ground (arith, lookup-insert j k a d.removed)
lookup-diff_key j k (some a) (some b) d = ground (arith, lookup-insert j k (a, b) d.changed)

-- Under a key that the loop visits, or that the diff holds already, the diff says what the two
-- dicts have there.
record Says (j : String) (a b : Dict String Value) (d : FieldDiff) : Type 0 where
  added : lookup j d.added ≡ added_of (lookup j a) (lookup j b)
  removed : lookup j d.removed ≡ added_of (lookup j b) (lookup j a)
  changed : lookup j d.changed ≡ changed_of (lookup j a) (lookup j b)

record Silent (j : String) (d : FieldDiff) : Type 0 where
  added : lookup j d.added ≡ none
  removed : lookup j d.removed ≡ none
  changed : lookup j d.changed ≡ none

diff_keys-Says :
    (j : String) (ks : List String) (a b : Dict String Value) (d : FieldDiff)
    → Says j a b d ⊎ (Silent j d × (contains ks j ≡ true))
    → Says j a b (diff_keys ks a b d)
unfolding diff_keys
diff_keys-Says j [] a b d (inl h) = h
diff_keys-Says j [] a b d (inr (_, m)) = cc m
diff_keys-Says j (k ∷ ks) a b d h =
    diff_keys-Says j ks a b (diff_key k (lookup k a) (lookup k b) d) (next h)
  where
    next :
        Says j a b d ⊎ (Silent j d × (contains (k ∷ ks) j ≡ true))
        → Says j a b (diff_key k (lookup k a) (lookup k b) d)
          ⊎ (Silent j (diff_key k (lookup k a) (lookup k b) d) × (contains ks j ≡ true))
    next (inl s) = inl (ground (arith, lookup-diff_key j k (lookup k a) (lookup k b) d))
    next (inr (s, m)) = elim (Bool-cases (j == k)) [
      | inl same ↦ inl (ground (arith, lookup-diff_key j k (lookup k a) (lookup k b) d))
      | inr other ↦ inr (ground (arith, lookup-diff_key j k (lookup k a) (lookup k b) d))
    ]

-- a key that neither list of keys has is in neither dict, and no round writes it
Silent-key :
    (j : String) (ks : List String) (a b : Dict String Value) (d : FieldDiff)
    → Silent j d
    → contains ks j ≡ false
    → Silent j (diff_keys ks a b d)
unfolding diff_keys
Silent-key j [] a b d h m = h
Silent-key j (k ∷ ks) a b d h m =
    Silent-key j ks a b (diff_key k (lookup k a) (lookup k b) d)
      (ground (arith, lookup-diff_key j k (lookup k a) (lookup k b) d)) (ground arith)

contains-keys : (j : String) (a : Dict String Value) → contains (keys a) j ≡ has_key j a
unfolding lookup
contains-keys j [] = refl
contains-keys j ((k, v) ∷ a) = ground (arith, contains-keys j a)

contains-all_keys :
    (j : String) (ks : List String) (a b : Dict String Value)
    → contains (ks ++ select (λ k. not (has_key k a)) (keys b)) j
      ≡ (contains ks j || not (has_key j a) && has_key j b)
unfolding lookup
contains-all_keys j [] a [] = ground arith
contains-all_keys j [] a ((k, v) ∷ b) = ground (arith, contains-all_keys j [] a b)
contains-all_keys j (k ∷ ks) a b = ground (arith, contains-all_keys j ks a b)

absent_key :
    (j : String) (a b : Dict String Value) {d : FieldDiff}
    → Silent j d
    → has_key j a ≡ false
    → has_key j b ≡ false
    → Says j a b d
absent_key j a b h not_a not_b = elim (Option-cases (lookup j a)) [
  | inl e ↦ elim (Option-cases (lookup j b)) [ inl f ↦ ground arith | inr (v, f) ↦ ground arith ]
  | inr (v, e) ↦ ground arith
]

compute_field_diff-Says :
    (j : String) (a b : Dict String Value) → Says j a b (compute_field_diff a b)
unfolding compute_field_diff
compute_field_diff-Says j a b =
    let visited = contains-all_keys j (keys a) a b in
    let of_a = contains-keys j a in
    elim (Bool-cases (contains (keys a ++ select (λ k. not (has_key k a)) (keys b)) j)) [
      | inl visits ↦ diff_keys-Says j _ a b no_diff (inr (unfold lookup in ground arith, visits))
      | inr skips ↦
          absent_key j a b (Silent-key j _ a b no_diff (unfold lookup in ground arith) skips)
            (ground arith) (ground arith)
    ]

-- The diff of two dicts says of every key what the two have under it: a key is added with its new
-- value where only the second has it, removed with its old value where only the first has it,
-- changed with both values where they differ by the equality of
-- Python, and in none of the three otherwise.
pub lookup-compute_field_diff :
    (j : String) (a b : Dict String Value)
    → (lookup j (compute_field_diff a b).added ≡ added_of (lookup j a) (lookup j b))
      × (lookup j (compute_field_diff a b).removed ≡ added_of (lookup j b) (lookup j a))
      × (lookup j (compute_field_diff a b).changed ≡ changed_of (lookup j a) (lookup j b))
lookup-compute_field_diff j a b =
    let s = compute_field_diff-Says j a b in (s.added, s.removed, s.changed)
