-- ===== src/Data/Masking/Laws.antt =====
-- What masking makes of each cell, and what the strategies let through.
use lingshu_round.Prelude.{
  ℕ, ◌+◌, ◌-◌, ◌<◌, String, ◌<>◌, ◌≡◌, refl, ◌∙◌, ap, sym, subst, Bool, true, false, not, ◌&&◌,
  Option, none, some, List, [], ◌∷◌, arith, if◌then◌else◌, ◌==◌, string_eq, Option-cases, inl, inr,
}
use lingshu_round.Prelude.Dict.{
  Dict, lookup, is_dict, lookup-nil, lookup-cons, lookup-insert, absent, is_dict-insert,
}
use lingshu_round.Prelude.Text.{
  characters, prefix, suffix, characters-append, prefix-append, suffix-append, append_assoc,
}
use lingshu_round.Prelude.Value.{Value, null, bool, num, text, array, object, is_null}
use lingshu_round.Data.Merge.{Row}
use lingshu_round.Data.Masking.{
  PropertyType, add_rule, add_rules, build_masking_rules, mask_value, mask_field, mask_row,
  show_last_4, mask_phone_middle,
}

add_rule-is_dict :
    (pt : PropertyType) (rules : Dict String String)
    → is_dict rules ≡ true
    → is_dict (add_rule pt rules) ≡ true
add_rule-is_dict pt rules h = elim (Option-cases pt.compliance) [
  | inl e ↦ rw e h
  | inr (c, e) ↦ rw e (ground (arith, is_dict-insert pt.api_name c.masking_strategy rules))
]

add_rules-is_dict :
    (pts : List PropertyType) (rules : Dict String String)
    → is_dict rules ≡ true
    → is_dict (add_rules pts rules) ≡ true
unfolding add_rules
add_rules-is_dict [] rules h = h
add_rules-is_dict (pt ∷ pts) rules h = add_rules-is_dict pts _ (add_rule-is_dict pt rules h)

pub build_masking_rules-is_dict :
    (pts : List PropertyType) → is_dict (build_masking_rules pts) ≡ true
unfolding build_masking_rules
build_masking_rules-is_dict pts = add_rules-is_dict pts [] refl

-- a strategy that lets nothing of a value through
abbrev pub is_full : String → Bool
is_full strategy =
    not (strategy == "MASK_NONE")
    && not (strategy == "SHOW_LAST_4")
    && not (strategy == "MASK_PHONE_MIDDLE")

module _ (str : Value → String) where
  -- a cell of a row, under the rule for its field
  abbrev pub masked_cell : Option String → Option Value → Option Value
  masked_cell rule none = none
  masked_cell none (some v) = some v
  masked_cell (some strategy) (some v) = some (mask_value str v strategy)

  lookup-mask_field :
      (k field strategy : String) (row : Row)
      → lookup k (mask_field str field strategy row)
        ≡ (if k == field then masked_cell (some strategy) (lookup field row) else lookup k row)
  lookup-mask_field k field strategy row = elim (Option-cases (lookup field row)) [
    | inl e ↦ ground arith
    | inr (v, e) ↦ ground (arith, lookup-insert k field (mask_value str v strategy) row)
  ]

  -- Each cell is masked by the rule for its field.
  pub lookup-mask_row :
      (k : String) (rules : Dict String String) (row : Row)
      → is_dict rules ≡ true
      → lookup k (mask_row str rules row) ≡ masked_cell (lookup k rules) (lookup k row)
  unfolding mask_row
  lookup-mask_row k [] row h =
      ground (arith, lookup-nil {V = String} k, Option-cases (lookup k row))
  lookup-mask_row k ((field, strategy) ∷ rules) row h = ground (
    arith,
    lookup-mask_row k rules (mask_field str field strategy row),
    lookup-mask_field k field strategy row,
    absent field rules,
    lookup-cons k field strategy rules,
  )

  full_value :
      (v : Value) (strategy : String)
      → is_full strategy ≡ true
      → is_null v ≡ false
      → mask_value str v strategy ≡ (if strategy == "MASK_NULLIFY" then null else text "***")
  unfolding mask_value
  full_value null strategy full given = ground arith
  full_value (bool b) strategy full given = ground arith
  full_value (num n) strategy full given = ground arith
  full_value (text s) strategy full given = ground arith
  full_value (array xs) strategy full given = ground arith
  full_value (object fs) strategy full given = ground arith

  -- A full strategy makes the same of any two values.
  pub mask_value_full :
      (v v' : Value) (strategy : String)
      → is_full strategy ≡ true
      → is_null v ≡ false
      → is_null v' ≡ false
      → mask_value str v strategy ≡ mask_value str v' strategy
  mask_value_full v v' strategy full given given' =
      full_value v strategy full given ∙ sym (full_value v' strategy full given')

  suffix_at : (n : ℕ) (s t : String) → characters s ≡ n → suffix n (s <> t) ≡ t
  suffix_at n s t e = subst (λ m. suffix m (s <> t) ≡ t) e (suffix-append s t)

  prefix_at : (n : ℕ) (s t : String) → characters s ≡ n → prefix n (s <> t) ≡ s
  prefix_at n s t e = subst (λ m. prefix m (s <> t) ≡ s) e (prefix-append s t)

  show_last_4_lem :
      (s last : String)
      → 4 < characters s
      → suffix (characters s - 4) s ≡ last
      → show_last_4 s ≡ "***" <> last
  show_last_4_lem s last long e = ground arith

  mask_phone_middle_lem :
      (s start last : String)
      → 6 < characters s
      → prefix 3 s ≡ start
      → suffix (characters s - 4) s ≡ last
      → mask_phone_middle s ≡ start <> ("****" <> last)
  mask_phone_middle_lem s start last long e e' = ground arith

  -- Of a text of at least seven characters `SHOW_LAST_4` shows the last four, and
  -- `MASK_PHONE_MIDDLE` the first three and the last four, all between being hidden.
  pub mask_value_shows :
      (start middle last : String)
      → characters start ≡ 3
      → characters last ≡ 4
      → (mask_value str (text (start <> (middle <> last))) "SHOW_LAST_4" ≡ text ("***" <> last))
        × (mask_value str (text (start <> (middle <> last))) "MASK_PHONE_MIDDLE"
            ≡ text (start <> ("****" <> last)))
  unfolding mask_value string_eq
  mask_value_shows start middle last three four =
      let total : characters (start <> (middle <> last)) ≡ 7 + characters middle =
        omega (arith, characters-append start (middle <> last), characters-append middle last) in
      let tail =
        suffix_at (characters (start <> (middle <> last)) - 4) (start <> middle) last
          (omega (arith, characters-append start middle)) in
      let whole = append_assoc start middle last in
      let shown =
        subst (λ r. suffix (characters (start <> (middle <> last)) - 4) r ≡ last) whole tail in
      (
        ap text (show_last_4_lem _ last (omega arith) shown),
        ap text (
            mask_phone_middle_lem _ start last (omega arith)
              (prefix_at 3 start (middle <> last) three) shown),
      )
