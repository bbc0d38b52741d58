-- ===== src/Data/Masking.antt =====
-- data/pipeline/masking.py: what the compliance rules leave of a value.
pub mod Laws
use lingshu_round.Prelude.{
  ℕ, ◌-◌, String, ◌<>◌, Bool, true, false, not, ◌&&◌, Option, none, some, List, [], ◌∷◌, map,
  if◌then◌else◌, ◌==◌, string_eq, leb, is_empty,
}
use lingshu_round.Prelude.Dict.{Dict, lookup, insert}
use lingshu_round.Prelude.Text.{characters, prefix, suffix}
use lingshu_round.Prelude.Value.{Value, null, bool, num, text, array, object, truthy}
use lingshu_round.Data.Merge.{Row}

-- the `compliance` of a property type; its values have their defaults where they are missing
pub record Compliance : Type 0 where
  pub sensitivity : String
  pub masking_strategy : String

-- a property type, as far as the data layer reads it
pub record PropertyType : Type 0 where
  pub api_name : String
  pub physical_column : Option String
  pub virtual_expression : Option String
  pub compliance : Option Compliance

-- `sensitivity != "PUBLIC" and strategy != "MASK_NONE"`
abbrev pub is_masked : Option Compliance → Bool
is_masked none = false
is_masked (some c) = not (c.sensitivity == "PUBLIC") && not (c.masking_strategy == "MASK_NONE")

abbrev pub add_rule : PropertyType → Dict String String → Dict String String
add_rule pt rules = elim pt.compliance [
  | none ↦ rules
  | some c ↦ if is_masked (some c) then insert pt.api_name c.masking_strategy rules else rules
]

unfoldable pub add_rules : List PropertyType → Dict String String → Dict String String
add_rules [] rules = rules
add_rules (pt ∷ pts) rules = add_rules pts (add_rule pt rules)

unfoldable pub build_masking_rules : List PropertyType → Dict String String
unfolding add_rules
build_masking_rules pts = add_rules pts []

abbrev pub show_last_4 : String → String
show_last_4 s = if leb (characters s) 4 then "***" else "***" <> suffix (characters s - 4) s

abbrev pub mask_phone_middle : String → String
mask_phone_middle s =
    if leb 7 (characters s) then prefix 3 s <> ("****" <> suffix (characters s - 4) s) else "***"

-- `str` of a value that is no text
module _ (str : Value → String) where
  abbrev pub as_text : Value → String
  as_text (text s) = s
  as_text v = str v

  -- the strategies, for a value that is not `None`
  abbrev pub masked_by : String → Value → Value
  masked_by strategy v =
      if strategy == "MASK_NONE"
      then v
      else if strategy == "MASK_NULLIFY"
      then null
      else if strategy == "MASK_REDACT_FULL"
      then text "***"
      else if strategy == "SHOW_LAST_4"
      then text (show_last_4 (as_text v))
      else if strategy == "MASK_PHONE_MIDDLE"
      then text (mask_phone_middle (as_text v))
      else text "***"

  unfoldable pub mask_value : Value → String → Value
  mask_value null strategy = null
  mask_value (bool b) strategy = masked_by strategy (bool b)
  mask_value (num n) strategy = masked_by strategy (num n)
  mask_value (text s) strategy = masked_by strategy (text s)
  mask_value (array xs) strategy = masked_by strategy (array xs)
  mask_value (object fs) strategy = masked_by strategy (object fs)

  abbrev pub mask_field : String → String → Row → Row
  mask_field field strategy row = elim (lookup field row) [
    | none ↦ row
    | some v ↦ insert field (mask_value v strategy) row
  ]

  -- the loop over the rules, for one row
  unfoldable pub mask_row : Dict String String → Row → Row
  mask_row [] row = row
  mask_row ((field, strategy) ∷ rules) row = mask_row rules (mask_field field strategy row)

  unfoldable pub apply_masking : List Row → Dict String String → List Row
  apply_masking rows rules = if is_empty rules then rows else map (mask_row rules) rows
