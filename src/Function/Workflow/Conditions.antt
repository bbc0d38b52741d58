-- ===== src/Function/Workflow/Conditions.antt =====
-- function/workflows/engine.py: conditions of edges and of nodes, as texts.
use lingshu_round.Prelude.{
  ◌-◌, String, Bool, true, false, ◌&&◌, ◌||◌, Option, none, some, List, [], ◌∷◌, if◌then◌else◌,
  ◌==◌, string_eq, nat_eq, starts_with,
}
use lingshu_round.Prelude.Dict.{Dict}
use lingshu_round.Prelude.Text.{characters, prefix, suffix}
use lingshu_round.Prelude.Value.{Value, null, bool, text, object, Fields, end, field, truthy}
use lingshu_round.Data.EditLog.{fields_of}
use Prim.Native.Char.{Char, code}

-- the operators of `_CONDITION_OPS`
pub data Comparison : Type 0 where
  equal : Comparison
  unequal : Comparison
  above : Comparison
  at_least : Comparison
  below : Comparison
  at_most : Comparison

abbrev pub symbol : Comparison → String
symbol equal = "=="
symbol unequal = "!="
symbol above = ">"
symbol at_least = ">="
symbol below = "<"
symbol at_most = "<="

-- the longer ones first
abbrev pub by_length : List Comparison
by_length = equal ∷ unequal ∷ at_least ∷ at_most ∷ above ∷ below ∷ []

-- What is taken of the language: methods of texts that know Unicode, numbers, where floats arise, and
-- comparisons, which raise for values of
-- types that have no order; the texts of the exceptions.
pub record Python : Type 0 where
  pub strip : String → String
  pub lower : String → String
  pub int : String → Option Value
  pub float : String → Option Value
  pub is_number : Value → Bool
  pub compares : Comparison → Value → Value → Option Bool
  pub str : Value → String
  pub type_error : String
  pub value_error : String

abbrev begin_part : Char → List String → List String
begin_part c [] = String.◌∷◌ c "" ∷ []
begin_part c (part ∷ parts) =
    if code c == b'.' then "" ∷ part ∷ parts else String.◌∷◌ c part ∷ parts

-- `path.split(".")`
unfoldable pub split_dots : String → List String
split_dots String.[] = "" ∷ []
split_dots (String.◌∷◌ c s) = begin_part c (split_dots s)

abbrev pub get : String → Fields → Value
get k end = null
get k (field j v fs) = if k == j then v else get k fs

unfoldable pub walk : List String → Value → Value
walk [] v = v
walk (part ∷ parts) (object fs) = walk parts (get part fs)
walk (part ∷ parts) _ = null

-- `_resolve_value`
unfoldable pub resolve_value : String → Dict String Value → Value
unfolding walk split_dots
resolve_value path context = walk (split_dots path) (object (fields_of context))

abbrev after : Char → Option (String × String) → Option (String × String)
after c none = none
after c (some (left, right)) = some (String.◌∷◌ c left, right)

-- `expr.split(op_str, 1)`, where the text has the operator
unfoldable pub split_once : String → String → Option (String × String)
split_once op String.[] = none
split_once op (String.◌∷◌ c s) =
    if starts_with (String.◌∷◌ c s) op
    then some ("", suffix (characters op) (String.◌∷◌ c s))
    else after c (split_once op s)

module _ (P : Python) where
  abbrev quoted_by : String → String → Bool
  quoted_by quote raw = starts_with raw quote && suffix (characters raw - 1) raw == quote

  abbrev unquoted : String → Value
  unquoted raw =
      if quoted_by "'" raw || quoted_by "\"" raw
      then text (prefix (characters raw - 2) (suffix 1 raw))
      else text raw

  abbrev as_float : String → Option Value → Value
  as_float raw none = unquoted raw
  as_float raw (some v) = v

  abbrev as_int : String → Option Value → Value
  as_int raw none = as_float raw (P.float raw)
  as_int raw (some v) = v

  -- `_resolve_literal`
  unfoldable pub resolve_literal : String → Value
  resolve_literal raw =
      if P.lower raw == "true"
      then bool true
      else if P.lower raw == "false"
      then bool false
      else as_int raw (P.int raw)

  abbrev compared : Comparison → String × String → Dict String Value → Option Bool
  compared op (left, right) context =
      P.compares op (resolve_value (P.strip left) context) (resolve_literal (P.strip right))

  -- the first operator that occurs, or else the value of a path
  unfoldable pub by_operator : List Comparison → String → Dict String Value → Option Bool
  unfolding split_once resolve_value resolve_literal
  by_operator [] expr context = some (truthy (resolve_value expr context))
  by_operator (op ∷ ops) expr context = elim (split_once (symbol op) expr) [
    | none ↦ by_operator ops expr context
    | some parts ↦ compared op parts context
  ]

  -- `none` is the exception of a comparison
  unfoldable pub evaluate_condition : String → Dict String Value → Option Bool
  unfolding by_operator
  evaluate_condition expression context =
      let expr = P.strip expression in
      if P.lower expr == "true"
      then some true
      else if P.lower expr == "false"
      then some false
      else by_operator by_length expr context
