-- ===== src/Data/Virtual.antt =====
-- data/pipeline/virtual_eval.py: virtual fields, whose expressions read the fields of their row.
pub mod Reads
use lingshu_round.Prelude.{
  ℕ, zero, String, ◌<>◌, Bool, true, false, not, Option, none, some, List, [], ◌∷◌, map,
  if◌then◌else◌, ◌==◌, string_eq, is_empty,
}
use lingshu_round.Prelude.Dict.{Dict, lookup, insert}
use lingshu_round.Prelude.Value.{Value, null, bool, num, text, array, object, truthy, is_null}
use lingshu_round.Data.Merge.{Row}

-- the binary operators of `ast`; all others are unsupported
pub data Operator : Type 0 where
  add : Operator
  sub : Operator
  mult : Operator
  div : Operator
  unsupported_operator : Operator

-- what `ast.parse` gives, as far as the evaluator tells it apart
mutual
  pub data Expr : Type 0 where
    constant : Value → Expr
    name : String → Expr
    bin_op : Operator → Expr → Expr → Expr
    unary_minus : Expr → Expr
    call : String → Args → Expr
    unsupported : Expr

  pub data Args : Type 0 where
    no_args : Args
    arg : Expr → Args → Args

-- What the evaluator takes of the language: the parser, and arithmetic on values, where floats arise
-- and which raises on values that are no numbers.
pub record Language : Type 0 where
  pub parse : String → Option Expr
  pub binary : Operator → Value → Value → Option Value
  pub negate : Value → Option Value
  pub absolute : Value → Option Value
  pub round : Value → Option Value → Option Value
  pub str : Value → String
  pub upper : String → String

module _ (P : Language) where
  abbrev str_of : Value → String
  str_of (text s) = s
  str_of v = P.str v

  -- `"".join(str(a) for a in args if a is not None)`
  unfoldable pub concat : List Value → String
  concat [] = ""
  concat (v ∷ vs) = let rest = concat vs in if is_null v then rest else str_of v <> rest

  -- `args[1] if len(args) > 1 and args[1] is not None`
  abbrev digits : List Value → Option Value
  digits [] = none
  digits (v ∷ vs) = if is_null v then none else some v

  abbrev call_if : List Value → Option Value
  call_if (c ∷ a ∷ b ∷ []) = some (if truthy c then a else b)
  call_if _ = some null

  abbrev call_abs : List Value → Option Value
  call_abs (v ∷ []) = if is_null v then some null else P.absolute v
  call_abs _ = some null

  abbrev call_round : List Value → Option Value
  call_round [] = some null
  call_round (v ∷ vs) = if is_null v then some null else P.round v (digits vs)

  -- `_call_builtin`; `none` is an exception
  unfoldable pub call_builtin : String → List Value → Option Value
  unfolding concat
  call_builtin func_name args =
      if func_name == "CONCAT"
      then some (text (concat args))
      else if func_name == "IF"
      then call_if args
      else if func_name == "ABS"
      then call_abs args
      else if func_name == "ROUND"
      then call_round args
      else some null

  abbrev pub or_null : Option Value → Value
  or_null none = null
  or_null (some v) = v

  abbrev pub apply_binary : Operator → Option Value → Option Value → Option Value
  apply_binary unsupported_operator (some l) (some r) = some null
  apply_binary op none r = none
  apply_binary op (some l) none = none
  apply_binary op (some l) (some r) =
      if is_null l then some null else if is_null r then some null else P.binary op l r

  abbrev pub apply_minus : Option Value → Option Value
  apply_minus none = none
  apply_minus (some v) = if is_null v then some null else P.negate v

  abbrev pub cons_value : Option Value → Option (List Value) → Option (List Value)
  cons_value none vs = none
  cons_value (some v) none = none
  cons_value (some v) (some vs) = some (v ∷ vs)

  abbrev pub call_with : String → Option (List Value) → Option Value
  call_with func_name none = none
  call_with func_name (some args) = call_builtin (P.upper func_name) args

  unfoldable mutual
    pub eval_node : Expr → Row → Option Value
    eval_node (constant v) row = some v
    eval_node (name n) row = some (or_null (lookup n row))
    eval_node (bin_op op l r) row = apply_binary op (eval_node l row) (eval_node r row)
    eval_node (unary_minus e) row = apply_minus (eval_node e row)
    eval_node (call f args) row = call_with f (eval_args args row)
    eval_node unsupported row = some null

    pub eval_args : Args → Row → Option (List Value)
    eval_args no_args row = some []
    eval_args (arg e es) row = cons_value (eval_node e row) (eval_args es row)

  abbrev pub eval_parsed : Option Expr → Row → Value
  eval_parsed none row = null
  eval_parsed (some e) row = or_null (eval_node e row)

  -- `None` for every exception
  unfoldable pub evaluate_expression : String → Row → Value
  unfolding eval_node eval_args
  evaluate_expression expression row = eval_parsed (P.parse expression) row

  -- the loop over the virtual fields: each sees those before it
  unfoldable pub enrich : Dict String String → Row → Row
  enrich [] row = row
  enrich ((field_name, expression) ∷ fields) row =
      enrich fields (insert field_name (evaluate_expression expression row) row)

  unfoldable pub apply_virtual_fields : List Row → Dict String String → List Row
  apply_virtual_fields rows fields = if is_empty fields then rows else map (enrich fields) rows
