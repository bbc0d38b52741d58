-- ===== src/Data/Virtual/Reads.antt =====
-- A virtual field depends only on the fields that its expression names.
use lingshu_round.Prelude.{
  String, ◌≡◌, refl, ap, Bool, true, false, not, ◌&&◌, ◌||◌, Option, none, some, List, [], ◌∷◌, map,
  arith, ◌==◌, string_eq,
}
use lingshu_round.Prelude.Dict.{Dict, lookup, insert, has_key, lookup-insert, lookup-cons}
use lingshu_round.Prelude.Value.{Value}
use lingshu_round.Data.Merge.{Row}
use lingshu_round.Data.Virtual.{
  Expr, constant, name, bin_op, unary_minus, call, unsupported, Args, no_args, arg, Language,
  or_null, apply_minus, call_with, eval_parsed, eval_node, eval_args, evaluate_expression, enrich,
  apply_virtual_fields,
}

-- the expression names the field
unfoldable mutual
  pub reads : String → Expr → Bool
  reads field (constant v) = false
  reads field (name n) = n == field
  reads field (bin_op op l r) = reads field l || reads field r
  reads field (unary_minus e) = reads field e
  reads field (call f args) = reads_args field args
  reads field unsupported = false

  pub reads_args : String → Args → Bool
  reads_args field no_args = false
  reads_args field (arg e es) = reads field e || reads_args field es

module _ (P : Language) where
  abbrev reads_parsed : String → Option Expr → Bool
  reads_parsed field none = false
  reads_parsed field (some e) = reads field e

  -- no expression names the field
  abbrev pub none_reads : String → Dict String String → Bool
  none_reads field [] = true
  none_reads field ((_, expression) ∷ fields) =
      not (reads_parsed field (P.parse expression)) && none_reads field fields

  module _ (field : String) where
    -- the rows have the same cells but for the field
    abbrev pub Agree : Row → Row → Type 0
    Agree row row' = (k : String) → k == field ≡ false → lookup k row ≡ lookup k row'

    mutual
      unfolding reads reads_args eval_node eval_args

      eval_node-Agree :
          (e : Expr) (row row' : Row)
          → reads field e ≡ false
          → Agree row row'
          → eval_node P e row ≡ eval_node P e row'
      eval_node-Agree (constant v) row row' h agree = refl
      eval_node-Agree (name n) row row' h agree = ap (λ o. some (or_null P o)) (agree n h)
      eval_node-Agree (bin_op op l r) row row' h agree =
          let el = eval_node-Agree l row row' (ground arith) agree in
          let er = eval_node-Agree r row row' (ground arith) agree in rw (el, er) refl
      eval_node-Agree (unary_minus e) row row' h agree =
          ap (apply_minus P) (eval_node-Agree e row row' h agree)
      eval_node-Agree (call f args) row row' h agree =
          ap (call_with P f) (eval_args-Agree args row row' h agree)
      eval_node-Agree unsupported row row' h agree = refl

      eval_args-Agree :
          (es : Args) (row row' : Row)
          → reads_args field es ≡ false
          → Agree row row'
          → eval_args P es row ≡ eval_args P es row'
      eval_args-Agree no_args row row' h agree = refl
      eval_args-Agree (arg e es) row row' h agree =
          let el = eval_node-Agree e row row' (ground arith) agree in
          let er = eval_args-Agree es row row' (ground arith) agree in rw (el, er) refl

    eval_parsed-Agree :
        (parsed : Option Expr) (row row' : Row)
        → reads_parsed field parsed ≡ false
        → Agree row row'
        → eval_parsed P parsed row ≡ eval_parsed P parsed row'
    eval_parsed-Agree none row row' h agree = refl
    eval_parsed-Agree (some e) row row' h agree =
        ap (or_null P) (eval_node-Agree e row row' h agree)

    insert-Agree :
        (k : String) (v v' : Value) (row row' : Row)
        → v ≡ v'
        → Agree row row'
        → Agree (insert k v row) (insert k v' row')
    insert-Agree k v v' row row' e agree j other =
        ground (arith, agree j other, lookup-insert j k v row, lookup-insert j k v' row')

    -- The virtual fields are the same where the rows agree.
    pub enrich-Agree :
        (fields : Dict String String) (row row' : Row)
        → none_reads field fields ≡ true
        → Agree row row'
        → Agree (enrich P fields row) (enrich P fields row')
    unfolding enrich evaluate_expression
    enrich-Agree [] row row' h agree = agree
    enrich-Agree ((n, expression) ∷ fields) row row' h agree =
        enrich-Agree fields _ _ (ground arith) (
          insert-Agree n _ _ row row'
            (eval_parsed-Agree (P.parse expression) row row' (ground arith) agree) agree)

    -- A field that is not virtual keeps its value.
    pub lookup-enrich :
        (fields : Dict String String) (row : Row)
        → has_key field fields ≡ false
        → lookup field (enrich P fields row) ≡ lookup field row
    unfolding enrich
    lookup-enrich [] row h = refl
    lookup-enrich ((n, expression) ∷ fields) row h = ground (
      arith,
      lookup-enrich fields (insert n (evaluate_expression P expression row) row),
      lookup-insert field n (evaluate_expression P expression row) row,
      lookup-cons field n expression fields,
    )

  pub apply_virtual_fields_lem :
      (rows : List Row) (fields : Dict String String)
      → apply_virtual_fields P rows fields ≡ map (enrich P fields) rows
  unfolding apply_virtual_fields enrich
  apply_virtual_fields_lem [] [] = refl
  apply_virtual_fields_lem (row ∷ rows) [] = ap (λ r. row ∷ r) (apply_virtual_fields_lem rows [])
  apply_virtual_fields_lem rows (f ∷ fields) = refl
