-- ===== src/Function/Params.antt =====
-- function/actions/param_resolver.py: the parameters of an action from what the caller gave.
pub mod Laws
use lingshu_round.Prelude.{
  String, Bool, true, false, ◌||◌, Option, none, some, List, [], ◌∷◌, if◌then◌else◌, ◌==◌,
  string_eq,
}
use lingshu_round.Prelude.Dict.{Dict, lookup, insert}
use lingshu_round.Prelude.Value.{Value, Fields, object, text, end, field, is_null}
use lingshu_round.Infra.Errors.{
  app_error, function_param_invalid, function_param_instance_not_found,
}
use lingshu_round.Infra.Exec.{Result, ok, err, ◌>>=ʳ◌}
use lingshu_round.Function.Actions.{ParamDef, or_default}

-- an instance as the data service gives it
abbrev pub Instance : Type 0
Instance = Dict String Value

pub record ResolvedParams : Type 0 where
  pub values : Dict String Value
  pub instances : Dict String Instance

-- `raw_value.get(key)` on a dict
abbrev pub field_value : String → Fields → Option Value
field_value key end = none
field_value key (field k v rest) = if key == k then some v else field_value key rest

-- `raw_params.get(api_name)`, where a null counts as missing
abbrev pub given : String → Dict String Value → Option Value
given api_name raw = elim (lookup api_name raw) [
  | none ↦ none
  | some v ↦ if is_null v then none else some v
]

-- how a parameter says where its value comes from
abbrev pub is_derived : String → Bool
is_derived source =
    source == "derived_from_object_type_rid" || source == "derived_from_link_type_rid"

abbrev pub is_interface : String → Bool
is_interface source = source == "derived_from_interface_type_rid"

abbrev pub with_value : String → Value → ResolvedParams → ResolvedParams
with_value api_name v r = record r { values = insert api_name v r.values }

abbrev pub with_instance : String → Value → Instance → ResolvedParams → ResolvedParams
with_instance api_name v i r = record r {
  values = insert api_name v r.values;
  instances = insert api_name i r.instances;
}

-- `DataService.get_instance` for a type, a tenant and a primary key
module _ (get_instance : Value → String → Value → Result (Option Instance))
    (tenant_id : String) where
  unfoldable pub resolve_instance : Value → Value → Result Instance
  resolve_instance type_rid (object fields) =
      get_instance type_rid tenant_id
        (or_default (field_value "primary_key" fields) (object fields))
      >>=ʳ λ found. elim found [
        | none ↦ err (app_error function_param_instance_not_found)
        | some i ↦ ok i
      ]
  resolve_instance type_rid _ = err (app_error function_param_invalid)

  -- `raw_value["type_rid"]` of a dict that has it
  abbrev interface_type : Value → Option Value
  interface_type (object fields) = field_value "type_rid" fields
  interface_type _ = none

  -- one round of the loop for a parameter that has a value
  unfoldable pub resolve_given : ParamDef → Value → ResolvedParams → Result ResolvedParams
  unfolding resolve_instance
  resolve_given d v r =
      let source = or_default d.definition_source "explicit_type" in
      if is_derived source
      then (resolve_instance (text (or_default d.type_rid "")) v >>=ʳ λ i.
          ok (with_instance d.api_name v i r))
      else if is_interface source
      then elim (interface_type v) [
        | none ↦ err (app_error function_param_invalid)
        | some type_rid ↦ resolve_instance type_rid v >>=ʳ λ i. ok (with_instance d.api_name v i r)
      ]
      else ok (with_value d.api_name v r)

  -- one round of the loop
  unfoldable pub resolve_one : ParamDef → Dict String Value → ResolvedParams → Result ResolvedParams
  unfolding resolve_given
  resolve_one d raw r = elim (given d.api_name raw) [
    | none ↦ if or_default d.required false then err (app_error function_param_invalid) else ok r
    | some v ↦ resolve_given d v r
  ]

  unfoldable pub resolve_from :
      List ParamDef → Dict String Value → ResolvedParams → Result ResolvedParams
  unfolding resolve_one
  resolve_from [] raw r = ok r
  resolve_from (d ∷ ds) raw r = resolve_one d raw r >>=ʳ λ r'. resolve_from ds raw r'

  -- `ParamResolver.resolve`
  unfoldable pub resolve : List ParamDef → Dict String Value → Result ResolvedParams
  unfolding resolve_from
  resolve defs raw = resolve_from defs raw (record { values = []; instances = [] })
