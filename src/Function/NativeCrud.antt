-- ===== src/Function/NativeCrud.antt =====
-- function/actions/engines/base.py and native_crud.py: the declarative engine, which computes
-- field values and writes nothing.
use Prim.Native.Char.{code}
use lingshu_round.Prelude.{
  String, Option, none, some, List, [], ◌∷◌, if◌then◌else◌, ◌==◌, string_eq, nat_eq,
}
use lingshu_round.Prelude.Dict.{Dict, lookup, insert, keys}
use lingshu_round.Prelude.Value.{Value, Items, null, text, array, nil, cons, value_eq, is_null}
use lingshu_round.Function.Actions.{FieldMapping, Output, EngineConfig, or_default}
use lingshu_round.Function.Params.{Instance}

pub record EngineResult : Type 0 where
  pub data_value : Dict String Value
  pub computed_values : Dict String (Dict String Value)

-- `source.split(".", 1)`: the part before the first point, and the rest if there is one
unfoldable pub split_dot : String → String × Option String
split_dot String.[] = (String.[], none)
split_dot (String.◌∷◌ c s) =
    let (head, tail) = split_dot s in
    if code c == 46 then (String.[], some s) else (String.◌∷◌ c head, tail)

-- `d.get(key)`, with `None` for a missing key
abbrev pub value_or_null : Option Value → Value
value_or_null none = null
value_or_null (some v) = v

abbrev pub instance_field :
    String → Option String → Dict String Value → Dict String Instance → Value
instance_field param_name none params instances = value_or_null (lookup param_name params)
instance_field param_name (some field_name) params instances = elim (lookup param_name instances) [
  | none ↦ value_or_null (lookup param_name params)
  | some i ↦ value_or_null (lookup field_name i)
]

unfoldable pub resolve_source : String → Dict String Value → Dict String Instance → Value
unfolding split_dot
resolve_source source params instances =
    let (param_name, field_name) = split_dot source in
    instance_field param_name field_name params instances

abbrev texts : List String → Items
texts [] = nil
texts (s ∷ ss) = cons (text s) (texts ss)

-- the time of the request as `isoformat` writes it, and its user
module _ (iso_now : String) (user_id : String) where
  unfoldable pub resolve_builtin : Value → Value
  resolve_builtin v =
      if v == text "$NOW" then text iso_now else if v == text "$USER" then text user_id else v

  -- a value that is `None` counts as missing
  abbrev pub constant_of : Option Value → Option Value
  constant_of none = none
  constant_of (some v) = if is_null v then none else some v

  abbrev pub mapped_value : FieldMapping → Dict String Value → Dict String Instance → Option Value
  mapped_value mapping params instances = elim (constant_of mapping.value) [
    | some v ↦ some (resolve_builtin v)
    | none ↦ elim mapping.source [
      | none ↦ none
      | some source ↦ some (resolve_source source params instances)
    ]
  ]

  abbrev set_if : String → Option Value → Dict String Value → Dict String Value
  set_if key none d = d
  set_if key (some v) d = insert key v d

  unfoldable pub mappings_from :
      List FieldMapping
      → Dict String Value
      → Dict String Instance
      → Dict String Value
      → Dict String Value
  unfolding resolve_builtin resolve_source
  mappings_from [] params instances result = result
  mappings_from (m ∷ ms) params instances result =
      mappings_from ms params instances
        (set_if m.target_field (mapped_value m params instances) result)

  unfoldable pub resolve_field_mappings :
      List FieldMapping → Dict String Value → Dict String Instance → Dict String Value
  unfolding mappings_from
  resolve_field_mappings ms params instances = mappings_from ms params instances []

  unfoldable pub compute_outputs :
      List Output
      → Dict String Value
      → Dict String Instance
      → Dict String (Dict String Value)
      → Dict String (Dict String Value)
  unfolding resolve_field_mappings
  compute_outputs [] params instances computed = computed
  compute_outputs (o ∷ os) params instances computed = compute_outputs os params instances (
      insert (or_default o.name "")
        (resolve_field_mappings (or_default o.field_mappings []) params instances) computed)

  -- `NativeCRUDEngine.execute`
  unfoldable pub execute : EngineConfig → Dict String Value → Dict String Instance → EngineResult
  unfolding compute_outputs
  execute config params instances =
      let computed = compute_outputs (or_default config.outputs []) params instances [] in
      record {
        data_value = ("outputs", array (texts (keys computed))) ∷ [];
        computed_values = computed;
      }
