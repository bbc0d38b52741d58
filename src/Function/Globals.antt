-- ===== src/Function/Globals.antt =====
-- function/globals/executor.py and function/globals/builtins.py: a global function runs as a built-in
-- one, as a script or as a webhook, by the type of its implementation.
use lingshu_round.Prelude.{
  String, ◌<>◌, Bool, false, none, some, List, [], ◌∷◌, if◌then◌else◌, ◌==◌, string_eq,
}
use lingshu_round.Prelude.Dict.{Dict, lookup, erase}
use lingshu_round.Prelude.Value.{Value, Fields, text, num, object, end, field, array}
use lingshu_round.Infra.Errors.{app_error, function_execution_failed, common_internal_error}
use lingshu_round.Infra.Exec.{Exec, pure, raise}
use lingshu_round.Data.Query.{Filter, eq}

-- The other services, and the engines that run outside of the program, over a state of their own.
pub record Backends : Type 1 where
  pub Outside : Type 0
  pub query_instances : Value → String → List Filter → Value → Value → Exec Outside Value
  pub get_instance : Value → String → Value → Exec Outside Value
  pub get_object_type : Value → String → Exec Outside Value
  pub get_link_type : Value → String → Exec Outside Value
  pub str : Value → String
  -- the `data` of the result of an engine, for its configuration and parameters
  pub run_python : Dict String Value → Dict String Value → Exec Outside Value
  pub run_webhook : Dict String Value → Dict String Value → Exec Outside Value

-- `d.get(k, default)`
abbrev pub get_or : String → Value → Dict String Value → Value
get_or k default d = elim (lookup k d) [ none ↦ default | some v ↦ v ]

-- one filter for equality for each field of a dict
abbrev equal_filters : Fields → List Filter
equal_filters end = []
equal_filters (field k v fs) = record { field = k; operator = eq; value = v } ∷ equal_filters fs

abbrev filters_of : Value → List Filter
filters_of (object fs) = equal_filters fs
filters_of _ = []

abbrev message : String → String → Value
message k s = object (field k (text s) end)

abbrev config_of_script : Dict String Value → Dict String Value
config_of_script implementation =
    ("script", get_or "script" (text "") implementation)
    ∷ ("timeout", get_or "timeout" (num 30) implementation)
    ∷ []

abbrev is_text : String → Value → Bool
is_text s (text t) = t == s
is_text s _ = false

module _ (B : Backends) where
  -- `BuiltinFunctions.execute`; a list or a dict cannot be looked up
  unfoldable pub execute_builtin : Value → Dict String Value → String → Exec B.Outside Value
  execute_builtin handler params tenant_id = elim handler [
    | text name ↦
        if name == "query_instances"
        then B.query_instances (get_or "object_type_rid" (text "") params) tenant_id
            (filters_of (get_or "filters" (object end) params)) (get_or "offset" (num 0) params)
            (get_or "limit" (num 100) params)
        else if name == "get_instance"
        then B.get_instance (get_or "type_rid" (text "") params) tenant_id
            (get_or "primary_key" (object end) params)
        else if name == "list_object_types"
        then pure (message "message" "list_object_types not yet fully implemented")
        else if name == "list_link_types"
        then pure (message "message" "list_link_types not yet fully implemented")
        else if name == "get_object_type"
        then B.get_object_type (get_or "rid" (text "") params) tenant_id
        else if name == "get_link_type"
        then B.get_link_type (get_or "rid" (text "") params) tenant_id
        else pure (message "error" ("Unknown builtin handler: " <> name))
    | array xs ↦ raise (app_error common_internal_error)
    | object fs ↦ raise (app_error common_internal_error)
    | v ↦ pure (message "error" ("Unknown builtin handler: " <> B.str v))
  ]

  -- `GlobalFunctionExecutor.execute`
  unfoldable pub execute : Dict String Value → Dict String Value → String → Exec B.Outside Value
  unfolding execute_builtin
  execute implementation params tenant_id =
      let type = get_or "type" (text "") implementation in
      if is_text "builtin" type
      then execute_builtin (get_or "handler" (text "") implementation) params tenant_id
      else if is_text "python" type
      then B.run_python (config_of_script implementation) params
      else if is_text "webhook" type
      then B.run_webhook (erase "type" implementation) params
      else raise (app_error function_execution_failed)
