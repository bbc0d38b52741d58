-- ===== src/Function/Actions.antt =====
-- function/actions/loader.py: the definition of an action as it is read from its node. A field is
-- `none` where the dict may lack its key.
use lingshu_round.Prelude.{
  String, Option, none, some, List, [], if◌then◌else◌, ◌==◌, string_eq, Bool, false, ◌∷◌,
}
use lingshu_round.Prelude.Dict.{Dict}
use lingshu_round.Prelude.Value.{Value, bool, text}
use lingshu_round.Infra.Errors.{app_error, function_not_found}
use lingshu_round.Infra.Exec.{Result, ok, err}

-- an entry of `field_mappings`
pub record FieldMapping : Type 0 where
  pub target_field : String
  pub source : Option String
  pub value : Option Value

-- an entry of `outputs`
pub record Output : Type 0 where
  pub name : Option String
  pub target_param : Option String
  pub operation : Option String
  pub writeback : Option Bool
  pub field_mappings : Option (List FieldMapping)

-- an entry of `parameters`
pub record ParamDef : Type 0 where
  pub api_name : String
  pub required : Option Bool
  pub definition_source : Option String
  pub type_rid : Option String

-- the configuration of one engine
pub record EngineConfig : Type 0 where
  pub outputs : Option (List Output)
  pub settings : Dict String Value

pub record ExecutionConfig : Type 0 where
  pub type : Option String
  pub native_crud_json : Option EngineConfig
  pub python_script : Option EngineConfig
  pub sql_template : Option EngineConfig
  pub webhook_config_json : Option EngineConfig

-- the node that the ontology service gives
pub record ActionNode : Type 0 where
  pub api_name : Option String
  pub display_name : Option String
  pub execution : Option ExecutionConfig
  pub safety_level : Option String
  pub side_effects : Option (List (Dict String Value))
  pub parameters : Option (List ParamDef)

pub record ActionDefinition : Type 0 where
  pub rid : String
  pub api_name : String
  pub display_name : String
  pub parameters : List ParamDef
  pub execution : ExecutionConfig
  pub outputs : List Output
  pub safety_level : String
  pub side_effects : List (Dict String Value)

-- `d.get(key, default)`
abbrev pub or_default {ℓ} : {A : Type ℓ} → Option A → A → A
or_default none default = default
or_default (some a) default = a

-- `{}` where a configuration is expected
abbrev pub no_config : EngineConfig
no_config = record { outputs = none; settings = [] }

abbrev pub no_execution : ExecutionConfig
no_execution = record {
  type = none;
  native_crud_json = none;
  python_script = none;
  sql_template = none;
  webhook_config_json = none;
}

pub data Engine : Type 0 where
  native_crud python_venv sql_runner webhook : Engine

-- the keys of `config_key_map`
unfoldable pub engine_of : String → Option Engine
engine_of exec_type =
    if exec_type == "native_crud"
    then some native_crud
    else if exec_type == "python_venv"
    then some python_venv
    else if exec_type == "sql_runner"
    then some sql_runner
    else if exec_type == "webhook"
    then some webhook
    else none

-- `execution.get(config_key, {})`
unfoldable pub config_of : Engine → ExecutionConfig → EngineConfig
config_of native_crud e = or_default e.native_crud_json no_config
config_of python_venv e = or_default e.python_script no_config
config_of sql_runner e = or_default e.sql_template no_config
config_of webhook e = or_default e.webhook_config_json no_config

unfoldable pub extract_outputs : ExecutionConfig → List Output
unfolding engine_of config_of
extract_outputs execution = elim (engine_of (or_default execution.type "")) [
  | none ↦ []
  | some engine ↦ or_default (config_of engine execution).outputs []
]

abbrev pub definition_of : String → ActionNode → ActionDefinition
definition_of rid node =
    let execution = or_default node.execution no_execution in
    record {
      rid = rid;
      api_name = or_default node.api_name "";
      display_name = or_default node.display_name "";
      parameters = or_default node.parameters [];
      execution = execution;
      outputs = extract_outputs execution;
      safety_level = or_default node.safety_level "SAFETY_READ_ONLY";
      side_effects = or_default node.side_effects [];
    }

-- `ActionLoader.load`, over what the ontology service gives for a rid and a tenant
unfoldable pub load :
    (String → String → Option ActionNode) → String → String → Result ActionDefinition
unfolding extract_outputs
load get_object_type tenant_id action_type_rid = elim (get_object_type action_type_rid tenant_id) [
  | none ↦ err (app_error function_not_found)
  | some node ↦ ok (definition_of action_type_rid node)
]

-- an output as the dict that the safety check reads
abbrev text_entry : String → Option String → Dict String Value → Dict String Value
text_entry key none d = d
text_entry key (some t) d = (key, text t) ∷ d

abbrev flag_entry : String → Option Bool → Dict String Value → Dict String Value
flag_entry key none d = d
flag_entry key (some b) d = (key, bool b) ∷ d

abbrev pub output_dict : Output → Dict String Value
output_dict o = text_entry "name" o.name (
    text_entry "target_param" o.target_param
      (text_entry "operation" o.operation (flag_entry "writeback" o.writeback [])))

-- `output.get("writeback", False)`
abbrev pub writes_back : Output → Bool
writes_back o = or_default o.writeback false
