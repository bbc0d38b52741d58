-- ===== src/Function/Workflow/Service.antt =====
-- function/workflows/service.py and function/workflows/repository.py: workflows over a table.
pub mod Levels
use lingshu_round.Prelude.{
  ℕ, String, ◌<>◌, Bool, true, false, not, ◌&&◌, ◌||◌, Option, none, some, List, [], ◌∷◌, length,
  select, find, ◌==◌, string_eq, is_some, if◌then◌else◌,
}
use lingshu_round.Prelude.Count.{count}
use lingshu_round.Prelude.Dict.{Dict, lookup}
use lingshu_round.Prelude.Page.{page, newest_first}
use lingshu_round.Prelude.Value.{Value, text}
use lingshu_round.Infra.Errors.{app_error, function_not_found}
use lingshu_round.Infra.Exec.{
  Exec, Result, ok, err, pure, gets, lift, require, raise_if, ◌>>=◌, ◌>>◌,
}
use lingshu_round.Infra.Table.{Table}
use lingshu_round.Function.Safety.{compute_safety_level}
use lingshu_round.Function.Registry.{Caller}
use lingshu_round.Function.Workflow.{WorkflowNode, WorkflowEdge}
use lingshu_round.Function.Workflow.Conditions.{Python}
use lingshu_round.Function.Workflow.Execution.{WorkflowDefinition, WorkflowResult, execute}

-- a row of `workflows`; its parameters and side effects are always empty
pub record Workflow : Type 0 where
  pub rid : String
  pub tenant_id : String
  pub api_name : String
  pub display_name : String
  pub description : Option String
  pub definition : WorkflowDefinition
  pub safety_level : String
  pub version : ℕ
  pub is_active : Bool
  pub created_at : ℕ
  pub updated_at : ℕ

-- what a request for a new workflow gives; its status is not used
pub record NewWorkflow : Type 0 where
  pub api_name : String
  pub display_name : String
  pub description : Option String
  pub nodes : List WorkflowNode
  pub edges : List WorkflowEdge
  pub status : String

-- the keys that an update gives; a description may be given as `None`
pub record WorkflowUpdate : Type 0 where
  pub display_name : Option String
  pub description : Option (Option String)
  pub status : Option String
  pub nodes : Option (List WorkflowNode)
  pub edges : Option (List WorkflowEdge)

abbrev level_or_default : Option Value → Option String
level_or_default none = some "SAFETY_READ_ONLY"
level_or_default (some (text level)) = some level
level_or_default (some v) = none

abbrev add_level : Option String → List String → List String
add_level none levels = levels
add_level (some level) levels = level ∷ levels

-- the levels that the nodes name in their mappings
unfoldable pub levels_of : List WorkflowNode → List String
levels_of [] = []
levels_of (n ∷ ns) =
    add_level (level_or_default (lookup "safety_level" n.input_mappings)) (levels_of ns)

unfoldable pub recompute_safety_level : WorkflowDefinition → String
unfolding levels_of compute_safety_level
recompute_safety_level d = compute_safety_level (levels_of d.nodes)

abbrev pub given_or {ℓ} : {A : Type ℓ} → Option A → A → A
given_or none old = old
given_or (some new) old = new

-- the fields that an update writes
pub record WorkflowFields : Type 0 where
  pub display_name : Option String
  pub description : Option (Option String)
  pub is_active : Option Bool
  pub definition : Option WorkflowDefinition

abbrev active_of : Option String → Option Bool
active_of none = none
active_of (some status) = some (status == "active")

-- the definition with the new nodes or edges, where some are given
abbrev new_definition : WorkflowUpdate → WorkflowDefinition → Option WorkflowDefinition
new_definition u d =
    if is_some u.nodes || is_some u.edges
    then some (record { nodes = given_or u.nodes d.nodes; edges = given_or u.edges d.edges })
    else none

abbrev fields_of : WorkflowUpdate → Workflow → WorkflowFields
fields_of u w = record {
  display_name = u.display_name;
  description = u.description;
  is_active = active_of u.status;
  definition = new_definition u w.definition;
}

-- the safety level is written with the definition
abbrev pub level_with : Option WorkflowDefinition → String → String
level_with none old = old
level_with (some d) old = recompute_safety_level d

abbrev pub apply_fields : WorkflowFields → ℕ → Workflow → Workflow
apply_fields u now w = record w {
  display_name = given_or u.display_name w.display_name;
  description = given_or u.description w.description;
  is_active = given_or u.is_active w.is_active;
  definition = given_or u.definition w.definition;
  safety_level = level_with u.definition w.safety_level;
  updated_at = now;
}

abbrev pub has_rid : String → String → Workflow → Bool
has_rid rid tenant_id w = w.rid == rid && w.tenant_id == tenant_id

abbrev is_listed : String → Option Bool → Workflow → Bool
is_listed tenant_id is_active w =
    w.tenant_id == tenant_id
    && elim is_active [ none ↦ true | some true ↦ w.is_active | some false ↦ not w.is_active ]

module _ (T : Table Workflow) where
  unfoldable pub get_by_rid : String → String → T.State → Option Workflow
  get_by_rid rid tenant_id s = find (has_rid rid tenant_id) (T.rows s)

  unfoldable pub update_fields :
      String → String → WorkflowFields → ℕ → T.State → Option Workflow × T.State
  unfolding get_by_rid
  update_fields rid tenant_id u now s =
      let s' = T.update_where (has_rid rid tenant_id) (apply_fields u now) s in
      (get_by_rid rid tenant_id s', s')

  -- the row that was read is deleted by its primary key
  abbrev pub delete_found : Option Workflow → T.State → Bool × T.State
  delete_found none s = (false, s)
  delete_found (some w) s = (true, T.delete_where (λ v. v.rid == w.rid) s)

  unfoldable pub delete : String → String → T.State → Bool × T.State
  unfolding get_by_rid
  delete rid tenant_id s = delete_found (get_by_rid rid tenant_id s) s

  -- a status is accepted and not used
  unfoldable pub list_by_tenant :
      String → ℕ → ℕ → Option Bool → Option String → T.State → List Workflow × ℕ
  list_by_tenant tenant_id offset limit is_active status s =
      let base = select (is_listed tenant_id is_active) (T.rows s) in
      (page offset limit (newest_first (λ (w : Workflow). w.created_at) base), length base)

  unfoldable pub count_by_tenant : String → T.State → ℕ
  unfolding count
  count_by_tenant tenant_id s = count (is_listed tenant_id (some true)) (T.rows s)

  unfoldable pub on_table : {A : Type 0} → (T.State → A × T.State) → Exec T.State A
  on_table f s = let (a, s') = f s in (ok a, s')

  module _ (c : Caller) where
    abbrev pub new_workflow : NewWorkflow → Workflow
    new_workflow n =
        let definition : WorkflowDefinition = record { nodes = n.nodes; edges = n.edges } in
        record {
          rid = "ri.workflow." <> c.uuid;
          tenant_id = c.tenant_id;
          api_name = n.api_name;
          display_name = n.display_name;
          description = n.description;
          definition = definition;
          safety_level = recompute_safety_level definition;
          version = 1;
          is_active = true;
          created_at = c.now;
          updated_at = c.now;
        }

    unfoldable pub create_workflow : NewWorkflow → Exec T.State Workflow
    unfolding on_table
    create_workflow n = on_table (λ s. (new_workflow n, T.insert (new_workflow n) s))

    unfoldable pub get_workflow : String → Exec T.State Workflow
    unfolding get_by_rid
    get_workflow rid = do
      found ← gets (get_by_rid rid c.tenant_id)
      require found (app_error function_not_found)

    unfoldable pub update_workflow : String → WorkflowUpdate → Exec T.State Workflow
    unfolding on_table
    update_workflow rid u = do
      found ← gets (get_by_rid rid c.tenant_id)
      workflow ← require found (app_error function_not_found)
      updated ← on_table (update_fields rid c.tenant_id (fields_of u workflow) c.now)
      require updated (app_error function_not_found)

    unfoldable pub delete_workflow : String → Exec T.State Unit
    unfolding on_table
    delete_workflow rid = do
      deleted ← on_table (delete rid c.tenant_id)
      raise_if (not deleted) (app_error function_not_found)

    unfoldable pub query_workflows : ℕ → ℕ → Option String → T.State → List Workflow × ℕ
    unfolding list_by_tenant
    query_workflows offset limit status s = list_by_tenant c.tenant_id offset limit none status s

    -- the result of the engine; no executor is given, so nodes echo their inputs
    unfoldable pub execute_workflow :
        Python → String → Dict String Value → Exec T.State WorkflowResult
    unfolding get_by_rid
    execute_workflow P rid inputs = do
      found ← gets (get_by_rid rid c.tenant_id)
      workflow ← require found (app_error function_not_found)
      lift (execute P none workflow.definition inputs)
