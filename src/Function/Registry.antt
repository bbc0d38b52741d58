-- ===== src/Function/Registry.antt =====
-- function/globals/registry.py and function/repository/function_repo.py: global functions and
-- their versions.
pub mod Laws
use lingshu_round.Prelude.{
  ℕ, suc, ◌+◌, String, ◌<>◌, Bool, true, false, ◌&&◌, Option, none, some, List, [], length, select,
  find, ◌==◌, string_eq, is_some, not,
}
use lingshu_round.Prelude.Count.{count}
use lingshu_round.Prelude.Dict.{Dict}
use lingshu_round.Prelude.Page.{page, newest_first}
use lingshu_round.Prelude.Value.{Value}
use lingshu_round.Infra.Errors.{app_error, common_conflict, function_not_found}
use lingshu_round.Infra.Exec.{
  Exec, ok, err, pure, raise, gets, lift, require, raise_if, ◌>>=◌, ◌>>◌,
}
use lingshu_round.Infra.Table.{Table}
use lingshu_round.Ontology.World.{generate_rid}

-- a row of `global_functions`
pub record GlobalFunction : Type 0 where
  pub rid : String
  pub tenant_id : String
  pub api_name : String
  pub display_name : String
  pub description : Option String
  pub parameters : List (Dict String Value)
  pub implementation : Dict String Value
  pub version : ℕ
  pub is_active : Bool
  pub created_at : ℕ
  pub updated_at : ℕ

-- the fields that an update gives: those that the request model allows, and the version
pub record FunctionUpdate : Type 0 where
  pub display_name : Option String
  pub description : Option String
  pub parameters : Option (List (Dict String Value))
  pub implementation : Option (Dict String Value)

abbrev given_or {ℓ} : {A : Type ℓ} → Option A → A → A
given_or none old = old
given_or (some new) old = new

abbrev or_text : Option String → Option String → Option String
or_text none old = old
or_text (some new) old = some new

-- `.values(**fields)` with the version, and the time of the update, which the database sets
abbrev pub apply_update : FunctionUpdate → ℕ → ℕ → GlobalFunction → GlobalFunction
apply_update u version now f = record f {
  display_name = given_or u.display_name f.display_name;
  description = or_text u.description f.description;
  parameters = given_or u.parameters f.parameters;
  implementation = given_or u.implementation f.implementation;
  version = version;
  updated_at = now;
}

abbrev pub has_rid : String → String → GlobalFunction → Bool
has_rid rid tenant_id f = f.rid == rid && f.tenant_id == tenant_id

abbrev pub is_named : String → String → GlobalFunction → Bool
is_named api_name tenant_id f = f.api_name == api_name && f.tenant_id == tenant_id

-- what a request for a new function gives
pub record NewFunction : Type 0 where
  pub api_name : String
  pub display_name : String
  pub description : Option String
  pub parameters : List (Dict String Value)
  pub implementation : Dict String Value

-- the tenant of a request, its time, and what `uuid4` gives next
pub record Caller : Type 0 where
  pub tenant_id : String
  pub now : ℕ
  pub uuid : String

module _ (T : Table GlobalFunction) where
  unfoldable pub create : GlobalFunction → T.State → GlobalFunction × T.State
  create f s = (f, T.insert f s)

  unfoldable pub get_by_rid : String → String → T.State → Option GlobalFunction
  get_by_rid rid tenant_id s = find (has_rid rid tenant_id) (T.rows s)

  unfoldable pub get_by_api_name : String → String → T.State → Option GlobalFunction
  get_by_api_name api_name tenant_id s = find (is_named api_name tenant_id) (T.rows s)

  unfoldable pub update_fields :
      String → String → FunctionUpdate → ℕ → ℕ → T.State → Option GlobalFunction × T.State
  unfolding get_by_rid
  update_fields rid tenant_id u version now s =
      let s' = T.update_where (has_rid rid tenant_id) (apply_update u version now) s in
      (get_by_rid rid tenant_id s', s')

  -- the row that was read is deleted by its primary key
  abbrev pub delete_found : Option GlobalFunction → T.State → Bool × T.State
  delete_found none s = (false, s)
  delete_found (some f) s = (true, T.delete_where (λ g. g.rid == f.rid) s)

  unfoldable pub delete_function : String → String → T.State → Bool × T.State
  unfolding get_by_rid
  delete_function rid tenant_id s = delete_found (get_by_rid rid tenant_id s) s

  unfoldable pub list_by_tenant : String → ℕ → ℕ → Option Bool → T.State → List GlobalFunction × ℕ
  list_by_tenant tenant_id offset limit is_active s =
      let base =
        select
          (λ (f : GlobalFunction). f.tenant_id == tenant_id && elim is_active [
            | none ↦ true
            | some true ↦ f.is_active
            | some false ↦ not f.is_active
          ])
          (T.rows s) in
      (page offset limit (newest_first (λ (f : GlobalFunction). f.created_at) base), length base)

  unfoldable pub count_by_tenant : String → T.State → ℕ
  unfolding count
  count_by_tenant tenant_id s =
      count (λ (f : GlobalFunction). f.tenant_id == tenant_id && f.is_active) (T.rows s)

  on_table : {A : Type 0} → (T.State → A × T.State) → Exec T.State A
  on_table f s = let (a, s') = f s in (ok a, s')

  module _ (c : Caller) where
    -- the record that `register` makes
    abbrev pub new_function : NewFunction → GlobalFunction
    new_function n = record {
      rid = generate_rid "func" c.uuid;
      tenant_id = c.tenant_id;
      api_name = n.api_name;
      display_name = n.display_name;
      description = n.description;
      parameters = n.parameters;
      implementation = n.implementation;
      version = 1;
      is_active = true;
      created_at = c.now;
      updated_at = c.now;
    }

    unfoldable pub register : NewFunction → Exec T.State GlobalFunction
    unfolding on_table create generate_rid
    register n = do
      existing ← gets (get_by_api_name n.api_name c.tenant_id)
      raise_if (is_some existing) (app_error common_conflict)
      on_table (create (new_function n))

    unfoldable pub get : String → Exec T.State GlobalFunction
    get rid = do
      found ← gets (get_by_rid rid c.tenant_id)
      require found (app_error function_not_found)

    unfoldable pub update : String → FunctionUpdate → Exec T.State GlobalFunction
    unfolding on_table
    update rid u = do
      found ← gets (get_by_rid rid c.tenant_id)
      existing ← require found (app_error function_not_found)
      updated ← on_table (update_fields rid c.tenant_id u (suc existing.version) c.now)
      pure (given_or updated existing)

    unfoldable pub delete : String → Exec T.State Unit
    unfolding on_table
    delete rid = do
      deleted ← on_table (delete_function rid c.tenant_id)
      raise_if (not deleted) (app_error function_not_found)

    unfoldable pub query : ℕ → ℕ → T.State → List GlobalFunction × ℕ
    unfolding list_by_tenant
    query offset limit s = list_by_tenant c.tenant_id offset limit (some true) s
