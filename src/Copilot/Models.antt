-- ===== src/Copilot/Models.antt =====
-- copilot/infra/models.py: the language models of a tenant, over a table.
pub mod Clearing
pub mod Default
use lingshu_round.Prelude.{
  ℕ, String, ◌<>◌, Bool, true, false, ◌&&◌, Option, none, some, List, [], length, select, find,
  ◌==◌, string_eq, if◌then◌else◌,
}
use lingshu_round.Prelude.Dict.{Dict}
use lingshu_round.Prelude.Page.{page, newest_first}
use lingshu_round.Prelude.Value.{Value}
use lingshu_round.Infra.Errors.{app_error, common_not_found}
use lingshu_round.Infra.Exec.{Exec, ok, gets, require, ◌>>=◌, ◌>>◌}
use lingshu_round.Infra.Table.{Table}
use lingshu_round.Function.Registry.{Caller}

pub record CopilotModel : Type 0 where
  pub rid : String
  pub tenant_id : String
  pub api_name : String
  pub display_name : String
  pub provider : String
  pub connection : Dict String Value
  pub parameters : Dict String Value
  pub is_default : Bool
  pub created_at : ℕ
  pub updated_at : ℕ

pub record NewModel : Type 0 where
  pub api_name : String
  pub display_name : String
  pub provider : String
  pub connection : Dict String Value
  pub parameters : Option (Dict String Value)
  pub is_default : Bool

-- the fields that are given of an update
pub record ModelUpdate : Type 0 where
  pub display_name : Option String
  pub provider : Option String
  pub connection : Option (Dict String Value)
  pub parameters : Option (Dict String Value)
  pub is_default : Option Bool

abbrev pub given {ℓ} : {A : Type ℓ} → Option A → A → A
given none old = old
given (some a) old = a

abbrev pub with_updates : ModelUpdate → ℕ → CopilotModel → CopilotModel
with_updates u now m = record m {
  display_name = given u.display_name m.display_name;
  provider = given u.provider m.provider;
  connection = given u.connection m.connection;
  parameters = given u.parameters m.parameters;
  is_default = given u.is_default m.is_default;
  updated_at = now;
}

abbrev pub has_rid : String → String → CopilotModel → Bool
has_rid rid tenant_id m = m.rid == rid && m.tenant_id == tenant_id

abbrev pub is_default_of : String → CopilotModel → Bool
is_default_of tenant_id m = m.tenant_id == tenant_id && m.is_default

abbrev pub cleared : ℕ → CopilotModel → CopilotModel
cleared now m = record m { is_default = false; updated_at = now }

module _ (T : Table CopilotModel) (c : Caller) where
  -- `if is_default:` no other model of the tenant is the default
  abbrev pub clear_defaults : Bool → T.State → T.State
  clear_defaults false s = s
  clear_defaults true s = T.update_where (is_default_of c.tenant_id) (cleared c.now) s

  abbrev pub new_model : NewModel → CopilotModel
  new_model n = record {
    rid = "ri.model." <> c.uuid;
    tenant_id = c.tenant_id;
    api_name = n.api_name;
    display_name = n.display_name;
    provider = n.provider;
    connection = n.connection;
    parameters = given n.parameters [];
    is_default = n.is_default;
    created_at = c.now;
    updated_at = c.now;
  }

  unfoldable pub register : NewModel → Exec T.State CopilotModel
  register n s = (ok (new_model n), T.insert (new_model n) (clear_defaults n.is_default s))

  unfoldable pub get : String → Exec T.State CopilotModel
  get rid = do
    found ← gets (λ s. find (has_rid rid c.tenant_id) (T.rows s))
    require found (app_error common_not_found)

  -- the two statements of an update
  abbrev pub write : String → ModelUpdate → T.State → T.State
  write rid u s =
      T.update_where (has_rid rid c.tenant_id) (with_updates u c.now)
        (clear_defaults (given u.is_default false) s)

  unfoldable pub update : String → ModelUpdate → Exec T.State CopilotModel
  unfolding get
  update rid u s = get rid (write rid u s)

  -- the row that was read is deleted by its primary key
  abbrev pub remove : CopilotModel → Exec T.State Unit
  remove m s = (ok tt, T.delete_where (λ n. n.rid == m.rid) s)

  unfoldable pub delete : String → Exec T.State Unit
  unfolding get
  delete rid = do model ← get rid; remove model

  unfoldable pub query : ℕ → ℕ → T.State → List CopilotModel × ℕ
  query offset limit s =
      let base = select (λ (m : CopilotModel). m.tenant_id == c.tenant_id) (T.rows s) in
      (page offset limit (newest_first (λ (m : CopilotModel). m.created_at) base), length base)

  unfoldable pub get_default : T.State → Option CopilotModel
  get_default s = find (is_default_of c.tenant_id) (T.rows s)
