-- ===== src/Copilot/Sessions.antt =====
-- copilot/sessions/manager.py and copilot/sessions/repository.py: sessions over a table.
pub mod Deleted
use lingshu_round.Prelude.{
  ℕ, String, ◌<>◌, Bool, true, false, not, ◌&&◌, Option, none, some, List, [], length, select, find,
  ◌==◌, string_eq,
}
use lingshu_round.Prelude.Dict.{Dict}
use lingshu_round.Prelude.Page.{page, newest_first}
use lingshu_round.Prelude.Value.{Value}
use lingshu_round.Infra.Errors.{app_error, copilot_session_not_found}
use lingshu_round.Infra.Exec.{Exec, Result, err, ok, gets, require, raise_if, ◌>>=◌, ◌>>◌}
use lingshu_round.Infra.Table.{Table}

-- the values of the column `status`
pub data SessionStatus : Type 0 where
  active : SessionStatus
  deleted : SessionStatus

abbrev pub is_active : SessionStatus → Bool
is_active active = true
is_active deleted = false

pub record CopilotSession : Type 0 where
  pub session_id : String
  pub tenant_id : String
  pub user_id : String
  pub mode : String
  pub title : Option String
  pub context : Dict String Value
  pub model_rid : Option String
  pub status : SessionStatus
  pub created_at : ℕ
  pub last_active_at : ℕ

-- the arguments of `update_fields`, `none` where one is not given
pub record SessionFields : Type 0 where
  pub title : Option String
  pub context : Option (Dict String Value)
  pub last_active_at : Option ℕ

-- who asks, the clock, and the next uuid
pub record Visitor : Type 0 where
  pub tenant_id : String
  pub user_id : String
  pub now : ℕ
  pub uuid : String

abbrev pub has_id : String → String → CopilotSession → Bool
has_id session_id tenant_id c = c.session_id == session_id && c.tenant_id == tenant_id

abbrev pub is_live : String → String → CopilotSession → Bool
is_live session_id tenant_id c = has_id session_id tenant_id c && is_active c.status

abbrev pub written : SessionFields → CopilotSession → CopilotSession
written u c = record c {
  title = elim u.title [ none ↦ c.title | some t ↦ some t ];
  context = elim u.context [ none ↦ c.context | some d ↦ d ];
  last_active_at = elim u.last_active_at [ none ↦ c.last_active_at | some t ↦ t ];
}

abbrev of_user : String → String → CopilotSession → Bool
of_user tenant_id user_id c = c.tenant_id == tenant_id && c.user_id == user_id && is_active c.status

module _ (T : Table CopilotSession) where
  unfoldable pub on_sessions : {A : Type 0} → (T.State → A × T.State) → Exec T.State A
  on_sessions f s = let (a, s') = f s in (ok a, s')

  unfoldable pub get_by_id : String → String → T.State → Option CopilotSession
  get_by_id session_id tenant_id s = find (is_live session_id tenant_id) (T.rows s)

  -- the status is not asked for: a deleted session is written too, and not found then
  unfoldable pub update_fields :
      String → String → SessionFields → T.State → Option CopilotSession × T.State
  unfolding get_by_id
  update_fields session_id tenant_id u s =
      let s' = T.update_where (has_id session_id tenant_id) (written u) s in
      (get_by_id session_id tenant_id s', s')

  abbrev pub delete_live : String → String → Option CopilotSession → T.State → Bool × T.State
  delete_live session_id tenant_id none s = (false, s)
  delete_live session_id tenant_id (some _) s =
      (true, T.update_where (has_id session_id tenant_id) (λ c. record c { status = deleted }) s)

  unfoldable pub soft_delete : String → String → T.State → Bool × T.State
  unfolding get_by_id
  soft_delete session_id tenant_id s =
      delete_live session_id tenant_id (get_by_id session_id tenant_id s) s

  unfoldable pub list_by_user : String → String → ℕ → ℕ → T.State → List CopilotSession × ℕ
  list_by_user tenant_id user_id offset limit s =
      let base = select (of_user tenant_id user_id) (T.rows s) in
      (
        page offset limit (newest_first (λ (c : CopilotSession). c.last_active_at) base),
        length base,
      )

  module _ (v : Visitor) where
    abbrev pub new_session : String → Option (Dict String Value) → Option String → CopilotSession
    new_session mode context model_rid = record {
      session_id = "ri.session." <> v.uuid;
      tenant_id = v.tenant_id;
      user_id = v.user_id;
      mode = mode;
      title = none;
      context = elim context [ none ↦ [] | some d ↦ d ];
      model_rid = model_rid;
      status = active;
      created_at = v.now;
      last_active_at = v.now;
    }

    unfoldable pub create_session :
        String → Option (Dict String Value) → Option String → Exec T.State CopilotSession
    unfolding on_sessions
    create_session mode context model_rid =
        on_sessions (λ s.
          (new_session mode context model_rid, T.insert (new_session mode context model_rid) s))

    unfoldable pub get_session : String → Exec T.State CopilotSession
    unfolding get_by_id
    get_session session_id = do
      found ← gets (get_by_id session_id v.tenant_id)
      require found (app_error copilot_session_not_found)

    -- the changed session; if it is not found, the request raises and `get_session` rolls it back
    abbrev pub or_roll_back :
        T.State → Option CopilotSession × T.State → Result CopilotSession × T.State
    or_roll_back before (some c, s) = (ok c, s)
    or_roll_back before (none, s) = (err (app_error copilot_session_not_found), before)

    unfoldable pub update_context : String → Dict String Value → Exec T.State CopilotSession
    unfolding update_fields
    update_context session_id context s = or_roll_back s (
        update_fields session_id v.tenant_id
          (record { title = none; context = some context; last_active_at = some v.now }) s)

    unfoldable pub update_title : String → String → Exec T.State (Option CopilotSession)
    unfolding on_sessions
    update_title session_id title = on_sessions (
        update_fields session_id v.tenant_id
          (record { title = some title; context = none; last_active_at = none }))

    unfoldable pub touch : String → Exec T.State (Option CopilotSession)
    unfolding on_sessions
    touch session_id = on_sessions (
        update_fields session_id v.tenant_id
          (record { title = none; context = none; last_active_at = some v.now }))

    unfoldable pub delete_session : String → Exec T.State Unit
    unfolding on_sessions
    delete_session session_id = do
      gone ← on_sessions (soft_delete session_id v.tenant_id)
      raise_if (not gone) (app_error copilot_session_not_found)

    unfoldable pub query_sessions : ℕ → ℕ → T.State → List CopilotSession × ℕ
    unfolding list_by_user
    query_sessions offset limit s = list_by_user v.tenant_id v.user_id offset limit s
