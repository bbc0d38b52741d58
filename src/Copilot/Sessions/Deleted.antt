-- ===== src/Copilot/Sessions/Deleted.antt =====
-- A session that was deleted is never found again.
use lingshu_round.Prelude.{
  ℕ, String, ◌<>◌, ◌≡◌, false, Option, none, some, List, [], ◌∷◌, ◌==◌, string_eq,
}
use lingshu_round.Prelude.Count.{count}
use lingshu_round.Prelude.Dict.{Dict}
use lingshu_round.Prelude.Value.{Value}
use lingshu_round.Infra.Errors.{app_error, copilot_session_not_found}
use lingshu_round.Infra.Exec.{err}
use lingshu_round.Infra.Falls.{Falls}
use lingshu_round.Infra.Table.{Table}
use lingshu_round.Infra.Table
use lingshu_round.Copilot.Sessions.{
  CopilotSession, SessionFields, Visitor, is_live, create_session, get_session, update_context,
  update_title, touch, delete_session,
}

-- one request that writes
pub data Call : Type 0 where
  creates : String → Option (Dict String Value) → Option String → Call
  changes_context : String → Dict String Value → Call
  changes_title : String → String → Call
  touches : String → Call
  deletes : String → Call

module _ (T : Table CopilotSession) where
  unfoldable pub perform : Visitor → Call → T.State → T.State
  perform v (creates mode context model_rid) s = (create_session T v mode context model_rid s).1
  perform v (changes_context id context) s = (update_context T v id context s).1
  perform v (changes_title id title) s = (update_title T v id title s).1
  perform v (touches id) s = (touch T v id s).1
  perform v (deletes id) s = (delete_session T v id s).1

  unfoldable pub run : List (Visitor × Call) → T.State → T.State
  unfolding perform
  run [] s = s
  run ((v, c) ∷ cs) s = run cs (perform v c s)

-- no request makes a session with this id
abbrev pub IsFresh : String → List (Visitor × Call) → Type 0
IsFresh id [] = Unit
IsFresh id ((v, _) ∷ cs) = ("ri.session." <> v.uuid == id ≡ false) × IsFresh id cs

module _ (T : Table CopilotSession) (L : Table.IsLawful T) (id tenant_id : String) where
  abbrev living : T.State → ℕ
  living s = count (is_live id tenant_id) (T.rows s)

  -- the columns that a change of the context writes
  abbrev with_context : Visitor → Dict String Value → SessionFields
  with_context v context = record {
    title = none;
    context = some context;
    last_active_at = some v.now;
  }

-- Who asks for the session is told that there is none.
abbrev pub IsGone :
    (T : Table CopilotSession) → Visitor → String → Dict String Value → T.State → Type 0
IsGone T v id context s =
    ((get_session T v id s).0 ≡ err (app_error copilot_session_not_found))
    × ((update_context T v id context s).0 ≡ err (app_error copilot_session_not_found))
    × ((delete_session T v id s).0 ≡ err (app_error copilot_session_not_found))
