-- ===== src/Tests/Copilot.antt =====
-- Sessions of the assistant and language models over small tables.
use lingshu_round.Prelude.{
  String, ◌≡◌, refl, arith, Bool, true, none, some, List, [], ◌∷◌, string_eq,
}
use lingshu_round.Prelude.Count.{count}
use lingshu_round.Function.Registry.{Caller}
use lingshu_round.Infra.Exec.{◌>>=◌}
use lingshu_round.Copilot.Models.{
  CopilotModel, NewModel, ModelUpdate, register, update, get_default,
}
use lingshu_round.Copilot.Models.Default as Default
use lingshu_round.Copilot.Models.Default.{registers, updates, IsWellFormed, run-IsWellFormed}
use lingshu_round.Copilot.Sessions.{CopilotSession, active, Visitor}
use lingshu_round.Copilot.Sessions.Deleted.{Call, creates, changes_title, touches, run}
use lingshu_round.Copilot.Sessions as Session
use lingshu_round.Tests.Memory.{memory_table, memory_table-IsLawful}

abbrev visitor : String → String → Visitor
visitor user uuid = record { tenant_id = "t1"; user_id = user; now = 7; uuid = uuid }

abbrev stored : CopilotSession
stored = record {
  session_id = "ri.session.1";
  tenant_id = "t1";
  user_id = "ann";
  mode = "chat";
  title = none;
  context = [];
  model_rid = none;
  status = active;
  created_at = 1;
  last_active_at = 1;
}

abbrev later : List (Visitor × Call)
later =
    (visitor "ann" "2", creates "chat" none none)
    ∷ (visitor "ben" "3", changes_title "ri.session.1" "again")
    ∷ (visitor "ann" "4", touches "ri.session.1")
    ∷ []

abbrev caller : String → Caller
caller uuid = record { tenant_id = "t1"; uuid = uuid; now = 7 }

abbrev model : Bool → NewModel
model is_default = record {
  api_name = "m";
  display_name = "M";
  provider = "p";
  connection = [];
  parameters = none;
  is_default = is_default;
}

abbrev as_default : ModelUpdate
as_default = record {
  display_name = none;
  provider = none;
  connection = none;
  parameters = none;
  is_default = some true;
}

abbrev calls : List (Caller × Default.Call)
calls =
    (caller "1", registers (model true))
    ∷ (caller "2", registers (model true))
    ∷ (caller "3", updates "ri.model.1" as_default)
    ∷ []

run-IsWellFormed_example :
    IsWellFormed (memory_table CopilotModel) "t1" (Default.run (memory_table CopilotModel) calls [])
unfolding Default.perform register count string_eq
run-IsWellFormed_example =
    run-IsWellFormed (memory_table CopilotModel) (memory_table-IsLawful CopilotModel) "t1" calls []
      (refl, (refl, (refl, tt))) ((λ rid. omega arith), omega arith)

-- the update of a model that is not there takes the default away
default_lost :
    get_default
      (memory_table CopilotModel)
      (caller "5")
      (update
        (memory_table CopilotModel)
        (caller "4")
        "ri.model.9"
        as_default
        (register (memory_table CopilotModel) (caller "1") (model true) []).1).1
    ≡ none
unfolding get_default update register string_eq ◌>>=◌
default_lost = refl
