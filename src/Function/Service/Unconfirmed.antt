-- ===== src/Function/Service/Unconfirmed.antt =====
-- An action that needs a confirmation does nothing before it has one.
use lingshu_round.Prelude.{
  String, ◌≡◌, refl, sym, ap, subst, Bool, true, false, not, Option, some, arith, contains,
  string_eq,
}
use lingshu_round.Prelude.Dict.{Dict}
use lingshu_round.Prelude.Value.{Value}
use lingshu_round.Infra.Exec.{Result, ok, err, lift, ◌>>=◌}
use lingshu_round.Function.Safety.{check, direct_execute_levels}
use lingshu_round.Function.Actions.{ActionNode, ActionDefinition, definition_of, load, or_default}
use lingshu_round.Function.Params.{ResolvedParams, resolve}
use lingshu_round.Function.Services.{Request, Services, World, on_executions}
use lingshu_round.Function.Service.{ask_confirmation, decide, execute_action}

-- neither the edit log nor anything outside was touched
abbrev pub IsSilent : (V : Services) → World V → World V → Type 0
IsSilent V w w' = (w'.edit_logs ≡ w.edit_logs) × (w'.outside ≡ w.outside)

-- the level that an action is loaded with is none that executes at once
abbrev pub is_guarded : ActionNode → Bool
is_guarded node =
    not (contains direct_execute_levels (or_default node.safety_level "SAFETY_READ_ONLY"))

module _ (V : Services) (q : Request) where
  decide-IsSilent :
      (action : ActionDefinition) (r : ResolvedParams) (params : Dict String Value)
      (branch : Option String) (w : World V)
      → contains direct_execute_levels action.safety_level ≡ false
      → IsSilent V w (decide V q action r params branch false w).1
  unfolding decide check ask_confirmation ◌>>=◌ on_executions
  decide-IsSilent action r params branch w h = rw h (refl, refl)

  load-found :
      (action_type_rid : String) (node : ActionNode)
      → V.get_object_type action_type_rid q.tenant_id ≡ some node
      → load V.get_object_type q.tenant_id action_type_rid ≡ ok (definition_of action_type_rid node)
  unfolding load
  load-found action_type_rid node found = ground arith

  -- a definition that was found leaves the parameters and the decision
  pub execute_loaded :
      (action_type_rid : String) (node : ActionNode) (params : Dict String Value)
      (branch : Option String) (skip_confirmation : Bool) (w : World V)
      → V.get_object_type action_type_rid q.tenant_id ≡ some node
      → execute_action V q action_type_rid params branch skip_confirmation w
        ≡ (lift (
                resolve V.get_instance q.tenant_id
                  (definition_of action_type_rid node).parameters
                  params)
              >>= λ r.
                  decide V q (definition_of action_type_rid node) r params branch skip_confirmation)
            w
  unfolding execute_action ◌>>=◌
  execute_loaded action_type_rid node params branch skip_confirmation w found =
      ap
        (λ l.
          (lift l >>= λ a. lift (resolve V.get_instance q.tenant_id a.parameters params) >>= λ r.
          decide V q a r params branch skip_confirmation)
            w)
        (load-found action_type_rid node found)

  resolved-IsSilent :
      (action : ActionDefinition) (params : Dict String Value) (branch : Option String)
      (r : Result ResolvedParams) (w : World V)
      → contains direct_execute_levels action.safety_level ≡ false
      → IsSilent V w ((lift r >>= λ v. decide V q action v params branch false) w).1
  unfolding ◌>>=◌
  resolved-IsSilent action params branch (ok r) w h = decide-IsSilent action r params branch w h
  resolved-IsSilent action params branch (err e) w h = (refl, refl)

  -- A call for an action with a level that asks for a confirmation, made without skipping it,
  -- writes no edit and runs no engine, whether it is recorded as pending or refused.
  pub execute_action-IsSilent :
      (action_type_rid : String) (node : ActionNode) (params : Dict String Value)
      (branch : Option String) (w : World V)
      → V.get_object_type action_type_rid q.tenant_id ≡ some node
      → is_guarded node ≡ true
      → IsSilent V w (execute_action V q action_type_rid params branch false w).1
  execute_action-IsSilent action_type_rid node params branch w found guarded =
      let action = definition_of action_type_rid node in
      subst (λ o. IsSilent V w o.1)
        (sym (execute_loaded action_type_rid node params branch false w found))
        (resolved-IsSilent action params branch
          (resolve V.get_instance q.tenant_id action.parameters params) w (ground arith))
