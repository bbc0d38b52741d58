-- ===== src/Function/Service/Confirm/Delegation.antt =====
-- What a confirmation does: the action that was asked for, within ten minutes.
use native.Mathlib.Decide.{ℕ_discrete}
use lingshu_round.Prelude.{
  ◌+◌, ◌≤◌, ◌<◌, String, ◌≡◌, refl, ◌∙◌, sym, ap, subst, Bool, true, false, not, ◌&&◌, Option, none,
  some, arith, ◌==◌, ==_refl, Eq, string_eq, ltb, contains,
}
use lingshu_round.Prelude.Count.{count, count_mono, find_of_only}
use lingshu_round.Prelude.Dict.{Dict}
use lingshu_round.Prelude.Value.{Value, Value-discrete}
use lingshu_round.Infra.Errors.{
  app_error, function_confirmation_expired, common_invalid_input, function_not_found,
}
use lingshu_round.Infra.Exec.{Result, ok, err, Exec, pure, lift, require, raise_if, ◌>>=◌}
use lingshu_round.Infra.Table
use lingshu_round.Function.Safety.{check, direct_execute_levels}
use lingshu_round.Function.Actions.{ActionNode, ActionDefinition, definition_of}
use lingshu_round.Function.Params.{ResolvedParams, resolve}
use lingshu_round.Function.Executions.{
  Execution, pending_confirmation, is_pending, is_execution, get_by_id, update_status, log_complete,
  expired, started, create, log_start,
}
use lingshu_round.Function.Services.{
  Request, Services, World, ExecutionResponse, on_executions, new_execution_id,
}
use lingshu_round.Function.Service.{execute_action, ask_confirmation, decide}
use lingshu_round.Function.Service.Unconfirmed.{IsSilent, is_guarded, execute_loaded}
use lingshu_round.Function.Service.Confirm.{
  confirmation_ttl, delegated, expire, pending, confirm_pending, confirm_execution,
}

string_discrete : Discrete String
unfolding string_eq
string_discrete = string_eq.dec

Execution-discrete : Discrete Execution
Execution-discrete = hlevel (string_discrete, Value-discrete, ℕ_discrete)

instance execution_eq : Eq Execution
execution_eq = record { dec = Execution-discrete }

module _ (V : Services) (L : Table.IsLawful V.executions) where
  -- a new execution is found by its id
  get_by_id-insert :
      (e : Execution) (s : V.executions.State)
      → count (is_execution e.execution_id e.tenant_id) (V.executions.rows s) ≡ 0
      → get_by_id V.executions e.execution_id e.tenant_id (V.executions.insert e s) ≡ some e
  unfolding get_by_id
  get_by_id-insert e s absent =
      let p = is_execution e.execution_id e.tenant_id in
      find_of_only p e (V.executions.rows (V.executions.insert e s))
        (ground (arith, L.count-insert p e s, ==_refl e.execution_id, ==_refl e.tenant_id))
        (ground (
          arith,
          L.count-insert (λ x. p x && not (x == e)) e s,
          count_mono (λ x. p x && not (x == e)) p (V.executions.rows s) (λ x h. ground arith),
          ==_refl e,
        ))

module _ (V : Services) (q : Request) where
  decide_asked :
      (action : ActionDefinition) (r : ResolvedParams) (params : Dict String Value)
      (branch : Option String) (w : World V)
      → contains direct_execute_levels action.safety_level ≡ false
      → (decide V q action r params branch false w).1 ≡ record w {
        executions =
            V.executions.insert
              (started
                (new_execution_id q)
                q.tenant_id
                "action"
                action.rid
                pending_confirmation
                params
                (some action.safety_level)
                action.side_effects
                q.user_id
                branch
                q.now)
              w.executions;
      }
  unfolding decide check ask_confirmation ◌>>=◌ on_executions log_start create
  decide_asked action r params branch w h = rw h refl

  -- the record that a call for a confirmation makes
  abbrev asked_record : String → ActionNode → Dict String Value → Option String → Execution
  asked_record action_type_rid node params branch =
      let action = definition_of action_type_rid node in
      started (new_execution_id q) q.tenant_id "action" action_type_rid pending_confirmation params
        (some action.safety_level) action.side_effects q.user_id branch q.now

  asked :
      (action_type_rid : String) (node : ActionNode) (params : Dict String Value)
      (branch : Option String) (r : ResolvedParams) (w : World V)
      → V.get_object_type action_type_rid q.tenant_id ≡ some node
      → is_guarded node ≡ true
      → resolve V.get_instance q.tenant_id (definition_of action_type_rid node).parameters params
        ≡ ok r
      → (execute_action V q action_type_rid params branch false w).1 ≡ record w {
        executions =
            V.executions.insert (asked_record action_type_rid node params branch) w.executions;
      }
  unfolding ◌>>=◌
  asked action_type_rid node params branch r w found guarded resolved =
      let action = definition_of action_type_rid node in
      ap (λ o. o.1) (execute_loaded V q action_type_rid node params branch false w found)
      ∙ (ap (λ o. ((lift o >>= λ v. decide V q action v params branch false) w).1) resolved
          ∙ decide_asked action r params branch w (ground arith))

-- the confirmation has the result of the action, and after it only the records may differ
abbrev pub Delegates :
    (V : Services)
    → Result ExecutionResponse × World V
    → Result ExecutionResponse × World V
    → Type 0
Delegates V (r, w') (r', w'') = (r' ≡ r) × IsSilent V w' w''

module _ (V : Services) (q : Request) (execution_id : String) (e : Execution) (w : World V)
    (found : get_by_id V.executions execution_id q.tenant_id w.executions ≡ some e)
    (waits : is_pending e.status ≡ true) where
  pending-found : pending V q execution_id w ≡ (ok e, w)
  unfolding pending ◌>>=◌
  pending-found =
      ap
        (λ o.
          (require o (app_error function_not_found) >>= λ x.
          raise_if (not (is_pending x.status)) (app_error common_invalid_input) >>= λ _. pure x)
            w)
        found
      ∙ ap
          (λ b. (raise_if (not b) (app_error common_invalid_input) >>= λ _. pure {S = World V} e) w)
          waits

  confirm-found : confirm_execution V q execution_id w ≡ confirm_pending V q execution_id e w
  unfolding confirm_execution ◌>>=◌
  confirm-found = ap (λ o. (lift o.0 >>= confirm_pending V q execution_id) o.1) pending-found

  -- what follows the check of the expiry
  abbrev action_and_record : Exec (World V) ExecutionResponse
  action_and_record = execute_action V q e.capability_rid e.params e.branch true >>= λ r.
      on_executions V
        (update_status V.executions execution_id q.tenant_id (delegated q.now r.execution_id))
      >>= λ _. pure r

  confirm_is :
      (late : Bool)
      → ltb (e.started_at + confirmation_ttl) q.now ≡ late
      → confirm_execution V q execution_id w
        ≡ (expire V q execution_id late >>= λ _. action_and_record) w
  unfolding confirm_pending ◌>>=◌
  confirm_is late h =
      confirm-found ∙ ap (λ b. (expire V q execution_id b >>= λ _. action_and_record) w) h

  -- later than ten minutes after its start the execution is marked as expired, and no more
  pub confirm_late :
      e.started_at + confirmation_ttl < q.now
      → confirm_execution V q execution_id w ≡ (
        err (app_error function_confirmation_expired),
        (on_executions V
            (log_complete V.executions execution_id q.tenant_id expired none none q.now)
            w).1,
      )
  unfolding expire ◌>>=◌ on_executions
  confirm_late late = confirm_is true (ground arith)

  Delegates-of :
      (r : Result ExecutionResponse) (w' : World V)
      → Delegates V
          (r, w')
          ((lift r >>= λ x.
              on_executions V (
                update_status V.executions execution_id q.tenant_id
                  (delegated q.now x.execution_id))
              >>= λ _. pure x)
            w')
  unfolding ◌>>=◌ on_executions
  Delegates-of (ok x) w' = (refl, (refl, refl))
  Delegates-of (err x) w' = (refl, (refl, refl))

  pub confirm-in_time :
      q.now ≤ e.started_at + confirmation_ttl
      → Delegates V
          (execute_action V q e.capability_rid e.params e.branch true w)
          (confirm_execution V q execution_id w)
  unfolding expire ◌>>=◌
  confirm-in_time in_time =
      let (r, w') = execute_action V q e.capability_rid e.params e.branch true w in
      subst (Delegates V (r, w')) (sym (confirm_is false (ground arith))) (Delegates-of r w')

module _ (V : Services) (L : Table.IsLawful V.executions) (q q' : Request)
    (action_type_rid : String) (node : ActionNode) (params : Dict String Value)
    (branch : Option String) (r : ResolvedParams) (w : World V)
    (found : V.get_object_type action_type_rid q.tenant_id ≡ some node)
    (guarded : is_guarded node ≡ true)
    (resolved : resolve V.get_instance q.tenant_id
        (definition_of action_type_rid node).parameters
        params
      ≡ ok r)
    (absent : count (is_execution (new_execution_id q) q.tenant_id) (V.executions.rows w.executions)
      ≡ 0)
    (same_tenant : q'.tenant_id ≡ q.tenant_id) where
  abbrev after_asking : World V
  after_asking = (execute_action V q action_type_rid params branch false w).1

  pending-asked :
      get_by_id V.executions (new_execution_id q) q'.tenant_id after_asking.executions
      ≡ some (asked_record V q action_type_rid node params branch)
  pending-asked =
      subst
        (λ t.
          get_by_id V.executions (new_execution_id q) t after_asking.executions
          ≡ some (asked_record V q action_type_rid node params branch))
        (sym same_tenant)
        (ap (λ (x : World V). get_by_id V.executions (new_execution_id q) q.tenant_id x.executions)
            (asked V q action_type_rid node params branch r w found guarded resolved)
          ∙ get_by_id-insert V L (asked_record V q action_type_rid node params branch) w.executions
              absent)

  -- The confirmation of an action that was asked for, within ten minutes, has the result, the
  -- edits and the effects outside that the action has when it is executed without asking. The
  -- action is found and needs a confirmation, its parameters are good, and its id is new.
  pub confirm-execute :
      q'.now ≤ q.now + confirmation_ttl
      → Delegates V
          (execute_action V q' action_type_rid params branch true after_asking)
          (confirm_execution V q' (new_execution_id q) after_asking)
  confirm-execute =
      confirm-in_time V q' (new_execution_id q)
        (asked_record V q action_type_rid node params branch) after_asking pending-asked refl
