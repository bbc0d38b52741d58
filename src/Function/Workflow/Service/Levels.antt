-- ===== src/Function/Workflow/Service/Levels.antt =====
-- The safety level of a stored workflow is that of its nodes.
use lingshu_round.Prelude.{
  ℕ, ◌≤◌, String, ◌≡◌, ap, Bool, true, false, not, ◌&&◌, Option, none, some, List, [], ◌∷◌,
  if◌then◌else◌, ◌==◌, string_eq, arith,
}
use lingshu_round.Prelude.Count.{count, count_mono}
use lingshu_round.Infra.Falls.{Falls, Falls-gets, Falls-require, Falls-raise_if, Falls-bind}
use lingshu_round.Infra.Table.{Table}
use lingshu_round.Infra.Table
use lingshu_round.Function.Safety.{is_highest, compute_safety_level-is_highest}
use lingshu_round.Function.Registry.{Caller}
use lingshu_round.Function.Workflow.Execution.{WorkflowDefinition}
use lingshu_round.Function.Workflow.Service.{
  Workflow, NewWorkflow, WorkflowUpdate, WorkflowFields, levels_of, recompute_safety_level,
  given_or, level_with, fields_of, apply_fields, has_rid, get_by_rid, update_fields, delete_found,
  delete, on_table, new_workflow, create_workflow, update_workflow, delete_workflow,
}

-- one request of any tenant that writes
pub data Request : Type 0 where
  creates : NewWorkflow → Request
  updates : String → WorkflowUpdate → Request
  deletes : String → Request

-- the level is not the highest that the nodes of the definition name
abbrev pub is_stale : Workflow → Bool
is_stale w = not (is_highest w.safety_level (levels_of w.definition.nodes))

is_highest-recompute :
    (d : WorkflowDefinition) → is_highest (recompute_safety_level d) (levels_of d.nodes) ≡ true
unfolding recompute_safety_level
is_highest-recompute d = compute_safety_level-is_highest (levels_of d.nodes)

new-fresh :
    (T : Table Workflow) (c : Caller) (n : NewWorkflow) → is_stale (new_workflow T c n) ≡ false
new-fresh T c n = ap not (is_highest-recompute _)

-- what an update makes of the level and the definition
abbrev stale_with : Option WorkflowDefinition → Workflow → Bool
stale_with o w =
    not (is_highest (level_with o w.safety_level) (levels_of (given_or o w.definition).nodes))

fresh_with :
    (o : Option WorkflowDefinition) (w : Workflow) → stale_with o w ≡ true → is_stale w ≡ true
fresh_with none w h = h
fresh_with (some d) w h = absurd (ground (arith, is_highest-recompute d))

fresh_fields :
    (u : WorkflowFields) (now : ℕ) (w : Workflow) (b : Bool)
    → is_stale (if b then apply_fields u now w else w) ≡ true
    → is_stale w ≡ true
fresh_fields u now w false h = h
fresh_fields u now w true h = fresh_with u.definition w h

module _ (T : Table Workflow) where
  unfoldable pub perform : Caller → Request → T.State → T.State
  perform c (creates n) s = (create_workflow T c n s).1
  perform c (updates rid u) s = (update_workflow T c rid u s).1
  perform c (deletes rid) s = (delete_workflow T c rid s).1

  unfoldable pub run : List (Caller × Request) → T.State → T.State
  unfolding perform
  run [] s = s
  run ((c, r) ∷ rs) s = run rs (perform c r s)

  module _ (L : Table.IsLawful T) where
    abbrev pub stale : T.State → ℕ
    stale s = count is_stale (T.rows s)

    Falls-create : (c : Caller) (n : NewWorkflow) → Falls stale (create_workflow T c n)
    unfolding create_workflow
    Falls-create c n = record {
      at = λ s. ground (arith, L.count-insert is_stale (new_workflow T c n) s, new-fresh T c n);
    }

    Falls-update_fields :
        (rid tenant_id : String) (u : WorkflowFields) (now : ℕ)
        → Falls stale (on_table T (update_fields T rid tenant_id u now))
    unfolding on_table update_fields
    Falls-update_fields rid tenant_id u now = record {
      at = λ s.
          rw (L.count-update_where is_stale (has_rid rid tenant_id) (apply_fields u now) s)
            (count_mono _ _ _ (λ w. fresh_fields u now w (has_rid rid tenant_id w)));
    }

    Falls-update :
        (c : Caller) (rid : String) (u : WorkflowUpdate) → Falls stale (update_workflow T c rid u)
    unfolding update_workflow
    Falls-update c rid u = Falls-bind _ _ (Falls-gets _) λ found.
        Falls-bind _ _ (Falls-require found _) λ w.
          Falls-bind _ _ (Falls-update_fields rid c.tenant_id (fields_of u w) c.now)
            λ updated. Falls-require updated _

    delete_found-le : (o : Option Workflow) (s : T.State) → stale (delete_found T o s).1 ≤ stale s
    delete_found-le none s = omega arith
    delete_found-le (some w) s = omega (
      arith,
      L.count-delete_where is_stale (λ v. v.rid == w.rid) s,
      count_mono (λ v. not (v.rid == w.rid) && is_stale v) is_stale (T.rows s)
          (λ v h. ground arith),
    )

    Falls-delete_row :
        (c : Caller) (rid : String) → Falls stale (on_table T (delete T rid c.tenant_id))
    unfolding on_table delete
    Falls-delete_row c rid = record { at = λ s. delete_found-le (get_by_rid T rid c.tenant_id s) s }

    Falls-delete : (c : Caller) (rid : String) → Falls stale (delete_workflow T c rid)
    unfolding delete_workflow
    Falls-delete c rid = Falls-bind _ _ (Falls-delete_row c rid) λ deleted. Falls-raise_if _ _

    perform-le : (c : Caller) (r : Request) (s : T.State) → stale (perform c r s) ≤ stale s
    unfolding perform
    perform-le c (creates n) s = (Falls-create c n).at s
    perform-le c (updates rid u) s = (Falls-update c rid u).at s
    perform-le c (deletes rid) s = (Falls-delete c rid).at s

    -- Whatever workflows the tenants create, update and delete, one request after the other, every
    -- stored workflow has the highest of the safety levels that its nodes name, if all had it
    -- before. A level that is not known counts as the lowest one, which a workflow without nodes
    -- has too.
    pub run_levels :
        (rs : List (Caller × Request)) (s : T.State)
        → count is_stale (T.rows s) ≡ 0
        → count is_stale (T.rows (run rs s)) ≡ 0
    unfolding run
    run_levels [] s h = h
    run_levels ((c, r) ∷ rs) s h = run_levels rs (perform c r s) (omega (arith, perform-le c r s))
