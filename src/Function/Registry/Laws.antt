-- ===== src/Function/Registry/Laws.antt =====
-- The names of global functions are unique, and an update is what the next read gives.
use native.Mathlib.Decide.{ℕ_discrete}
use lingshu_round.Prelude.{
  ℕ, suc, ◌≤◌, String, ◌≡◌, refl, ◌∙◌, ap, sym, subst, Bool, true, false, not, ◌&&◌, Option, none,
  some, List, [], ◌∷◌, if◌then◌else◌, ◌==◌, ==_refl, Eq, string_eq, arith, Option-cases, Bool-cases,
  inl, inr,
}
use lingshu_round.Prelude.Count.{
  count, count_ext, count_mono, count_of_find-none, find_of_only, only_of_find,
}
use lingshu_round.Prelude.Value.{Value-discrete}
use lingshu_round.Infra.Errors.{AppError, app_error, function_not_found}
use lingshu_round.Infra.Exec.{ok, raise_if, require, ◌>>=◌}
use lingshu_round.Infra.Table.{Table}
use lingshu_round.Infra.Table
use lingshu_round.Function.Registry.{
  GlobalFunction, FunctionUpdate, NewFunction, Caller, apply_update, has_rid, is_named, create,
  get_by_rid, get_by_api_name, update_fields, delete_function, register, get, update, delete,
  delete_found, new_function,
}

-- one request of any tenant
pub data Request : Type 0 where
  registers : NewFunction → Request
  updates : String → FunctionUpdate → Request
  deletes : String → Request

raise_if-state : {S : Type 0} (b : Bool) (e : AppError) (s : S) → (raise_if b e s).1 ≡ s
unfolding raise_if
raise_if-state true e s = refl
raise_if-state false e s = refl

updated-named :
    (api_name tenant_id : String) (u : FunctionUpdate) (version now : ℕ) (g : GlobalFunction)
    (b : Bool)
    → is_named api_name tenant_id (if b then apply_update u version now g else g)
      ≡ is_named api_name tenant_id g
updated-named api_name tenant_id u version now g true = refl
updated-named api_name tenant_id u version now g false = refl

module _ (T : Table GlobalFunction) where
  unfoldable pub perform : Caller → Request → T.State → T.State
  perform c (registers n) s = (register T c n s).1
  perform c (updates rid u) s = (update T c rid u s).1
  perform c (deletes rid) s = (delete T c rid s).1

  unfoldable pub run : List (Caller × Request) → T.State → T.State
  unfolding perform
  run [] s = s
  run ((c, r) ∷ rs) s = run rs (perform c r s)

  module _ (L : Table.IsLawful T) (api_name tenant_id : String) where
    abbrev named : T.State → ℕ
    named s = count (is_named api_name tenant_id) (T.rows s)

    register_unique :
        (c : Caller) (n : NewFunction) (s : T.State) → named s ≤ 1 → named (register T c n s).1 ≤ 1
    unfolding register create get_by_api_name ◌>>=◌
    register_unique c n s h = elim (Option-cases (get_by_api_name T n.api_name c.tenant_id s)) [
      | inl e ↦ rw e (
          ground (
            arith,
            L.count-insert (is_named api_name tenant_id) (new_function T c n) s,
            count_of_find-none (is_named n.api_name c.tenant_id) (T.rows s) e,
          ))
      | inr (f, e) ↦ rw e h
    ]

    update_unique :
        (c : Caller) (rid : String) (u : FunctionUpdate) (s : T.State)
        → named (update T c rid u s).1 ≡ named s
    unfolding update update_fields ◌>>=◌
    update_unique c rid u s = elim (Option-cases (get_by_rid T rid c.tenant_id s)) [
      | inl e ↦ rw e refl
      | inr (f, e) ↦ rw e (
          L.count-update_where (is_named api_name tenant_id) (has_rid rid c.tenant_id)
            (apply_update u (suc f.version) c.now) s
          ∙ count_ext _ _ _ (λ g.
            updated-named api_name tenant_id u (suc f.version) c.now g (has_rid rid c.tenant_id g)))
    ]

    delete_found-le :
        (o : Option GlobalFunction) (s : T.State) → named (delete_found T o s).1 ≤ named s
    delete_found-le none s = omega arith
    delete_found-le (some f) s = omega (
      arith,
      L.count-delete_where (is_named api_name tenant_id) (λ g. g.rid == f.rid) s,
      count_mono (λ g. not (g.rid == f.rid) && is_named api_name tenant_id g)
          (is_named api_name tenant_id) (T.rows s) (λ g h. ground arith),
    )

    delete_unique : (c : Caller) (rid : String) (s : T.State) → named (delete T c rid s).1 ≤ named s
    unfolding delete delete_function ◌>>=◌
    delete_unique c rid s =
        let (deleted, s') = delete_found T (get_by_rid T rid c.tenant_id s) s in
        subst (λ x. named x ≤ named s)
          (sym (raise_if-state (not deleted) (app_error function_not_found) s'))
          (delete_found-le (get_by_rid T rid c.tenant_id s) s)

    perform_unique :
        (c : Caller) (r : Request) (s : T.State) → named s ≤ 1 → named (perform c r s) ≤ 1
    unfolding perform
    perform_unique c (registers n) s h = register_unique c n s h
    perform_unique c (updates rid u) s h = omega (arith, update_unique c rid u s)
    perform_unique c (deletes rid) s h = omega (arith, delete_unique c rid s)

    -- Whatever functions the tenants register, update and delete, one request after the other, a
    -- tenant never has two functions with one name.
    pub run_unique :
        (rs : List (Caller × Request)) (s : T.State) → named s ≤ 1 → named (run rs s) ≤ 1
    unfolding run
    run_unique [] s h = h
    run_unique ((c, r) ∷ rs) s h = run_unique rs (perform c r s) (perform_unique c r s h)

string_discrete : Discrete String
unfolding string_eq
string_discrete = string_eq.dec

GlobalFunction-discrete : Discrete GlobalFunction
GlobalFunction-discrete = hlevel (string_discrete, Value-discrete, ℕ_discrete)

instance function_eq : Eq GlobalFunction
function_eq = record { dec = GlobalFunction-discrete }

module _ (T : Table GlobalFunction) (L : Table.IsLawful T) (c : Caller) (rid : String)
    (u : FunctionUpdate) (f : GlobalFunction) (s : T.State)
    (found : get_by_rid T rid c.tenant_id s ≡ some f)
    (unique : count (has_rid rid c.tenant_id) (T.rows s) ≡ 1) where
  abbrev pub updated : GlobalFunction
  updated = apply_update u (suc f.version) c.now f

  abbrev updated_state : T.State
  updated_state = T.update_where (has_rid rid c.tenant_id) (apply_update u (suc f.version) c.now) s

  same_rid :
      (g : GlobalFunction) (b : Bool)
      → has_rid rid c.tenant_id g ≡ b
      → has_rid rid c.tenant_id (if b then apply_update u (suc f.version) c.now g else g) ≡ b
  same_rid g true h = h
  same_rid g false h = h

  is_updated :
      (g : GlobalFunction) (b : Bool)
      → has_rid rid c.tenant_id g ≡ b
      → (has_rid rid c.tenant_id (if b then apply_update u (suc f.version) c.now g else g)
          && not ((if b then apply_update u (suc f.version) c.now g else g) == updated))
        ≡ true
      → (has_rid rid c.tenant_id g && not (g == f)) ≡ true
  is_updated g true h k = elim (Bool-cases (g == f)) [
    | inl e ↦ absurd (ground (arith, ==_refl updated))
    | inr e ↦ ground arith
  ]
  is_updated g false h k = ground arith

  found_updated : get_by_rid T rid c.tenant_id updated_state ≡ some updated
  unfolding get_by_rid
  found_updated =
      let p = has_rid rid c.tenant_id in
      let v = apply_update u (suc f.version) c.now in
      find_of_only p updated (T.rows updated_state)
        (omega (
          arith,
          L.count-update_where p p v s,
          count_ext (λ g. p (if p g then v g else g)) p (T.rows s) (λ g. same_rid g (p g) refl),
          unique,
        ))
        (omega (
          arith,
          L.count-update_where (λ g. p g && not (g == updated)) p v s,
          count_mono (λ g. p (if p g then v g else g) && not ((if p g then v g else g) == updated))
              (λ g. p g && not (g == f)) (T.rows s) (λ g. is_updated g (p g) refl),
          only_of_find p f (T.rows s) found unique,
        ))

  update_state : (update T c rid u s).1 ≡ updated_state
  unfolding update update_fields ◌>>=◌
  update_state = rw found refl

  -- After an update of the function with a rid, which one row has, the next read gives the row
  -- with the new fields, the old value of the others, and the version after the last.
  pub get-update : (get T c rid (update T c rid u s).1).0 ≡ ok updated
  unfolding get ◌>>=◌
  get-update =
      ap (λ x. (require (get_by_rid T rid c.tenant_id x) (app_error function_not_found) x).0)
        update_state
      ∙ ap (λ o. (require o (app_error function_not_found) updated_state).0) found_updated
