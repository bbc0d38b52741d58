-- ===== src/Copilot/Models/Default.antt =====
-- A tenant has at most one default model.
use lingshu_round.Prelude.{
  ℕ, ◌+◌, ◌≤◌, String, ◌<>◌, ◌≡◌, inl, inr, Bool-cases, refl, Bool, true, false, not, ◌&&◌, List,
  [], ◌∷◌, arith, if◌then◌else◌, ◌==◌, string_eq,
}
use lingshu_round.Prelude.Count.{count, one_if, one_if-le, count_none, count_mono}
use lingshu_round.Infra.Falls.{Falls, Falls-gets, Falls-require, Falls-bind}
use lingshu_round.Infra.Table.{Table}
use lingshu_round.Infra.Table
use lingshu_round.Function.Registry.{Caller}
use lingshu_round.Copilot.Models.Clearing
use lingshu_round.Copilot.Models.Clearing.{count_either}
use lingshu_round.Copilot.Models.{
  CopilotModel, NewModel, ModelUpdate, given, with_updates, has_rid, is_default_of, clear_defaults,
  new_model, register, get, write, update, delete,
}

-- one request that writes
pub data Call : Type 0 where
  registers : NewModel → Call
  updates : String → ModelUpdate → Call
  deletes : String → Call

-- No two models of the tenant have one rid, and at most one is the default.
abbrev pub IsWellFormed : (T : Table CopilotModel) → String → T.State → Type 0
IsWellFormed T tenant_id s =
    ((rid : String) → count (has_rid rid tenant_id) (T.rows s) ≤ 1)
    × (count (is_default_of tenant_id) (T.rows s) ≤ 1)

module _ (T : Table CopilotModel) where
  unfoldable pub perform : Caller → Call → T.State → T.State
  perform c (registers n) s = (register T c n s).1
  perform c (updates rid u) s = (update T c rid u s).1
  perform c (deletes rid) s = (delete T c rid s).1

  unfoldable pub run : List (Caller × Call) → T.State → T.State
  unfolding perform
  run [] s = s
  run ((c, r) ∷ rs) s = run rs (perform c r s)

  -- no model has the rid of a request's uuid when it is made
  abbrev pub AreNew : List (Caller × Call) → T.State → Type 0
  AreNew [] s = Unit
  AreNew ((c, r) ∷ rs) s =
      (count (λ (m : CopilotModel). m.rid == "ri.model." <> c.uuid) (T.rows s) ≡ 0)
      × AreNew rs (perform c r s)

module _ (T : Table CopilotModel) (L : Table.IsLawful T) (tenant_id : String) where
  abbrev defaults : T.State → ℕ
  defaults s = Clearing.defaults T L tenant_id s

  abbrev named : String → T.State → ℕ
  named rid s = Clearing.named T L tenant_id rid s

  module _ (c : Caller) where
    default_or_before :
        (b : Bool) (u : ModelUpdate) (rid : String) (m : CopilotModel)
        → has_rid rid c.tenant_id m ≡ b
        → one_if (is_default_of tenant_id (if b then with_updates u c.now m else m))
          ≤ one_if (is_default_of tenant_id m)
            + one_if
                ((c.tenant_id == tenant_id && given u.is_default false) && has_rid rid tenant_id m)
    default_or_before true u rid m h = Clearing.written_default T L tenant_id c u.is_default rid m h
    default_or_before false u rid m h = omega arith

    count_guarded :
        (b : Bool) (rid : String) (s : T.State)
        → named rid s ≤ 1
        → count (λ m. b && has_rid rid tenant_id m) (T.rows s) ≤ one_if b
    count_guarded true rid s h = h
    count_guarded false rid s h =
        omega (arith, count_none (λ m. false && has_rid rid tenant_id m) (T.rows s) (λ m. refl))

    defaults-write :
        (rid : String) (u : ModelUpdate) (s : T.State)
        → defaults s ≤ 1
        → named rid s ≤ 1
        → defaults (write T c rid u s) ≤ 1
    defaults-write rid u s h one =
        let d = given u.is_default false in
        let own = c.tenant_id == tenant_id && d in
        let s' = clear_defaults T c d s in
        omega (
          arith,
          L.count-update_where (is_default_of tenant_id) (has_rid rid c.tenant_id)
              (with_updates u c.now) s',
          count_either
              (λ m.
                is_default_of tenant_id
                  (if has_rid rid c.tenant_id m then with_updates u c.now m else m))
              (is_default_of tenant_id) (λ m. own && has_rid rid tenant_id m) (T.rows s')
              (λ m. default_or_before (has_rid rid c.tenant_id m) u rid m refl),
          count_guarded own rid s' (omega (arith, Clearing.named-clear T L tenant_id c rid d s)),
          Clearing.room T L tenant_id c d s h,
        )

    named-write :
        (other rid : String) (u : ModelUpdate) (s : T.State)
        → named other (write T c rid u s) ≤ named other s
    named-write other rid u s =
        let s' = clear_defaults T c (given u.is_default false) s in
        omega (
          arith,
          L.count-update_where (has_rid other tenant_id) (has_rid rid c.tenant_id)
              (with_updates u c.now) s',
          count_mono
              (λ m.
                has_rid other tenant_id
                  (if has_rid rid c.tenant_id m then with_updates u c.now m else m))
              (has_rid other tenant_id) (T.rows s')
              (λ m.
                Clearing.same_rid T L tenant_id (has_rid rid c.tenant_id m) (with_updates u c.now)
                  other m refl),
          Clearing.named-clear T L tenant_id c other (given u.is_default false) s,
        )

    register-IsWellFormed :
        (n : NewModel) (s : T.State)
        → count (λ (m : CopilotModel). m.rid == "ri.model." <> c.uuid) (T.rows s) ≡ 0
        → IsWellFormed T tenant_id s
        → IsWellFormed T tenant_id (register T c n s).1
    unfolding register
    register-IsWellFormed n s new (ids, one) =
        let s' = clear_defaults T c n.is_default s in
        (
          (λ rid.
              rw (L.count-insert (has_rid rid tenant_id) (new_model T c n) s')
                (elim (Bool-cases ("ri.model." <> c.uuid == rid)) [
                  | inl same ↦ omega (
                    arith,
                    one_if-le (has_rid rid tenant_id (new_model T c n)),
                    Clearing.named-clear T L tenant_id c rid n.is_default s,
                    count_mono (has_rid rid tenant_id) (λ m. m.rid == "ri.model." <> c.uuid)
                        (T.rows s) (λ m h. ground arith),
                  )
                  | inr other ↦
                      ground
                        (arith, Clearing.named-clear T L tenant_id c rid n.is_default s, ids rid)
                ])),
          rw (L.count-insert (is_default_of tenant_id) (new_model T c n) s')
              (Clearing.room T L tenant_id c n.is_default s one),
        )

    Falls-get : (size : T.State → ℕ) (rid : String) → Falls size (get T c rid)
    unfolding get
    Falls-get size rid = Falls-bind _ _ (Falls-gets _) λ found. Falls-require found _

    Falls-delete :
        (p : CopilotModel → Bool) (rid : String) → Falls (λ s. count p (T.rows s)) (delete T c rid)
    unfolding delete
    Falls-delete p rid = Falls-bind _ _ (Falls-get _ rid) λ model. record {
      at = λ s.
          rw (L.count-delete_where p (λ n. n.rid == model.rid) s)
            (count_mono (λ n. not (n.rid == model.rid) && p n) p (T.rows s) (λ n h. ground arith));
    }

    perform-IsWellFormed :
        (r : Call) (s : T.State)
        → count (λ (m : CopilotModel). m.rid == "ri.model." <> c.uuid) (T.rows s) ≡ 0
        → IsWellFormed T tenant_id s
        → IsWellFormed T tenant_id (perform T c r s)
    unfolding perform update
    perform-IsWellFormed (registers n) s new h = register-IsWellFormed n s new h
    perform-IsWellFormed (updates rid u) s new (ids, one) = (
      (λ other. omega (
        arith,
        (Falls-get (named other) rid).at (write T c rid u s),
        named-write other rid u s,
        ids other,
      )),
      omega (
        arith,
        (Falls-get defaults rid).at (write T c rid u s),
        defaults-write rid u s one (ids rid),
      ),
    )
    perform-IsWellFormed (deletes rid) s new (ids, one) = (
      (λ other. omega (arith, (Falls-delete (has_rid other tenant_id) rid).at s, ids other)),
      omega (arith, (Falls-delete (is_default_of tenant_id) rid).at s),
    )

  -- Whatever models the tenants register, update and delete, one request after the other, a tenant
  -- never has two default models, nor two with one rid, if it had not before and the uuid of each
  -- request is new.
  pub run-IsWellFormed :
      (rs : List (Caller × Call)) (s : T.State)
      → AreNew T rs s
      → IsWellFormed T tenant_id s
      → IsWellFormed T tenant_id (run T rs s)
  unfolding run
  run-IsWellFormed [] s new h = h
  run-IsWellFormed ((c, r) ∷ rs) s (new, later) h =
      run-IsWellFormed rs (perform T c r s) later (perform-IsWellFormed c r s new h)
