-- ===== src/Function/Executions/Listing.antt =====
-- function/repository/execution_repo.py: the paged list of a tenant's executions.
use lingshu_round.Prelude.{
  ℕ, ◌-◌, min, String, ◌≡◌, Bool, true, false, not, ◌&&◌, Option, none, some, List, ◌==◌, string_eq,
  length, select, arith, if◌then◌else◌, ◌+◌, leb, nat_eq, [], ◌∷◌, refl,
}
use lingshu_round.Prelude.Count.{count, one_if, count-select, count_none}
use lingshu_round.Prelude.Dict.{Dict}
use lingshu_round.Prelude.Page.{page, newest_first, length-page, count-page-le, length-select}
use lingshu_round.Infra.Table.{Table}
use lingshu_round.Function.Executions.{
  Execution, Status, pending_confirmation, running, success, failed, expired, cancelled,
}

abbrev same_status : Status → Status → Bool
same_status pending_confirmation pending_confirmation = true
same_status running running = true
same_status success success = true
same_status failed failed = true
same_status expired expired = true
same_status cancelled cancelled = true
same_status _ _ = false

-- `if capability_type:`, which the empty text is not
abbrev of_type : Option String → Execution → Bool
of_type none e = true
of_type (some t) e = if t == "" then true else e.capability_type == t

abbrev of_status : Option Status → Execution → Bool
of_status none e = true
of_status (some s) e = same_status e.status s

abbrev pub is_listed : String → Option String → Option Status → Execution → Bool
is_listed tenant_id capability_type status e =
    e.tenant_id == tenant_id && (of_type capability_type e && of_status status e)

module _ (T : Table Execution) where
  unfoldable pub list_by_tenant :
      String → ℕ → ℕ → Option String → Option Status → T.State → List Execution × ℕ
  list_by_tenant tenant_id offset limit capability_type status s =
      let base = select (is_listed tenant_id capability_type status) (T.rows s) in
      (page offset limit (newest_first (λ (e : Execution). e.started_at) base), length base)

  -- The total is the number of the tenant's executions that pass the filters, a page holds what is
  -- left of them after the offset up to the limit, and no execution of another tenant is on it.
  pub list_by_tenant_bounds :
      (tenant_id : String) (offset limit : ℕ) (capability_type : Option String)
      (status : Option Status) (s : T.State)
      → let (rows, total) = list_by_tenant tenant_id offset limit capability_type status s in
        (total ≡ count (is_listed tenant_id capability_type status) (T.rows s))
        × (length rows ≡ min limit (total - offset))
        × (count (λ e. not (e.tenant_id == tenant_id)) rows ≡ 0)
  unfolding list_by_tenant
  list_by_tenant_bounds tenant_id offset limit capability_type status s =
      let listed = is_listed tenant_id capability_type status in
      let key = λ (e : Execution). e.started_at in
      let other = λ (e : Execution). not (e.tenant_id == tenant_id) in
      (
        length-select listed (T.rows s),
        length-page key offset limit (select listed (T.rows s)),
        omega (
          arith,
          count-page-le key offset limit other (select listed (T.rows s)),
          count-select other listed (T.rows s),
          count_none (λ e. listed e && other e) (T.rows s) (λ e. ground arith),
        ),
      )

abbrev since : String → ℕ → Execution → Bool
since tenant_id time e = e.tenant_id == tenant_id && leb time e.started_at

abbrev all_statuses : List Status
all_statuses = pending_confirmation ∷ running ∷ success ∷ failed ∷ expired ∷ cancelled ∷ []

-- the statuses that occur, each with the number of its executions
unfoldable pub counted : (Status → ℕ) → List Status → Dict Status ℕ
counted n [] = []
counted n (status ∷ statuses) =
    let rest = counted n statuses in if n status == 0 then rest else (status, n status) ∷ rest

-- `sum(by_status.values())`
unfoldable pub total_of : Dict Status ℕ → ℕ
total_of [] = 0
total_of ((_, n) ∷ d) = n + total_of d

total_of-counted-cons :
    (n : Status → ℕ) (status : Status) (statuses : List Status)
    → total_of (counted n (status ∷ statuses)) ≡ n status + total_of (counted n statuses)
unfolding total_of counted
total_of-counted-cons n status statuses = ground arith

one_status :
    (status : Status)
    → one_if (same_status status pending_confirmation)
        + (one_if (same_status status running)
            + (one_if (same_status status success)
                + (one_if (same_status status failed)
                    + (one_if (same_status status expired)
                        + one_if (same_status status cancelled)))))
      ≡ 1
one_status pending_confirmation = refl
one_status running = refl
one_status success = refl
one_status failed = refl
one_status expired = refl
one_status cancelled = refl

module _ (p : Execution → Bool) where
  abbrev of : Status → List Execution → ℕ
  of status rows = count (λ (e : Execution). p e && same_status e.status status) rows

  of-all :
      (rows : List Execution)
      → of pending_confirmation rows
          + (of running rows
              + (of success rows + (of failed rows + (of expired rows + of cancelled rows))))
        ≡ count p rows
  unfolding count
  of-all [] = refl
  of-all (e ∷ rows) = ground (arith, of-all rows, one_status e.status)

module _ (T : Table Execution) where
  -- `count_recent`; the groups come in no order to rely on
  unfoldable pub count_recent : String → ℕ → T.State → Dict Status ℕ
  unfolding counted
  count_recent tenant_id time s =
      counted (λ status. of (since tenant_id time) status (T.rows s)) all_statuses

  -- The numbers by status add up to the number of the tenant's executions since the time.
  pub total_of-count_recent :
      (tenant_id : String) (time : ℕ) (s : T.State)
      → total_of (count_recent tenant_id time s)
        ≡ count (λ (e : Execution). e.tenant_id == tenant_id && leb time e.started_at) (T.rows s)
  unfolding count_recent total_of
  total_of-count_recent tenant_id time s =
      let n = λ (status : Status). of (since tenant_id time) status (T.rows s) in
      omega (
        arith,
        total_of-counted-cons n pending_confirmation
            (running ∷ success ∷ failed ∷ expired ∷ cancelled ∷ []),
        total_of-counted-cons n running (success ∷ failed ∷ expired ∷ cancelled ∷ []),
        total_of-counted-cons n success (failed ∷ expired ∷ cancelled ∷ []),
        total_of-counted-cons n failed (expired ∷ cancelled ∷ []),
        total_of-counted-cons n expired (cancelled ∷ []),
        total_of-counted-cons n cancelled [],
        none_counted n,
        of-all (since tenant_id time) (T.rows s),
      )
    where
      none_counted : (n : Status → ℕ) → total_of (counted n []) ≡ 0
      none_counted n = refl
