-- ===== src/Function/Safety.antt =====
-- function/safety/enforcer.py, and `compute_safety_level` of function/workflows/engine.py.
use lingshu_round.Prelude.{
  ℕ, String, Bool, true, false, ◌||◌, Option, none, some, List, [], ◌∷◌, if◌then◌else◌, ◌==◌,
  string_eq, contains, ◌≡◌, any, arith, ltb, nat_eq, ◌<◌, ◌≤◌, all, refl, zero, suc, leb, ◌&&◌,
  is_empty, ==_refl, ==_other, length,
}
use lingshu_round.Prelude.Dict.{Dict, lookup}
use lingshu_round.Prelude.Value.{Value, bool, text, truthy}

abbrev pub direct_execute_levels : List String
direct_execute_levels = "SAFETY_READ_ONLY" ∷ "SAFETY_IDEMPOTENT_WRITE" ∷ []

pub record SafetyDecision : Type 0 where
  pub requires_confirmation : Bool
  pub message : Option String
  pub affected_outputs : List (Dict String Value)
  pub side_effects : List (Dict String Value)

-- `o.get(key, default)`
abbrev get_or : String → Value → Dict String Value → Value
get_or key default o = elim (lookup key o) [ none ↦ default | some v ↦ v ]

unfoldable pub affected_outputs : List (Dict String Value) → List (Dict String Value)
affected_outputs [] = []
affected_outputs (o ∷ os) =
    let rest = affected_outputs os in
    if truthy (get_or "writeback" (bool false) o)
    then (("name", get_or "name" (text "") o)
        ∷ ("target_param", get_or "target_param" (text "") o)
        ∷ ("operation", get_or "operation" (text "") o)
        ∷ ("writeback", get_or "writeback" (bool false) o)
        ∷ [])
      ∷ rest
    else rest

abbrev direct : SafetyDecision
direct = record {
  requires_confirmation = false;
  message = none;
  affected_outputs = [];
  side_effects = [];
}

abbrev confirmation_message : String → Option String
confirmation_message level =
    if level == "SAFETY_CRITICAL"
    then some "This is a critical operation that cannot be undone"
    else if level == "SAFETY_NON_IDEMPOTENT"
    then some "This operation may have irreversible effects"
    else none

-- `SafetyEnforcer.check`
unfoldable pub check :
    String → List (Dict String Value) → List (Dict String Value) → Bool → SafetyDecision
unfolding affected_outputs
check level outputs side_effects skip_confirmation =
    if skip_confirmation
    then direct
    else if contains direct_execute_levels level
    then direct
    else record {
      requires_confirmation = true;
      message = confirmation_message level;
      affected_outputs = affected_outputs outputs;
      side_effects = side_effects;
    }

-- `SAFETY_LEVEL_ORDER.get(level, 0)`
unfoldable pub safety_rank : String → ℕ
safety_rank level =
    if level == "SAFETY_IDEMPOTENT_WRITE"
    then 1
    else if level == "SAFETY_NON_IDEMPOTENT"
    then 2
    else if level == "SAFETY_CRITICAL"
    then 3
    else 0

-- `SAFETY_LEVELS_BY_RANK.get(rank, "SAFETY_READ_ONLY")`
unfoldable pub level_of_rank : ℕ → String
level_of_rank rank =
    if rank == 1
    then "SAFETY_IDEMPOTENT_WRITE"
    else if rank == 2
    then "SAFETY_NON_IDEMPOTENT"
    else if rank == 3
    then "SAFETY_CRITICAL"
    else "SAFETY_READ_ONLY"

-- `max(...)` of the ranks, 0 for none
unfoldable pub max_rank : List String → ℕ
unfolding safety_rank
max_rank [] = 0
max_rank (l ∷ ls) = let m = max_rank ls in if ltb (safety_rank l) m then m else safety_rank l

unfoldable pub compute_safety_level : List String → String
unfolding max_rank level_of_rank
compute_safety_level levels = level_of_rank (max_rank levels)

-- the levels that the program knows
abbrev pub is_known : String → Bool
is_known level =
    contains direct_execute_levels level
    || (level == "SAFETY_NON_IDEMPOTENT" || level == "SAFETY_CRITICAL")

-- the levels from the highest to the lowest one
abbrev pub falling_levels : List String
falling_levels =
    "SAFETY_CRITICAL" ∷ "SAFETY_NON_IDEMPOTENT" ∷ "SAFETY_IDEMPOTENT_WRITE" ∷ "SAFETY_READ_ONLY"
    ∷ []

-- how many levels are below a level; none is below one that is not known
unfoldable pub below : String → List String → ℕ
below level [] = 0
below level (l ∷ ls) = let rest = below level ls in if level == l then length ls else rest

abbrev pub severity : String → ℕ
severity level = below level falling_levels

-- An independent description of the level of some nodes: a known level, with none above it among
-- theirs. One of theirs is as severe, or there are no nodes and it is the lowest.
abbrev pub is_highest : String → List String → Bool
is_highest level levels =
    is_known level
    && (all (λ l. leb (severity l) (severity level)) levels
        && (any (λ l. severity l == severity level) levels
            || is_empty levels && level == "SAFETY_READ_ONLY"))

severity-rank : (level : String) → severity level ≡ safety_rank level
unfolding below safety_rank string_eq
severity-rank level = ground (
  arith,
  ==_other level "SAFETY_IDEMPOTENT_WRITE" "SAFETY_NON_IDEMPOTENT" refl,
  ==_other level "SAFETY_IDEMPOTENT_WRITE" "SAFETY_CRITICAL" refl,
  ==_other level "SAFETY_NON_IDEMPOTENT" "SAFETY_CRITICAL" refl,
)

rank_bound : (level : String) → safety_rank level < 4
unfolding safety_rank
rank_bound level = ground arith

max_rank_bound : (levels : List String) → max_rank levels < 4
unfolding max_rank
max_rank_bound [] = omega arith
max_rank_bound (l ∷ ls) = ground (arith, max_rank_bound ls, rank_bound l)

-- how severe the level of a rank is
severity-level_of_rank : (n : ℕ) → n < 4 → severity (level_of_rank n) ≡ n
unfolding level_of_rank below string_eq nat_eq native.Mathlib.Decide.ℕ_discrete
severity-level_of_rank zero h = refl
severity-level_of_rank (suc zero) h = refl
severity-level_of_rank (suc (suc zero)) h = refl
severity-level_of_rank (suc (suc (suc zero))) h = refl
severity-level_of_rank (suc (suc (suc (suc n)))) h = ground arith

known_level : (n : ℕ) → n < 4 → is_known (level_of_rank n) ≡ true
unfolding level_of_rank string_eq nat_eq native.Mathlib.Decide.ℕ_discrete
known_level zero h = refl
known_level (suc zero) h = refl
known_level (suc (suc zero)) h = refl
known_level (suc (suc (suc zero))) h = refl
known_level (suc (suc (suc (suc n)))) h = ground arith

-- no level ranks above the maximum, nor above what does not lie below it
none_above :
    (levels : List String) (n : ℕ)
    → max_rank levels ≤ n
    → all (λ l. leb (severity l) n) levels ≡ true
unfolding max_rank
none_above [] n h = refl
none_above (l ∷ ls) n h = ground (arith, none_above ls n, severity-rank l)

-- the maximum is the rank of a level, if there is one
reached :
    (l : String) (ls : List String) → any (λ x. severity x == max_rank (l ∷ ls)) (l ∷ ls) ≡ true
unfolding max_rank
reached l [] = ground (arith, severity-rank l, ==_refl (safety_rank l))
reached l (l' ∷ ls) = ground (arith, reached l' ls, severity-rank l)

is_reached :
    (levels : List String)
    → (any (λ x. severity x == max_rank levels) levels
        || is_empty levels && level_of_rank (max_rank levels) == "SAFETY_READ_ONLY")
      ≡ true
unfolding max_rank level_of_rank string_eq nat_eq native.Mathlib.Decide.ℕ_discrete
is_reached [] = refl
is_reached (l ∷ ls) = ground (arith, reached l ls)

pub compute_safety_level-is_highest :
    (levels : List String) → is_highest (compute_safety_level levels) levels ≡ true
unfolding compute_safety_level
compute_safety_level-is_highest levels =
    let n = max_rank levels in
    let bound = max_rank_bound levels in
    rw (severity-level_of_rank n bound)
      (ground (arith, known_level n bound, none_above levels n (omega arith), is_reached levels))
