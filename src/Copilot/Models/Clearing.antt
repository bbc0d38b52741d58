-- ===== src/Copilot/Models/Clearing.antt =====
-- What the statements of a request do to the number of default models, and of models with a rid.
use lingshu_round.Prelude.{
  ℕ, ◌+◌, ◌≤◌, String, ◌≡◌, inl, inr, Bool-cases, refl, Bool, true, false, ◌&&◌, Option, none, some,
  List, [], ◌∷◌, arith, if◌then◌else◌, ◌==◌, string_eq,
}
use lingshu_round.Prelude.Count.{count, one_if, one_if-le, count_none, count_mono}
use lingshu_round.Infra.Table.{Table}
use lingshu_round.Infra.Table
use lingshu_round.Function.Registry.{Caller}
use lingshu_round.Copilot.Models.{
  CopilotModel, given, has_rid, is_default_of, cleared, clear_defaults,
}

pub count_either {ℓ} :
    {A : Type ℓ} (p q r : A → Bool) (xs : List A)
    → ((x : A) → one_if (p x) ≤ one_if (q x) + one_if (r x))
    → count p xs ≤ count q xs + count r xs
unfolding count
count_either p q r [] h = omega arith
count_either p q r (x ∷ xs) h = omega (arith, h x, count_either p q r xs h)

module _ (T : Table CopilotModel) (L : Table.IsLawful T) (tenant_id : String) where
  abbrev pub defaults : T.State → ℕ
  defaults s = count (is_default_of tenant_id) (T.rows s)

  abbrev pub named : String → T.State → ℕ
  named rid s = count (has_rid rid tenant_id) (T.rows s)

  not_default :
      (b : Bool) (now : ℕ) (m : CopilotModel)
      → is_default_of tenant_id (if b then cleared now m else m) ≡ true
      → is_default_of tenant_id m ≡ true
  not_default true now m h = absurd (ground arith)
  not_default false now m h = h

  pub same_rid :
      (b : Bool) (f : CopilotModel → CopilotModel) (rid : String) (m : CopilotModel)
      → has_rid rid tenant_id (f m) ≡ has_rid rid tenant_id m
      → has_rid rid tenant_id (if b then f m else m) ≡ true
      → has_rid rid tenant_id m ≡ true
  same_rid true f rid m e h = ground arith
  same_rid false f rid m e h = h

  module _ (c : Caller) where
    pub defaults-clear : (b : Bool) (s : T.State) → defaults (clear_defaults T c b s) ≤ defaults s
    defaults-clear false s = omega arith
    defaults-clear true s =
        rw
          (L.count-update_where (is_default_of tenant_id) (is_default_of c.tenant_id)
            (cleared c.now) s)
          (count_mono _ _ _ (λ m. not_default (is_default_of c.tenant_id m) c.now m))

    pub named-clear :
        (rid : String) (b : Bool) (s : T.State) → named rid (clear_defaults T c b s) ≤ named rid s
    named-clear rid false s = omega arith
    named-clear rid true s =
        rw
          (L.count-update_where (has_rid rid tenant_id) (is_default_of c.tenant_id) (cleared c.now)
            s)
          (count_mono _ _ _
            (λ m. same_rid (is_default_of c.tenant_id m) (cleared c.now) rid m refl))

    -- the tenant's own defaults are all cleared
    none_default :
        (b : Bool) (m : CopilotModel)
        → (c.tenant_id == tenant_id) ≡ true
        → is_default_of c.tenant_id m ≡ b
        → is_default_of tenant_id (if b then cleared c.now m else m) ≡ false
    none_default true m own h = ground arith
    none_default false m own h = ground arith

    -- a new default has room
    pub room :
        (b : Bool) (s : T.State)
        → defaults s ≤ 1
        → one_if (c.tenant_id == tenant_id && b) + defaults (clear_defaults T c b s) ≤ 1
    room false s h = ground arith
    room true s h = elim (Bool-cases (c.tenant_id == tenant_id)) [
      | inl own ↦ omega (
        arith,
        one_if-le (c.tenant_id == tenant_id && true),
        L.count-update_where (is_default_of tenant_id) (is_default_of c.tenant_id) (cleared c.now)
            s,
        count_none
            (λ m.
              is_default_of tenant_id (if is_default_of c.tenant_id m then cleared c.now m else m))
            (T.rows s) (λ m. none_default (is_default_of c.tenant_id m) m own refl),
      )
      | inr other ↦ ground (arith, defaults-clear true s)
    ]

    pub written_default :
        (o : Option Bool) (rid : String) (m : CopilotModel)
        → has_rid rid c.tenant_id m ≡ true
        → one_if (m.tenant_id == tenant_id && given o m.is_default)
          ≤ one_if (is_default_of tenant_id m)
            + one_if ((c.tenant_id == tenant_id && given o false) && has_rid rid tenant_id m)
    written_default none rid m h = ground arith
    written_default (some b) rid m h = ground arith
