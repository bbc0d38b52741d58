-- ===== src/Function/Params/Laws.antt =====
-- What resolved parameters hold.
use lingshu_round.Prelude.{
  String, ◌≡◌, refl, ap, ◌∙◌, Bool, true, false, not, ◌||◌, Option, none, some, List, [], ◌∷◌, map,
  all, contains, is_some, if◌then◌else◌, ◌==◌, string_eq, arith, Option-cases, inl, inr,
}
use lingshu_round.Prelude.Dict.{Dict, lookup, insert, lookup-insert}
use lingshu_round.Prelude.Value.{Value}
use lingshu_round.Infra.Exec.{Result, ok, err, ◌>>=ʳ◌}
use lingshu_round.Function.Actions.{ParamDef, or_default}
use lingshu_round.Function.Params.{
  Instance, ResolvedParams, given, resolve_given, resolve_one, resolve_from, resolve,
}

-- a required parameter was given
abbrev pub is_satisfied : Dict String Value → ParamDef → Bool
is_satisfied raw d = not (or_default d.required false) || is_some (given d.api_name raw)

abbrev pub names_of : List ParamDef → List String
names_of defs = map (λ (d : ParamDef). d.api_name) defs

abbrev or_else {ℓ} : {A : Type ℓ} → Option A → Option A → Option A
or_else none o = o
or_else (some a) o = some a

abbrev with_given : String → Option Value → Dict String Value → Dict String Value
with_given k none d = d
with_given k (some v) d = insert k v d

lookup-with_given :
    (k j : String) (raw d : Dict String Value)
    → lookup k (with_given j (given j raw) d)
      ≡ (if k == j then or_else (given k raw) (lookup k d) else lookup k d)
lookup-with_given k j raw d = elim (Option-cases (given j raw)) [
  | inl e ↦ ground arith
  | inr (v, e) ↦ ground (arith, lookup-insert k j v d)
]

-- a step that succeeded, and what followed it
first_of :
    (m : Result ResolvedParams) (f : ResolvedParams → Result ResolvedParams) (r' : ResolvedParams)
    → (m >>=ʳ f) ≡ ok r'
    → (r : ResolvedParams) × (m ≡ ok r) × (f r ≡ ok r')
first_of (ok r) f r' h = (r, refl, h)
first_of (err e) f r' h = absurd (ground arith)

module _ (get_instance : Value → String → Value → Result (Option Instance))
    (tenant_id : String) where
  values-resolve_given :
      (d : ParamDef) (v : Value) (r r' : ResolvedParams)
      → resolve_given get_instance tenant_id d v r ≡ ok r'
      → r'.values ≡ insert d.api_name v r.values
  unfolding resolve_given
  values-resolve_given d v r r' h = ground arith

  resolve_one-satisfied :
      (d : ParamDef) (raw : Dict String Value) (r r' : ResolvedParams)
      → resolve_one get_instance tenant_id d raw r ≡ ok r'
      → is_satisfied raw d ≡ true
  unfolding resolve_one
  resolve_one-satisfied d raw r r' h = ground arith

  values-resolve_one :
      (d : ParamDef) (raw : Dict String Value) (r r' : ResolvedParams)
      → resolve_one get_instance tenant_id d raw r ≡ ok r'
      → r'.values ≡ with_given d.api_name (given d.api_name raw) r.values
  unfolding resolve_one
  values-resolve_one d raw r r' h = elim (Option-cases (given d.api_name raw)) [
    | inl e ↦ ground arith
    | inr (v, e) ↦ ground (arith, values-resolve_given d v r r')
  ]

  lookup-resolve_one :
      (k : String) (d : ParamDef) (raw : Dict String Value) (r r' : ResolvedParams)
      → resolve_one get_instance tenant_id d raw r ≡ ok r'
      → lookup k r'.values
        ≡ (if k == d.api_name then or_else (given k raw) (lookup k r.values) else lookup k r.values)
  lookup-resolve_one k d raw r r' h =
      ap (lookup k) (values-resolve_one d raw r r' h) ∙ lookup-with_given k d.api_name raw r.values

  resolve_from-satisfied :
      (defs : List ParamDef) (raw : Dict String Value) (r r' : ResolvedParams)
      → resolve_from get_instance tenant_id defs raw r ≡ ok r'
      → all (is_satisfied raw) defs ≡ true
  unfolding resolve_from
  resolve_from-satisfied [] raw r r' h = refl
  resolve_from-satisfied (d ∷ ds) raw r r' h =
      let (r₁, e₁, e₂) = first_of (resolve_one get_instance tenant_id d raw r) _ r' h in
      ground (arith, resolve_one-satisfied d raw r r₁ e₁, resolve_from-satisfied ds raw r₁ r' e₂)

  lookup-resolve_from :
      (k : String) (defs : List ParamDef) (raw : Dict String Value) (r r' : ResolvedParams)
      → resolve_from get_instance tenant_id defs raw r ≡ ok r'
      → lookup k r'.values ≡ (
          if contains (names_of defs) k
          then or_else (given k raw) (lookup k r.values)
          else lookup k r.values)
  unfolding resolve_from
  lookup-resolve_from k [] raw r r' h = ground arith
  lookup-resolve_from k (d ∷ ds) raw r r' h =
      let (r₁, e₁, e₂) = first_of (resolve_one get_instance tenant_id d raw r) _ r' h in
      elim (Option-cases (given k raw)) [
        | inl e ↦
            ground
              (arith, lookup-resolve_one k d raw r r₁ e₁, lookup-resolve_from k ds raw r₁ r' e₂)
        | inr (v, e) ↦
            ground
              (arith, lookup-resolve_one k d raw r r₁ e₁, lookup-resolve_from k ds raw r₁ r' e₂)
      ]

  -- Where the parameters resolve, every required one was given, and the values are what was given
  -- for the parameters that the action defines and nothing else.
  pub resolve_lem :
      (k : String) (defs : List ParamDef) (raw : Dict String Value) (r : ResolvedParams)
      → resolve get_instance tenant_id defs raw ≡ ok r
      → (all (is_satisfied raw) defs ≡ true)
        × (lookup k r.values ≡ (if contains (names_of defs) k then given k raw else none))
  unfolding resolve lookup
  resolve_lem k defs raw r h =
      let start : ResolvedParams = record { values = []; instances = [] } in
      (
        resolve_from-satisfied defs raw start r h,
        lookup-resolve_from k defs raw start r h
            ∙ no_default (contains (names_of defs) k) (given k raw),
      )
    where
      no_default :
          (b : Bool) (o : Option Value)
          → (if b then or_else o none else none) ≡ (if b then o else none)
      no_default b none = ground arith
      no_default b (some v) = refl
