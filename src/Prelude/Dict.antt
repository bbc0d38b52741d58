-- ===== src/Prelude/Dict.antt =====
-- Python dicts as association lists in insertion order.
use mathlib.Core.Path.{◌≡◌, refl}
use mathlib.Core.Bool.{Bool, true, false, not, ◌&&◌}
use mathlib.Core.Logic.{inl, inr}
use mathlib.Core.Option.{Option, none, some}
use mathlib.Core.List.{List, [], ◌∷◌}
use native.Mathlib.Omega.{arith}
use lingshu_round.Prelude.Tests.{if◌then◌else◌, is_some, Option-cases}
use lingshu_round.Prelude.Equality.{Eq, ◌==◌}

abbrev pub Dict {ℓ κ} : Type ℓ → Type κ → Type (ℓ ⊔ κ)
Dict K V = List (K × V)

abbrev pub keys {ℓ κ} : {K : Type ℓ} {V : Type κ} → Dict K V → List K
keys [] = []
keys ((k, _) ∷ d) = k ∷ keys d

module _ {ℓ κ} {K : Type ℓ} {V : Type κ} ⦃e : Eq K⦄ where
  -- `d.get(k)`
  unfoldable pub lookup : K → Dict K V → Option V
  lookup k [] = none
  lookup k ((j, v) ∷ d) = if k == j then some v else lookup k d

  -- `d[k] = v`
  unfoldable pub insert : K → V → Dict K V → Dict K V
  insert k v [] = (k, v) ∷ []
  insert k v ((j, w) ∷ d) = if k == j then (j, v) ∷ d else (j, w) ∷ insert k v d

  -- `d.pop(k, None)`, for every entry of the key
  unfoldable pub erase : K → Dict K V → Dict K V
  erase k [] = []
  erase k ((j, w) ∷ d) = let rest = erase k d in if k == j then rest else (j, w) ∷ rest

  -- `{**d, **new}`: the entries of `new` are written over `d`, in their order
  unfoldable pub update : Dict K V → Dict K V → Dict K V
  unfolding insert
  update d [] = d
  update d ((k, v) ∷ new) = update (insert k v d) new

  -- `k in d`
  abbrev pub has_key : K → Dict K V → Bool
  has_key k d = is_some (lookup k d)

  pub lookup-nil : (k : K) → lookup k [] ≡ none
  unfolding lookup
  lookup-nil k = refl

  pub lookup-cons :
      (j k : K) (v : V) (d : Dict K V)
      → lookup j ((k, v) ∷ d) ≡ (if j == k then some v else lookup j d)
  unfolding lookup
  lookup-cons j k v d = refl

  pub lookup-insert :
      (j k : K) (v : V) (d : Dict K V)
      → lookup j (insert k v d) ≡ (if j == k then some v else lookup j d)
  unfolding lookup insert
  lookup-insert j k v [] = refl
  lookup-insert j k v ((i, w) ∷ d) = ground (arith, lookup-insert j k v d)

  pub lookup-erase :
      (j k : K) (d : Dict K V) → lookup j (erase k d) ≡ (if j == k then none else lookup j d)
  unfolding lookup erase
  lookup-erase j k [] = ground arith
  lookup-erase j k ((i, w) ∷ d) = ground (arith, lookup-erase j k d)

  -- The last value that a list of writes gives to `k`.
  abbrev pub last_write : K → Dict K V → Option V → Option V
  last_write k [] o = o
  last_write k ((j, v) ∷ new) o = last_write k new (if k == j then some v else o)

  pub lookup-update :
      (k : K) (d new : Dict K V) → lookup k (update d new) ≡ last_write k new (lookup k d)
  unfolding update
  lookup-update k d [] = refl
  lookup-update k d ((j, v) ∷ new) =
      ground (arith, lookup-update k (insert j v d) new, lookup-insert k j v d)

  pub last_write_absent :
      (k : K) (new : Dict K V) (o : Option V) → lookup k new ≡ none → last_write k new o ≡ o
  unfolding lookup
  last_write_absent k [] o h = refl
  last_write_absent k ((j, v) ∷ new) o h = ground (arith, last_write_absent k new o)

  pub absent : (k : K) (d : Dict K V) → has_key k d ≡ false → lookup k d ≡ none
  absent k d h = elim (Option-cases (lookup k d)) [ inl e ↦ e | inr (v, e) ↦ ground arith ]

  -- no key occurs twice, as in every dict
  abbrev pub is_dict : Dict K V → Bool
  is_dict [] = true
  is_dict ((k, _) ∷ d) = not (has_key k d) && is_dict d

  pub last_write_given :
      (k : K) (v : V) (new : Dict K V) (o : Option V)
      → is_dict new ≡ true
      → lookup k new ≡ some v
      → last_write k new o ≡ some v
  unfolding lookup
  last_write_given k v [] o h e = ground arith
  last_write_given k v ((j, w) ∷ new) o h e =
      ground (arith, last_write_given k v new o, last_write_absent k new (some w), absent k new)

  -- A write leaves a dict a dict.
  pub is_dict-insert :
      (k : K) (v : V) (d : Dict K V) → is_dict d ≡ true → is_dict (insert k v d) ≡ true
  unfolding insert lookup
  is_dict-insert k v [] h = refl
  is_dict-insert k v ((j, w) ∷ d) h = ground (arith, is_dict-insert k v d, lookup-insert j k v d)
