-- ===== src/Prelude/Value.antt =====
-- Values of the dynamic language: what JSON columns, node properties and parameters hold.
use lingshu_round.Prelude.Equality.{Eq, ◌==◌, string_eq, nat_eq}
use lingshu_round.Prelude.Tests.{if◌then◌else◌}
use Prim.Native.Nat.{ℕ, zero, suc}
use Prim.Native.String.{String}
use mathlib.Core.Bool.{Bool, true, false, ◌&&◌}
use mathlib.Core.Option.{Option, none, some}
use native.Mathlib.Decide.{ℕ_discrete}

mutual
  pub data Value : Type 0 where
    null : Value
    bool : Bool → Value
    num : ℕ → Value
    text : String → Value
    array : Items → Value
    object : Fields → Value

  pub data Items : Type 0 where
    nil : Items
    cons : Value → Items → Items

  pub data Fields : Type 0 where
    end : Fields
    field : String → Value → Fields → Fields

string_discrete : Discrete String
unfolding string_eq
string_discrete = string_eq.dec

pub Value-discrete : Discrete Value
Value-discrete = hlevel (ℕ_discrete, string_discrete)

instance unfoldable pub value_eq : Eq Value
value_eq = record { dec = Value-discrete }

-- `v is None`
abbrev pub is_null : Value → Bool
is_null null = true
is_null _ = false

-- `bool(v)`
abbrev pub truthy : Value → Bool
truthy null = false
truthy (bool b) = b
truthy (num zero) = false
truthy (num (suc _)) = true
truthy (text String.[]) = false
truthy (text (String.◌∷◌ _ _)) = true
truthy (array nil) = false
truthy (array (cons _ _)) = true
truthy (object end) = false
truthy (object (field _ _ _)) = true

-- a number, or a Boolean as a number
abbrev equals_num : ℕ → Value → Bool
equals_num n (num m) = n == m
equals_num n (bool b) = n == (if b then 1 else 0)
equals_num n _ = false

-- what a dict that is a value has under a key
abbrev field_of : String → Fields → Option Value
field_of k end = none
field_of k (field j v fs) = if k == j then some v else field_of k fs

abbrev count_fields : Fields → ℕ
count_fields end = 0
count_fields (field k v fs) = suc (count_fields fs)

-- `a == b` of Python, where True is 1, False is 0, and the order of a dict does not matter
unfoldable mutual
  pub equals : Value → Value → Bool
  equals null w = is_null w
  equals (bool b) w = equals_num (if b then 1 else 0) w
  equals (num n) w = equals_num n w
  equals (text s) w = elim w [ text t ↦ s == t | _ ↦ false ]
  equals (array xs) w = elim w [ array ys ↦ equals_items xs ys | _ ↦ false ]
  equals (object fs) w = elim w [
    | object gs ↦ count_fields fs == count_fields gs && equals_fields fs gs
    | _ ↦ false
  ]

  pub equals_items : Items → Items → Bool
  equals_items nil nil = true
  equals_items nil (cons _ _) = false
  equals_items (cons _ _) nil = false
  equals_items (cons x xs) (cons y ys) = equals x y && equals_items xs ys

  pub equals_fields : Fields → Fields → Bool
  equals_fields end gs = true
  equals_fields (field k v fs) gs =
      elim (field_of k gs) [ none ↦ false | some w ↦ equals v w ] && equals_fields fs gs
