-- ===== src/Infra/Falls.antt =====
-- Actions after which a number read off the state is not higher than before: one rule for each way
-- to build an action.
use lingshu_round.Prelude.{ℕ, ◌≤◌, ◌≡◌, Bool, true, false, Option, none, some, arith, if◌then◌else◌}
use lingshu_round.Infra.Errors.{AppError}
use lingshu_round.Infra.Exec.{
  Result, ok, err, is_ok, Exec, pure, raise, gets, lift, require, raise_if, ◌>>=◌,
}

pub record Falls {S : Type 0} (size : S → ℕ) {A : Type 0} (m : Exec S A) : Type 0 where
  pub at : (s : S) → size (m s).1 ≤ size s

module _ {S : Type 0} {size : S → ℕ} {A : Type 0} where
  pub Falls-pure : (a : A) → Falls size (pure a)
  unfolding pure
  Falls-pure a = record { at = λ s. omega arith }

  pub Falls-raise : (e : AppError) → Falls size (raise {A = A} e)
  unfolding raise
  Falls-raise e = record { at = λ s. omega arith }

  pub Falls-gets : (f : S → A) → Falls size (gets f)
  unfolding gets
  Falls-gets f = record { at = λ s. omega arith }

  pub Falls-lift : (r : Result A) → Falls size (lift r)
  unfolding lift
  Falls-lift r = record { at = λ s. omega arith }

  pub Falls-require : (o : Option A) (e : AppError) → Falls size (require o e)
  unfolding require
  Falls-require none e = record { at = λ s. omega arith }
  Falls-require (some a) e = record { at = λ s. omega arith }

  pub Falls-if :
      (b : Bool) (m n : Exec S A) → Falls size m → Falls size n → Falls size (if b then m else n)
  Falls-if true m n hm hn = hm
  Falls-if false m n hm hn = hn

  pub Falls-option :
      {X : Type 0} (o : Option X) (m : Exec S A) (f : X → Exec S A)
      → Falls size m
      → ((x : X) → Falls size (f x))
      → Falls size (elim o [ none ↦ m | some x ↦ f x ])
  Falls-option none m f hm hf = hm
  Falls-option (some x) m f hm hf = hf x

module _ {S : Type 0} {size : S → ℕ} where
  pub Falls-raise_if : (b : Bool) (e : AppError) → Falls size (raise_if b e)
  unfolding raise_if
  Falls-raise_if true e = record { at = λ s. omega arith }
  Falls-raise_if false e = record { at = λ s. omega arith }

module _ {S : Type 0} {size : S → ℕ} {A B : Type 0} where
  Falls-continue :
      (r : Result A) (f : A → Exec S B) (s s' : S)
      → ((a : A) → Falls size (f a))
      → size s' ≤ size s
      → size ((lift r >>= f) s').1 ≤ size s
  unfolding ◌>>=◌
  Falls-continue (ok a) f s s' hf h = omega (arith, (hf a).at s', h)
  Falls-continue (err x) f s s' hf h = h

  pub Falls-bind :
      (m : Exec S A) (f : A → Exec S B)
      → Falls size m
      → ((a : A) → Falls size (f a))
      → Falls size (m >>= f)
  unfolding ◌>>=◌
  Falls-bind m f hm hf = record {
    at = λ s. let (r, s') = m s in Falls-continue r f s s' hf (hm.at s);
  }

-- After a success the number is zero.
pub record Settles {S : Type 0} (size : S → ℕ) {A : Type 0} (m : Exec S A) : Type 0 where
  pub at : (s : S) → is_ok (m s).0 ≡ true → size (m s).1 ≡ 0

module _ {S : Type 0} {size : S → ℕ} {A B : Type 0} where
  Settles-continue :
      (r : Result A) (f : A → Exec S B) (s : S)
      → ((a : A) → Settles size (f a))
      → is_ok ((lift r >>= f) s).0 ≡ true
      → size ((lift r >>= f) s).1 ≡ 0
  unfolding ◌>>=◌
  Settles-continue (ok a) f s hf h = (hf a).at s h
  Settles-continue (err e) f s hf h = absurd (ground arith)

  -- The rest of the action settles.
  pub Settles-bind :
      (m : Exec S A) (f : A → Exec S B) → ((a : A) → Settles size (f a)) → Settles size (m >>= f)
  unfolding ◌>>=◌
  Settles-bind m f hf = record { at = λ s h. let (r, s') = m s in Settles-continue r f s' hf h }

  -- The first action settles whatever its outcome, and the rest lets nothing rise.
  pub Settles-first :
      (m : Exec S A) (f : A → Exec S B)
      → ((s : S) → size (m s).1 ≡ 0)
      → ((a : A) → Falls size (f a))
      → Settles size (m >>= f)
  unfolding ◌>>=◌
  Settles-first m f hm hf = record {
    at = λ s _. let (r, s') = m s in omega (arith, hm s, Falls-continue r f s' s' hf (omega arith));
  }
