-- ===== src/Infra/Exec.antt =====
-- Handlers that read and write a state and may raise `AppError`. The state comes back beside the
-- error too: what was committed, or written to Redis or the graph, before the raise stays written.
-- A handler whose uncommitted rows are rolled back says so itself.
use mathlib.Core.Option.{Option, none, some}
use mathlib.Core.Bool.{Bool, true, false}
use lingshu_round.Infra.Errors.{AppError}

pub data Result {ℓ} (A : Type ℓ) : Type ℓ where
  ok : A → Result A
  err : AppError → Result A

abbrev pub is_ok {ℓ} : {A : Type ℓ} → Result A → Bool
is_ok (ok _) = true
is_ok (err _) = false

abbrev pub Exec {ℓ} : Type ℓ → Type ℓ → Type ℓ
Exec S A = S → Result A × S

module _ {ℓ} {S A : Type ℓ} where
  unfoldable pub pure : A → Exec S A
  pure a s = (ok a, s)

  unfoldable pub raise : AppError → Exec S A
  raise e s = (err e, s)

  unfoldable pub gets : (S → A) → Exec S A
  gets f s = (ok (f s), s)

  unfoldable pub lift : Result A → Exec S A
  lift r s = (r, s)

  -- `if not value: raise AppError(...)`, and the value after it
  unfoldable pub require : Option A → AppError → Exec S A
  require none e s = (err e, s)
  require (some a) e s = (ok a, s)

-- `if condition: raise AppError(...)`
unfoldable pub raise_if : {S : Type 0} → Bool → AppError → Exec S Unit
raise_if true e s = (err e, s)
raise_if false e s = (ok tt, s)

module _ {ℓ} {S A B : Type ℓ} where
  abbrev pub continue : Result A → (A → Exec S B) → Exec S B
  continue (ok a) f s = f a s
  continue (err e) f s = (err e, s)

  infixl 10 ◌>>=◌ ◌>>◌
  -- opening this opens the other actions too
  unfoldable pub ◌>>=◌ : Exec S A → (A → Exec S B) → Exec S B
  unfolding pure raise gets lift require raise_if
  ◌>>=◌ m f s = let (r, s') = m s in continue r f s'

  abbrev pub ◌>>◌ : Exec S A → Exec S B → Exec S B
  m >> n = m >>= λ _. n

-- `try: m finally: cleanup`
unfoldable pub finally_do {ℓ} : {S A : Type ℓ} → Exec S A → (S → S) → Exec S A
finally_do m cleanup s = let (r, s') = m s in (r, cleanup s')

-- A result without a state, for code that only computes.
infixl 10 ◌>>=ʳ◌
abbrev pub ◌>>=ʳ◌ {ℓ κ} : {A : Type ℓ} {B : Type κ} → Result A → (A → Result B) → Result B
ok a >>=ʳ f = f a
err e >>=ʳ f = err e
