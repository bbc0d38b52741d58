-- ===== src/Infra/Table.antt =====
-- A store of rows, as far as the source's SQL and Cypher statements use it: insert a row, write
-- the rows that meet a condition, delete those that do. A store is a parameter of the code, and
-- `IsLawful` is what the statements are documented to do, up to the order of the rows.
use lingshu_round.Prelude.{◌+◌, ◌≡◌, Bool, not, ◌&&◌, List, if◌then◌else◌}
use lingshu_round.Prelude.Count.{count, one_if}

pub record Table (A : Type 0) : Type 1 where
  pub State : Type 0
  pub rows : State → List A
  pub insert : A → State → State
  pub update_where : (A → Bool) → (A → A) → State → State
  pub delete_where : (A → Bool) → State → State

pub record IsLawful {A : Type 0} (T : Table A) : Type 0 where
  pub count-insert :
      (p : A → Bool) (a : A) (s : T.State)
      → count p (T.rows (T.insert a s)) ≡ one_if (p a) + count p (T.rows s)
  pub count-update_where :
      (p q : A → Bool) (f : A → A) (s : T.State)
      → count p (T.rows (T.update_where q f s)) ≡ count (λ a. p (if q a then f a else a)) (T.rows s)
  pub count-delete_where :
      (p q : A → Bool) (s : T.State)
      → count p (T.rows (T.delete_where q s)) ≡ count (λ a. not (q a) && p a) (T.rows s)
