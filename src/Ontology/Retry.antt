-- ===== src/Ontology/Retry.antt =====
-- ontology/retry.py: an operation of the database is run again after a transient failure. What the
-- operation does and how it ends is a parameter; delays are in milliseconds.
pub mod Laws
use lingshu_round.Prelude.{ℕ, zero, suc, ◌*◌, ◌^◌, min, Bool, true, false, List, [], ◌∷◌}

-- how one attempt ends: a result, one of `RETRYABLE_EXCEPTIONS`, or another exception
pub data Attempt (A E : Type 0) : Type 0 where
  done : A → Attempt A E
  transient : E → Attempt A E
  failed : E → Attempt A E

abbrev pub is_transient : {A E : Type 0} → Attempt A E → Bool
is_transient (done _) = false
is_transient (transient _) = true
is_transient (failed _) = false

abbrev pub default_max_retries : ℕ
default_max_retries = 3

-- `delay = min(base_delay * (2 ** attempt), max_delay)`
unfoldable pub delay_of : ℕ → ℕ → ℕ → ℕ
delay_of base_delay max_delay attempt = min (base_delay * 2 ^ attempt) max_delay

module _ {S A E : Type 0} (operation : S → Attempt A E × S) (base_delay max_delay : ℕ) where
  -- after a transient failure: wait and go on
  abbrev waited : ℕ → Attempt A E × List ℕ × S → Attempt A E × List ℕ × S
  waited delay (r, delays, s) = (r, delay ∷ delays, s)

  -- the loop, with the attempts that are left after this one, and the number of this one: how it
  -- ends, the delays that it waited, and the state
  unfoldable pub attempts : ℕ → ℕ → S → Attempt A E × List ℕ × S
  unfolding delay_of
  attempts zero attempt s = let (r, s') = operation s in (r, [], s')
  attempts (suc left) attempt s =
      let (r, s') = operation s in
      elim (is_transient r) [
        | true ↦ waited (delay_of base_delay max_delay attempt) (attempts left (suc attempt) s')
        | false ↦ (r, [], s')
      ]

  unfoldable pub retry_neo4j_operation : ℕ → S → Attempt A E × List ℕ × S
  unfolding attempts
  retry_neo4j_operation max_retries s = attempts max_retries 0 s
