-- ===== src/Ontology/Retry/Laws.antt =====
-- How often an operation is run again, and how it ends.
use lingshu_round.Prelude.{ℕ, zero, suc, ◌≤◌, ◌≡◌, refl, ap, true, false, length, arith}
use lingshu_round.Ontology.Retry.{Attempt, is_transient, attempts, retry_neo4j_operation}

module _ {S A E : Type 0} (operation : S → Attempt A E × S) (base_delay max_delay : ℕ) where
  -- the state after a number of runs
  abbrev pub after_runs : ℕ → S → S
  after_runs zero s = s
  after_runs (suc k) s = after_runs k (operation s).1

  -- so many runs in a row end with a transient failure
  abbrev pub AllTransient : ℕ → S → Type 0
  AllTransient zero s = Unit
  AllTransient (suc k) s = (is_transient (operation s).0 ≡ true) × AllTransient k (operation s).1

  attempts-run :
      (k left attempt : ℕ) (s : S)
      → k ≤ left
      → AllTransient k s
      → is_transient (operation (after_runs k s)).0 ≡ false
      → ((attempts operation base_delay max_delay left attempt s).0
          ≡ (operation (after_runs k s)).0)
        × (length (attempts operation base_delay max_delay left attempt s).1 ≡ k)
        × ((attempts operation base_delay max_delay left attempt s).2
            ≡ (operation (after_runs k s)).1)
  unfolding attempts
  attempts-run zero zero attempt s le t h = (refl, refl, refl)
  attempts-run zero (suc left) attempt s le t h = rw (h, attempts) (refl, refl, refl)
  attempts-run (suc k) zero attempt s le t h = ground arith
  attempts-run (suc k) (suc left) attempt s le (t, ts) h =
      let (a, b, c) = attempts-run k left (suc attempt) (operation s).1 (omega arith) ts h in
      rw (t, attempts) (a, ap suc b, c)

  -- Where the operation ends with a transient failure some times, at most as often as there are
  -- retries, and not so the next time, the retries wait that often and end as that run does.
  pub retry_succeeds :
      (k max_retries : ℕ) (s : S)
      → k ≤ max_retries
      → AllTransient k s
      → is_transient (operation (after_runs k s)).0 ≡ false
      → ((retry_neo4j_operation operation base_delay max_delay max_retries s).0
          ≡ (operation (after_runs k s)).0)
        × (length (retry_neo4j_operation operation base_delay max_delay max_retries s).1 ≡ k)
        × ((retry_neo4j_operation operation base_delay max_delay max_retries s).2
            ≡ (operation (after_runs k s)).1)
  unfolding retry_neo4j_operation
  retry_succeeds k max_retries s le t h = attempts-run k max_retries 0 s le t h
