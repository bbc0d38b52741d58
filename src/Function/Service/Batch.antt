-- ===== src/Function/Service/Batch.antt =====
-- function/service.py: an action for each item of a batch, whatever became of the items before.
use lingshu_round.Prelude.{
  ℕ, suc, ◌+◌, String, ◌≡◌, refl, Bool, true, false, Option, List, [], ◌∷◌, length, arith, ◌++◌,
  length-append,
}
use lingshu_round.Prelude.Dict.{Dict}
use lingshu_round.Prelude.Value.{Value}
use lingshu_round.Infra.Errors.{AppError, ErrorCode, common_internal_error}
use lingshu_round.Infra.Exec.{Result, ok, err, Exec, lift, ◌>>=◌}
use lingshu_round.Function.Executions.{Status, success}
use lingshu_round.Function.Services.{Request, Services, World, ExecutionResponse}
use lingshu_round.Function.Service.{execute_action}

-- an entry of `results`
pub data ItemResult : Type 0 where
  executed : ℕ → Status → String → ItemResult
  refused : ℕ → ErrorCode → ItemResult

pub record BatchSummary : Type 0 where
  pub total : ℕ
  pub success_count : ℕ
  pub failure_count : ℕ
  pub results : List ItemResult

abbrev succeeded : Status → Bool
succeeded success = true
succeeded _ = false

abbrev counted_as : Bool → BatchSummary → BatchSummary
counted_as true b = record b { success_count = suc b.success_count }
counted_as false b = record b { failure_count = suc b.failure_count }

abbrev with_item : ItemResult → BatchSummary → BatchSummary
with_item item b = record b { results = b.results ++ item ∷ [] }

abbrev add_result : ℕ → ExecutionResponse → BatchSummary → BatchSummary
add_result i r b =
    with_item (executed i r.status r.execution_id) (counted_as (succeeded r.status) b)

abbrev add_failure : ℕ → AppError → BatchSummary → BatchSummary
add_failure i e b = with_item (refused i e.code) (counted_as false b)

-- an error that is no `AppError`, which the loop does not catch
abbrev pub is_unhandled : AppError → Bool
is_unhandled e = elim e.code [ common_internal_error ↦ true | _ ↦ false ]

abbrev failure_of : Bool → ℕ → AppError → BatchSummary → Result BatchSummary
failure_of true i e b = err e
failure_of false i e b = ok (add_failure i e b)

-- one round of the loop, after the item was executed
unfoldable pub count_item : ℕ → Result ExecutionResponse → BatchSummary → Result BatchSummary
count_item i (ok response) b = ok (add_result i response b)
count_item i (err e) b = failure_of (is_unhandled e) i e b

-- what a batch that has counted `n` items says of itself
abbrev IsCounted : ℕ → ℕ → BatchSummary → Type 0
IsCounted n total b =
    (b.total ≡ total) × (b.success_count + b.failure_count ≡ n) × (length b.results ≡ n)

abbrev pub IsComplete : ℕ → Result BatchSummary → Type 0
IsComplete n (ok b) = IsCounted n n b
IsComplete n (err e) = is_unhandled e ≡ true

-- after one item more
abbrev IsCountedItem : ℕ → ℕ → Result BatchSummary → Type 0
IsCountedItem n total (ok b) = IsCounted (suc n) total b
IsCountedItem n total (err e) = is_unhandled e ≡ true

with_item-IsCounted :
    (n total : ℕ) (item : ItemResult) (good : Bool) (b : BatchSummary)
    → IsCounted n total b
    → IsCounted (suc n) total (with_item item (counted_as good b))
with_item-IsCounted n total item true b h =
    (h.0, omega (arith, h), omega (arith, h, length-append b.results (item ∷ [])))
with_item-IsCounted n total item false b h =
    (h.0, omega (arith, h), omega (arith, h, length-append b.results (item ∷ [])))

failure_of-IsCounted :
    (i n total : ℕ) (unhandled : Bool) (e : AppError) (b : BatchSummary)
    → is_unhandled e ≡ unhandled
    → IsCounted n total b
    → IsCountedItem n total (failure_of unhandled i e b)
failure_of-IsCounted i n total true e b u h = u
failure_of-IsCounted i n total false e b u h =
    with_item-IsCounted n total (refused i e.code) false b h

count_item-IsCounted :
    (i n total : ℕ) (r : Result ExecutionResponse) (b : BatchSummary)
    → IsCounted n total b
    → IsCountedItem n total (count_item i r b)
unfolding count_item
count_item-IsCounted i n total (ok r) b h =
    with_item-IsCounted n total (executed i r.status r.execution_id) (succeeded r.status) b h
count_item-IsCounted i n total (err e) b h =
    failure_of-IsCounted i n total (is_unhandled e) e b refl h

module _ (V : Services) (action_type_rid : String) (branch : Option String)
    (skip_confirmation : Bool) where
  -- the loop, over the request that each item is executed with and its parameters
  unfoldable pub batch_from :
      List (Request × Dict String Value) → ℕ → BatchSummary → Exec (World V) BatchSummary
  unfolding ◌>>=◌
  batch_from [] i b w = (ok b, w)
  batch_from ((q, params) ∷ items) i b w =
      let (r, w') = execute_action V q action_type_rid params branch skip_confirmation w in
      (lift (count_item i r b) >>= λ b'. batch_from items (suc i) b') w'

  unfoldable pub execute_action_batch :
      List (Request × Dict String Value) → Exec (World V) BatchSummary
  unfolding batch_from
  execute_action_batch items =
      batch_from items 0
        (record { total = length items; success_count = 0; failure_count = 0; results = [] })

  counted-IsComplete :
      (n total : ℕ) (r : Result BatchSummary) (f : BatchSummary → Exec (World V) BatchSummary)
      (w : World V)
      → IsCountedItem n total r
      → ((b : BatchSummary) → IsCounted (suc n) total b → IsComplete total (f b w).0)
      → IsComplete total ((lift r >>= f) w).0
  unfolding ◌>>=◌
  counted-IsComplete n total (ok b) f w h k = k b h
  counted-IsComplete n total (err e) f w h k = h

  batch_from-IsComplete :
      (items : List (Request × Dict String Value)) (i n total : ℕ) (b : BatchSummary) (w : World V)
      → n + length items ≡ total
      → IsCounted n total b
      → IsComplete total (batch_from items i b w).0
  unfolding batch_from
  batch_from-IsComplete [] i n total b w e h = (h.0, omega (arith, h), omega (arith, h))
  batch_from-IsComplete ((q, params) ∷ items) i n total b w e h =
      let (r, w') = execute_action V q action_type_rid params branch skip_confirmation w in
      counted-IsComplete n total (count_item i r b) (λ b'. batch_from items (suc i) b') w'
        (count_item-IsCounted i n total r b h)
        (λ b' h'. batch_from-IsComplete items (suc i) (suc n) total b' w' (omega arith) h')

  -- A batch returns, whatever becomes of its items, unless an item raises an error that is no
  -- `AppError`; then it has one result for each item, and its successes and failures together are
  -- as many as its items.
  pub execute_action_batch-IsComplete :
      (items : List (Request × Dict String Value)) (w : World V)
      → IsComplete (length items) (execute_action_batch items w).0
  unfolding execute_action_batch
  execute_action_batch-IsComplete items w =
      let b : BatchSummary = record {
        total = length items;
        success_count = 0;
        failure_count = 0;
        results = [];
      } in
      batch_from-IsComplete items 0 0 (length items) b w (omega arith) (refl, refl, refl)
