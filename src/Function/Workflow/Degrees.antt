-- ===== src/Function/Workflow/Degrees.antt =====
-- What the degrees of the nodes are while a workflow is sorted.
use lingshu_round.Prelude.{
  ℕ, suc, ◌+◌, ◌-◌, String, ◌≡◌, refl, ◌∙◌, ap, Bool, true, false, not, ◌&&◌, Option, none, some,
  List, [], ◌∷◌, ◌++◌, select, all, if◌then◌else◌, ◌==◌, string_eq, nat_eq, contains, arith, ltb,
}
use lingshu_round.Prelude.Count.{count, one_if, count-append, count-select, count_ext}
use lingshu_round.Prelude.Dict.{Dict, lookup, insert, lookup-insert}
use lingshu_round.Function.Workflow.{
  WorkflowEdge, unique, no_degrees, degree_or_zero, add_degrees, targets_of, lower_degrees,
  in_degrees, roots,
}

-- how often a node occurs
abbrev pub occurs : String → List String → ℕ
occurs n ns = count (λ x. n == x) ns

pub contains-occurs : (n : String) (ns : List String) → contains ns n ≡ ltb 0 (occurs n ns)
unfolding count
contains-occurs n [] = ground arith
contains-occurs n (x ∷ xs) = ground (arith, contains-occurs n xs)

pub occurs-unique : (n : String) (ns : List String) → occurs n (unique ns) ≡ one_if (contains ns n)
unfolding unique count
occurs-unique n [] = refl
occurs-unique n (x ∷ xs) =
    ground (arith, occurs-unique n xs, contains-occurs x (unique xs), occurs-unique x xs)

-- the edges into a node from nodes that were not visited
abbrev pub remaining : List WorkflowEdge → List String → String → ℕ
remaining edges visited n =
    count (λ (e : WorkflowEdge). n == e.target_node_id && not (contains visited e.source_node_id))
      edges

abbrev pub known_degree : List String → (String → ℕ) → String → Option ℕ
known_degree ids f n = if contains ids n then some (f n) else none

-- One more node visited takes its edges away.
pub remaining-visit :
    (edges : List WorkflowEdge) (visited : List String) (v n : String)
    → contains visited v ≡ false
    → remaining edges visited n ≡ remaining edges (v ∷ visited) n + occurs n (targets_of edges v)
unfolding count
remaining-visit [] visited v n new = omega arith
remaining-visit (e ∷ es) visited v n new = ground (arith, remaining-visit es visited v n new)

lookup-no_degrees :
    (n : String) (ids : List String) → lookup n (no_degrees ids) ≡ known_degree ids (λ _. 0) n
unfolding lookup no_degrees
lookup-no_degrees n [] = refl
lookup-no_degrees n (x ∷ xs) = ground (arith, lookup-no_degrees n xs)

one_more :
    (ids : List String) (d : Dict String ℕ) (f : String → ℕ) (t : String)
    → ((n : String) → lookup n d ≡ known_degree ids f n)
    → (n : String)
    → lookup n (if contains ids t then insert t (suc (degree_or_zero (lookup t d))) d else d)
      ≡ known_degree ids (λ m. f m + one_if (m == t)) n
one_more ids d f t h n =
    ground (arith, h n, h t, lookup-insert n t (suc (degree_or_zero (lookup t d))) d)

lookup-add_degrees :
    (ids : List String) (edges : List WorkflowEdge) (d : Dict String ℕ) (f : String → ℕ)
    → ((n : String) → lookup n d ≡ known_degree ids f n)
    → (n : String)
    → lookup n (add_degrees ids edges d) ≡ known_degree ids (λ m. f m + remaining edges [] m) n
unfolding add_degrees count
lookup-add_degrees ids [] d f h n = ground (arith, h n)
lookup-add_degrees ids (e ∷ es) d f h n =
    let d' =
      if contains ids e.target_node_id
      then insert e.target_node_id (suc (degree_or_zero (lookup e.target_node_id d))) d
      else d in
    ground (
      arith,
      lookup-add_degrees ids es d' (λ m. f m + one_if (m == e.target_node_id))
          (one_more ids d f e.target_node_id h) n,
    )

pub lookup-in_degrees :
    (ids : List String) (edges : List WorkflowEdge) (n : String)
    → lookup n (in_degrees ids edges) ≡ known_degree ids (remaining edges []) n
lookup-in_degrees ids edges n =
    ground (
      arith,
      lookup-add_degrees ids edges (no_degrees ids) (λ _. 0) (λ m. lookup-no_degrees m ids) n,
    )

occurs-roots-from :
    (n : String) (q : String → Bool) (ids : List String)
    → occurs n (select q ids) ≡ count (λ x. q x && n == x) ids
occurs-roots-from n q ids = count-select (λ x. n == x) q ids

occurs-filtered :
    (n : String) (q : String → Bool) (ids : List String)
    → count (λ x. q x && n == x) ids ≡ (if q n then occurs n ids else 0)
unfolding count
occurs-filtered n q [] = ground arith
occurs-filtered n q (x ∷ xs) = ground (arith, occurs-filtered n q xs)

-- The first queue: each node without edges into it, once.
pub occurs-roots :
    (n : String) (ns : List String) (edges : List WorkflowEdge)
    → let ids = unique ns in
      occurs n (roots ids (in_degrees ids edges))
      ≡ one_if (contains ids n && remaining edges [] n == 0)
occurs-roots n ns edges =
    let ids = unique ns in
    let q : String → Bool = λ x. degree_or_zero (lookup x (in_degrees ids edges)) == 0 in
    ground (
      arith,
      occurs-roots-from n q ids,
      occurs-filtered n q ids,
      lookup-in_degrees ids edges n,
      occurs-unique n ns,
      contains-occurs n ids,
    )

-- what the loop over the neighbours leaves
pub record Lowered (ids : List String) (f g : String → ℕ) (d : Dict String ℕ)
    (before after : List String) : Type 0 where
  pub degrees : (n : String) → lookup n d ≡ known_degree ids g n
  pub queued :
      (n : String)
      → occurs n after ≡ occurs n before + one_if (contains ids n && (not (f n == 0) && g n == 0))

-- one round of the loop, for the degree that was found
abbrev lower_known :
    List String
    → String
    → Dict String ℕ
    → List String
    → Option ℕ
    → Option (Dict String ℕ × List String)
lower_known ts t d next none = none
lower_known ts t d next (some k) =
    lower_degrees ts (insert t (k - 1) d) (if k == 1 then next ++ t ∷ [] else next)

occurs-next :
    (n t : String) (next : List String) (b : Bool)
    → occurs n (if b then next ++ t ∷ [] else next) ≡ occurs n next + one_if (b && n == t)
unfolding count
occurs-next n t next true = omega (arith, count-append (λ x. n == x) next (t ∷ []))
occurs-next n t next false = omega arith

pub lower_degrees_lem :
    (ids ts : List String) (d : Dict String ℕ) (next : List String) (f g : String → ℕ)
    → ((n : String) → lookup n d ≡ known_degree ids f n)
    → ((n : String) → f n ≡ g n + occurs n ts)
    → all (contains ids) ts ≡ true
    → (d' : Dict String ℕ) × (next' : List String) × (lower_degrees ts d next ≡ some (d', next'))
      × Lowered ids f g d' next next'
unfolding lower_degrees count
lower_degrees_lem ids [] d next f g h e known = (
  d,
  next,
  refl,
  record { degrees = λ n. ground (arith, h n, e n); queued = λ n. ground (arith, e n) },
)
lower_degrees_lem ids (t ∷ ts) d next f g h e known =
    let f' : String → ℕ = λ n. f n - one_if (n == t) in
    let h_known : lookup t d ≡ some (f t) = ground (arith, h t) in
    let next₁ = if f t == 1 then next ++ t ∷ [] else next in
    let (d', next', e', l) =
      lower_degrees_lem ids ts (insert t (f t - 1) d) next₁ f' g
        (λ n. ground (arith, h n, lookup-insert n t (f t - 1) d)) (λ n. ground (arith, e n))
        (ground arith) in
    (
      d',
      next',
      ap (lower_known ts t d next) h_known ∙ e',
      record {
        degrees = l.degrees;
        queued = λ n. ground (arith, l.queued n, e n, e t, occurs-next n t next (f t == 1));
      },
    )

pub targets_known :
    (ids : List String) (edges : List WorkflowEdge) (v : String)
    → all (λ (e : WorkflowEdge). contains ids e.target_node_id) edges ≡ true
    → all (contains ids) (targets_of edges v) ≡ true
targets_known ids [] v h = refl
targets_known ids (e ∷ es) v h = ground (arith, targets_known ids es v)

-- Only which nodes were visited matters.
pub remaining_ext :
    (edges : List WorkflowEdge) (v v' : List String) (n : String)
    → ((m : String) → contains v m ≡ contains v' m)
    → remaining edges v n ≡ remaining edges v' n
remaining_ext edges v v' n h = count_ext _ _ edges (λ e. ground (arith, h e.source_node_id))
