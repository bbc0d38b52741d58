-- ===== src/Ontology/Keeps.antt =====
-- Actions that keep the number of the nodes that pass a test, one rule for each way to build one.
use lingshu_round.Prelude.{
  ℕ, String, ◌≡◌, refl, ◌∙◌, Bool, true, false, Option, none, some, arith, string_eq, option_eq,
}
use lingshu_round.Prelude.Count.{count, count_ext}
use lingshu_round.Infra.Errors.{AppError}
use lingshu_round.Infra.Exec.{
  Result, ok, err, Exec, pure, raise, gets, lift, raise_if, require, ◌>>=◌,
}
use lingshu_round.Ontology.Graph.{Node, IsLawful, is_version_of}
use lingshu_round.Ontology.Repository.{
  Patch, apply_patch, create_node, update_node, delete_node, when_given, same_flag,
}
use lingshu_round.Ontology.World.{Servers, World, on_graph, on_redis, check_lock}

-- how many nodes pass the test
abbrev pub nodes_with : (V : Servers) → (Node → Bool) → World V → ℕ
nodes_with V p w = count p (V.graph.rows w.graph)

pub record Keeps (V : Servers) (p : Node → Bool) {A : Type 0} (m : Exec (World V) A) : Type 0 where
  pub at : (w : World V) → nodes_with V p (m w).1 ≡ nodes_with V p w

module _ {V : Servers} {p : Node → Bool} {A : Type 0} where
  pub Keeps-pure : (a : A) → Keeps V p (pure a)
  unfolding pure
  Keeps-pure a = record { at = λ w. refl }

  pub Keeps-raise : (e : AppError) → Keeps V p (raise {A = A} e)
  unfolding raise
  Keeps-raise e = record { at = λ w. refl }

  pub Keeps-gets : (f : World V → A) → Keeps V p (gets f)
  unfolding gets
  Keeps-gets f = record { at = λ w. refl }

  pub Keeps-lift : (r : Result A) → Keeps V p (lift r)
  unfolding lift
  Keeps-lift r = record { at = λ w. refl }

  pub Keeps-require : (o : Option A) (e : AppError) → Keeps V p (require o e)
  unfolding require
  Keeps-require none e = record { at = λ w. refl }
  Keeps-require (some a) e = record { at = λ w. refl }

  pub Keeps-on_redis : (f : V.redis.State → A × V.redis.State) → Keeps V p (on_redis V f)
  unfolding on_redis
  Keeps-on_redis f = record { at = λ w. refl }

module _ {V : Servers} {p : Node → Bool} where
  pub Keeps-raise_if : (b : Bool) (e : AppError) → Keeps V p (raise_if b e)
  unfolding raise_if
  Keeps-raise_if true e = record { at = λ w. refl }
  Keeps-raise_if false e = record { at = λ w. refl }

  pub Keeps-check_lock : (rid user : String) → Keeps V p (check_lock V rid user)
  unfolding check_lock
  Keeps-check_lock rid user = record { at = λ w. refl }

module _ {V : Servers} {p : Node → Bool} {A B : Type 0} where
  Keeps-continue :
      (r : Result A) (f : A → Exec (World V) B) (w w' : World V)
      → ((a : A) → Keeps V p (f a))
      → nodes_with V p w' ≡ nodes_with V p w
      → nodes_with V p ((lift r >>= f) w').1 ≡ nodes_with V p w
  unfolding ◌>>=◌
  Keeps-continue (ok a) f w w' kf e = (kf a).at w' ∙ e
  Keeps-continue (err x) f w w' kf e = e

  pub Keeps-bind :
      (m : Exec (World V) A) (f : A → Exec (World V) B)
      → Keeps V p m
      → ((a : A) → Keeps V p (f a))
      → Keeps V p (m >>= f)
  unfolding ◌>>=◌
  Keeps-bind m f km kf = record {
    at = λ w. let (r, w') = m w in Keeps-continue r f w w' kf (km.at w);
  }

module _ {V : Servers} {p : Node → Bool} {A B : Type 0} where
  -- the rest of the block may use what was read
  pub Keeps-gets-bind :
      (f : World V → A) (k : A → Exec (World V) B)
      → ((w : World V) → nodes_with V p (k (f w) w).1 ≡ nodes_with V p w)
      → Keeps V p (gets f >>= k)
  unfolding ◌>>=◌
  Keeps-gets-bind f k h = record { at = h }

  -- the rest of the block may use that there was a value
  pub Keeps-require-bind :
      (o : Option A) (e : AppError) (k : A → Exec (World V) B)
      → ((a : A) → o ≡ some a → Keeps V p (k a))
      → Keeps V p (require o e >>= k)
  unfolding ◌>>=◌
  Keeps-require-bind none e k h = record { at = λ w. refl }
  Keeps-require-bind (some a) e k h = h a refl

module _ {V : Servers} (L : IsLawful V.graph) {p : Node → Bool} where
  -- a new node that does not pass the test
  pub Keeps-create_node : (n : Node) → p n ≡ false → Keeps V p (on_graph V (create_node V.graph n))
  unfolding on_graph create_node
  Keeps-create_node n fails = record {
    at = λ w. ground (arith, L.nodes_table.count-insert p n w.graph);
  }

  -- a write that changes the test of no node that it writes
  pub Keeps-update_node :
      (label rid tenant : String) (patch : Patch) (is_draft : Option Bool) (owner : Option String)
      → ((n : Node)
          → is_version_of label rid tenant n ≡ true
          → when_given is_draft (λ b. same_flag b n.is_draft) ≡ true
          → p (apply_patch patch n) ≡ p n)
      → Keeps V p (on_graph V (update_node V.graph label rid tenant patch is_draft owner))
  unfolding on_graph update_node
  Keeps-update_node label rid tenant patch is_draft owner same = record {
    at = λ w.
        L.nodes_table.count-update_where p _ _ w.graph
        ∙ count_ext _ _ _ (λ n. ground (arith, same n));
  }

  -- a deletion of nodes that do not pass the test
  pub Keeps-delete_node :
      (label rid tenant : String) (is_draft is_staging : Option Bool) (owner : Option String)
      → ((n : Node)
          → is_version_of label rid tenant n ≡ true
          → when_given is_draft (λ b. same_flag b n.is_draft) ≡ true
          → when_given is_staging (λ b. same_flag b n.is_staging) ≡ true
          → p n ≡ false)
      → Keeps V p (on_graph V (delete_node V.graph label rid tenant is_draft is_staging owner))
  unfolding on_graph delete_node
  Keeps-delete_node label rid tenant is_draft is_staging owner fails = record {
    at = λ w.
        L.nodes_table.count-delete_where p _ w.graph
        ∙ count_ext _ _ _ (λ n. ground (arith, fails n));
  }

pub ruleset keeps_rules = (
  Keeps-pure, Keeps-raise, Keeps-gets, Keeps-lift, Keeps-require, Keeps-on_redis, Keeps-raise_if,
  Keeps-check_lock, Keeps-bind,
)
