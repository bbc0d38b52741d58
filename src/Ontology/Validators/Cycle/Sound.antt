-- ===== src/Ontology/Validators/Cycle/Sound.antt =====
-- What an answer of the search means.
use lingshu_round.Prelude.{
  ℕ, zero, suc, String, ◌≡◌, ◌⊎◌, refl, true, false, Option, none, some, List, [], ◌∷◌, arith, ◌==◌,
  string_eq, contains, subst, ==_refl, Bool-cases, inl, inr,
}
use lingshu_round.Ontology.Validators.Cycle.{Found, search_children, can_reach, Reach, here, step}

-- Of the visited nodes `v`, what the search added to `visited` is closed under edges.
pub record Explored (children : String → List String) (target : String)
    (visited v roots : List String) : Type 0 where
  pub grows : (x : String) → contains visited x ≡ true → contains v x ≡ true
  pub rooted : (c : String) → contains roots c ≡ true → contains v c ≡ true
  pub clean : contains visited target ≡ false → contains v target ≡ false
  pub closed :
      (x y : String)
      → contains v x ≡ true
      → contains visited x ≡ false
      → contains (children x) y ≡ true
      → contains v y ≡ true

eq_of_test : (a b : String) → (a == b) ≡ true → a ≡ b
eq_of_test a b h = ground arith

-- One child after the others.
Explored-trans :
    {children : String → List String} {target : String} (u w v : List String) (c : String)
    (cs : List String)
    → Explored children target u w (c ∷ [])
    → Explored children target w v cs
    → Explored children target u v (c ∷ cs)
Explored-trans {children} {target} u w v c cs first rest = record {
  grows = λ x m. rest.grows x (first.grows x m);
  rooted = λ d m. ground (arith, rest.rooted d, rest.grows d, first.rooted d);
  clean = λ m. rest.clean (first.clean m);
  closed = λ x y m n e. ground (arith, rest.closed x y, rest.grows y, first.closed x y);
}

pub Found-cases :
    (o : Option Found)
    → (o ≡ none)
      ⊎ (((v : List String) × (o ≡ some (true, v))) ⊎ ((v : List String) × (o ≡ some (false, v))))
Found-cases none = inl refl
Found-cases (some (true, v)) = inr (inl (v, refl))
Found-cases (some (false, v)) = inr (inr (v, refl))

module _ (children : String → List String) (target : String) where
  search_sound :
      (visit : List String → String → Option Found)
      → ((u : List String) (c : String) (v : List String)
          → visit u c ≡ some (true, v)
          → Reach children c target)
      → (u cs v : List String) → search_children visit u cs ≡ some (true, v)
      → (c : String) × (contains cs c ≡ true) × Reach children c target
  unfolding search_children
  search_sound visit ih u [] v h = cc
  search_sound visit ih u (c ∷ cs) v h = elim (Found-cases (visit u c)) [
    | inl e ↦ cc (rw (e, search_children) at h)
    | inr (inl (w, e)) ↦ (c, ground (arith, ==_refl c), ih u c w e)
    | inr (inr (w, e)) ↦
        let (d, m, r) = search_sound visit ih w cs v (rw (e, search_children) at h) in
        (d, ground arith, r)
  ]

  -- A positive answer stands for a path.
  pub can_reach_sound :
      (fuel : ℕ) (u : List String) (c : String) (v : List String)
      → can_reach children target fuel u c ≡ some (true, v)
      → Reach children c target
  unfolding can_reach
  can_reach_sound zero u c v h = cc
  can_reach_sound (suc fuel) u c v h = elim (Bool-cases (c == target)) [
    | inl same ↦ subst (Reach children c) (eq_of_test c target same) here
    | inr other ↦ elim (Bool-cases (contains u c)) [
      | inl old ↦ cc (rw (other, old) at h)
      | inr new ↦
          let (d, m, r) =
            search_sound (can_reach children target fuel) (can_reach_sound fuel) (c ∷ u)
              (children c) v (rw (other, new) at h) in
          step m r
    ]
  ]

  search-Explored :
      (visit : List String → String → Option Found)
      → ((u : List String) (c : String) (v : List String)
          → visit u c ≡ some (false, v)
          → Explored children target u v (c ∷ []))
      → (u cs v : List String) → search_children visit u cs ≡ some (false, v)
      → Explored children target u v cs
  unfolding search_children
  search-Explored visit ih u [] v h =
      let e : u ≡ v = ground arith in
      subst (λ w. Explored children target u w []) e
        (record {
          grows = λ x m. m;
          rooted = λ c m. cc m;
          clean = λ m. m;
          closed = λ x y m n. cc (m, n);
        })
  search-Explored visit ih u (c ∷ cs) v h = elim (Found-cases (visit u c)) [
    | inl e ↦ cc (rw (e, search_children) at h)
    | inr (inl (w, e)) ↦ cc (rw (e, search_children) at h)
    | inr (inr (w, e)) ↦
        Explored-trans u w v c cs (ih u c w e)
          (search-Explored visit ih w cs v (rw (e, search_children) at h))
  ]

  Explored-old :
      (u : List String) (c : String) → contains u c ≡ true → Explored children target u u (c ∷ [])
  Explored-old u c old = record {
    grows = λ x m. m;
    rooted = λ d m. ground arith;
    clean = λ m. m;
    closed = λ x y m n. cc (m, n);
  }

  -- the node itself, after its children
  Explored-node :
      (u v : List String) (c : String)
      → (c == target) ≡ false
      → Explored children target (c ∷ u) v (children c)
      → Explored children target u v (c ∷ [])
  Explored-node u v c other e = record {
    grows = λ x m. e.grows x (ground arith);
    rooted = λ d m. e.grows d (ground arith);
    clean = λ m. e.clean (ground arith);
    closed = λ x y m n edge. ground (arith, e.closed x y, e.rooted y);
  }

  -- A negative answer has seen all that can be reached, and not the target.
  pub can_reach-Explored :
      (fuel : ℕ) (u : List String) (c : String) (v : List String)
      → can_reach children target fuel u c ≡ some (false, v)
      → Explored children target u v (c ∷ [])
  unfolding can_reach
  can_reach-Explored zero u c v h = cc
  can_reach-Explored (suc fuel) u c v h = elim (Bool-cases (c == target)) [
    | inl same ↦ cc (rw same at h)
    | inr other ↦ elim (Bool-cases (contains u c)) [
      | inl old ↦
          let e : u ≡ v = ground arith in
          subst (λ w. Explored children target u w (c ∷ [])) e (Explored-old u c old)
      | inr new ↦ Explored-node u v c other (
          search-Explored (can_reach children target fuel) (can_reach-Explored fuel) (c ∷ u)
            (children c) v (rw (other, new) at h))
    ]
  ]

  -- What can be reached from a node of a closed set is in the set.
  pub closed-Reach :
      (v : List String)
      → ((x y : String)
          → contains v x ≡ true
          → contains (children x) y ≡ true
          → contains v y ≡ true)
      → {a c : String} → Reach children a c
      → contains v a ≡ true
      → contains v c ≡ true
  closed-Reach v closed here m = m
  closed-Reach v closed (step {a} {b} edge r) m = closed-Reach v closed r (closed a b m edge)

  -- From an empty `visited`, a negative answer means that there is no path.
  pub can_reach_complete :
      (fuel : ℕ) (c : String) (v : List String)
      → can_reach children target fuel [] c ≡ some (false, v)
      → ¬ Reach children c target
  can_reach_complete fuel c v h r =
      let e = can_reach-Explored fuel [] c v h in
      let m =
        closed-Reach v (λ x y m edge. e.closed x y m refl edge) r
          (e.rooted c (ground (arith, ==_refl c))) in
      cc (m, e.clean refl)
