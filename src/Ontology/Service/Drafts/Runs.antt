-- ===== src/Ontology/Service/Drafts/Runs.antt =====
-- Any number of edits, by any users, in any order.
use lingshu_round.Prelude.{
  String, ◌≡◌, ◌≢◌, refl, ◌∙◌, Bool, ◌&&◌, List, [], ◌∷◌, arith, ◌==◌, string_eq,
}
use lingshu_round.Prelude.Dict.{Dict}
use lingshu_round.Prelude.Value.{Value}
use lingshu_round.Ontology.Graph.{Node, IsLawful, is_published}
use lingshu_round.Ontology.World.{Context, Servers, World}
use lingshu_round.Ontology.Keeps.{nodes_with}
use lingshu_round.Ontology.Service.Drafts.{
  create_entity, update_entity, delete_entity, submit_to_staging, discard_draft,
}
use lingshu_round.Ontology.Service.Drafts.Hidden.{
  IsBlind, create_entity-Keeps, update_entity-Keeps, delete_entity-Keeps, submit_to_staging-Keeps,
  discard_draft-Keeps,
}

-- one request for a draft
pub data Edit : Type 0 where
  create : String → String → Dict String Value → Edit
  update : String → String → Dict String Value → Edit
  delete : String → String → Edit
  submit : String → String → Edit
  discard : String → String → Edit

module _ (V : Servers) where
  unfoldable pub perform : Context → Edit → World V → World V
  perform c (create label api_name props) w = (create_entity V c label api_name props w).1
  perform c (update label rid updates) w = (update_entity V c label rid updates w).1
  perform c (delete label rid) w = (delete_entity V c label rid w).1
  perform c (submit label rid) w = (submit_to_staging V c label rid w).1
  perform c (discard label rid) w = (discard_draft V c label rid w).1

  -- the requests one after the other, each whatever the outcome of those before it
  unfoldable pub run : List (Context × Edit) → World V → World V
  unfolding perform
  run [] w = w
  run ((c, e) ∷ es) w = run es (perform c e w)

  perform-keeps :
      (L : IsLawful V.graph) (c : Context) (p : Node → Bool)
      → IsBlind c.tenant_id p
      → (e : Edit) (w : World V) → nodes_with V p (perform c e w) ≡ nodes_with V p w
  unfolding perform
  perform-keeps L c p blind (create label api_name props) w =
      (create_entity-Keeps V L c p blind label api_name props).at w
  perform-keeps L c p blind (update label rid updates) w =
      (update_entity-Keeps V L c p blind label rid updates).at w
  perform-keeps L c p blind (delete label rid) w =
      (delete_entity-Keeps V L c p blind label rid).at w
  perform-keeps L c p blind (submit label rid) w =
      (submit_to_staging-Keeps V L c p blind label rid).at w
  perform-keeps L c p blind (discard label rid) w =
      (discard_draft-Keeps V L c p blind label rid).at w

  -- the contexts of the requests
  abbrev pub EachContext : (Context → Type 0) → List (Context × Edit) → Type 0
  EachContext P [] = Unit
  EachContext P ((c, _) ∷ es) = P c × EachContext P es

  run-keeps :
      (L : IsLawful V.graph) (p : Node → Bool) (es : List (Context × Edit)) (w : World V)
      → EachContext (λ c. IsBlind c.tenant_id p) es
      → nodes_with V p (run es w) ≡ nodes_with V p w
  unfolding run
  run-keeps L p [] w h = refl
  run-keeps L p ((c, e) ∷ es) w h =
      run-keeps L p es (perform c e w) h.1 ∙ perform-keeps L c p h.0 e w

  published-IsBlind :
      (q : Node → Bool) (es : List (Context × Edit))
      → EachContext (λ c. IsBlind c.tenant_id (λ n. is_published n && q n)) es
  published-IsBlind q [] = tt
  published-IsBlind q ((c, _) ∷ es) = (λ n t d. ground arith, published-IsBlind q es)

  -- Whatever entities the users create, update, delete, submit or discard by the five requests for
  -- drafts, no test sees another number of published versions.
  pub run_published :
      (L : IsLawful V.graph) (q : Node → Bool) (es : List (Context × Edit)) (w : World V)
      → nodes_with V (λ n. is_published n && q n) (run es w)
        ≡ nodes_with V (λ n. is_published n && q n) w
  run_published L q es w = run-keeps L (λ n. is_published n && q n) es w (published-IsBlind q es)

  other-IsBlind :
      (tenant : String) (q : Node → Bool) (es : List (Context × Edit))
      → EachContext (λ c. c.tenant_id ≢ tenant) es
      → EachContext (λ c. IsBlind c.tenant_id (λ n. n.tenant_id == tenant && q n)) es
  other-IsBlind tenant q [] h = tt
  other-IsBlind tenant q ((c, _) ∷ es) h =
      (λ n t d. ground (arith, h.0), other-IsBlind tenant q es h.1)

  -- The five requests for drafts (to create, update, delete, submit and discard), in whatever order
  -- the users of other tenants make them, change nothing that a tenant has: its drafts, its staged
  -- and its published versions.
  pub run_other_tenant :
      (L : IsLawful V.graph) (tenant : String) (q : Node → Bool) (es : List (Context × Edit))
      (w : World V)
      → EachContext (λ c. c.tenant_id ≢ tenant) es
      → nodes_with V (λ n. n.tenant_id == tenant && q n) (run es w)
        ≡ nodes_with V (λ n. n.tenant_id == tenant && q n) w
  run_other_tenant L tenant q es w h =
      run-keeps L (λ n. n.tenant_id == tenant && q n) es w (other-IsBlind tenant q es h)
