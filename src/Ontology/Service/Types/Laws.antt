-- ===== src/Ontology/Service/Types/Laws.antt =====
-- What the requests of single entity types write, and when they are refused.
use lingshu_round.Prelude.{
  ◌+◌, String, ◌≡◌, ◌≢◌, refl, ◌∙◌, Bool, true, false, Option, some, ◌==◌, string_eq, option_eq,
  any, arith, ==_refl, Option-cases, inl, inr,
}
use lingshu_round.Prelude.Count.{one_if}
use lingshu_round.Prelude.Dict.{Dict, lookup}
use lingshu_round.Prelude.Value.{Value}
use lingshu_round.Infra.Errors.{app_error, ontology_lock_required}
use lingshu_round.Infra.Exec.{err, is_ok, ◌>>=◌}
use lingshu_round.Infra.Redis
use lingshu_round.Ontology.Graph.{Node, IsLawful, incoming}
use lingshu_round.Ontology.Repository.{create_node, create_relationship, get_related_nodes}
use lingshu_round.Ontology.Lock.{lock_key, require_lock}
use lingshu_round.Ontology.World.{Context, Servers, World, on_graph, check_lock}
use lingshu_round.Ontology.Keeps.{nodes_with}
use lingshu_round.Ontology.Service.Drafts.{update_entity}
use lingshu_round.Ontology.Service.Types.{
  new_property, given_text, relate_shared, create_property_type, update_shared_property_type,
}

module _ (V : Servers) (L : IsLawful V.graph) (c : Context) where
  -- A property that a lock holder creates, under a name that no property of the parent has, is one
  -- new draft of the user; the request succeeds and no other version changes.
  pub nodes_with-create_property_type :
      (parent_rid parent_label api_name : String) (props : Dict String Value) (w : World V)
      → Redis.get V.redis (lock_key parent_rid) w.redis ≡ some c.user_id
      → any
          (λ (n : Node). n.api_name == api_name)
          (get_related_nodes V.graph parent_label parent_rid c.tenant_id "BELONGS_TO" incoming
            w.graph)
        ≡ false
      → (is_ok (create_property_type V c parent_rid parent_label api_name props w).0 ≡ true)
        × ((p : Node → Bool)
            → nodes_with V p (create_property_type V c parent_rid parent_label api_name props w).1
              ≡ one_if (p (new_property V c api_name props)) + nodes_with V p w)
  unfolding create_property_type ◌>>=◌ check_lock require_lock on_graph create_node
      create_relationship relate_shared
  nodes_with-create_property_type parent_rid parent_label api_name props w held free =
      elim (Option-cases (given_text (lookup "inherit_from_shared_property_type_rid" props))) [
        | inl e ↦
            rw (held, ==_refl {A = Option String} (some c.user_id), free, e)
              (refl, λ p. L.count-relate p _ _ _ _ ∙ L.nodes_table.count-insert p _ w.graph)
        | inr (shared_rid, e) ↦
            rw (held, ==_refl {A = Option String} (some c.user_id), free, e)
              (
                refl,
                λ p.
                    L.count-relate p _ _ _ _
                    ∙ (L.count-relate p _ _ _ _ ∙ L.nodes_table.count-insert p _ w.graph),
              )
      ]

module _ (V : Servers) (c : Context) where
  -- Without the lock a shared property is not updated, and nothing cascades.
  pub shared_update_needs_lock :
      (rid : String) (updates : Dict String Value) (w : World V)
      → Redis.get V.redis (lock_key rid) w.redis ≢ some c.user_id
      → update_shared_property_type V c rid updates w ≡ (err (app_error ontology_lock_required), w)
  unfolding update_shared_property_type update_entity ◌>>=◌ check_lock require_lock
  shared_update_needs_lock rid updates w free = ground arith
