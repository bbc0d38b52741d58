-- ===== src/Ontology/Validators/Cascade/Laws.antt =====
-- Which fields a cascade writes, and what it leaves alone.
use lingshu_round.Prelude.{
  String, ◌≡◌, refl, Bool, ◌&&◌, Option, none, List, [], ◌∷◌, arith, if◌then◌else◌, string_eq,
  contains, ◌∙◌,
}
use lingshu_round.Prelude.Count.{count, count_ext}
use lingshu_round.Prelude.Dict.{Dict, lookup, update}
use lingshu_round.Prelude.Value.{Value, value_eq}
use lingshu_round.Ontology.Graph.{Node, GraphDb, IsLawful, incoming}
use lingshu_round.Ontology.Repository.{update_node, apply_patch, get_related_nodes}
use lingshu_round.Ontology.Validators.Cascade.{
  takes_update, cascadable, cascade_fields, field_updates, properties_patch, update_inheritors,
  cascade_shared_property_update,
}

lookup-field_updates_all :
    (old : Option (Dict String Value)) (current changes : Dict String Value) (k : String)
    → lookup k (field_updates old current changes)
      ≡ (if takes_update old current k then lookup k changes else none)
unfolding field_updates lookup
lookup-field_updates_all old current [] k = ground arith
lookup-field_updates_all old current ((j, v) ∷ changes) k =
    ground (arith, lookup-field_updates_all old current changes k)

lookup-cascadable :
    (d : Dict String Value) (k : String)
    → lookup k (cascadable d) ≡ (if contains cascade_fields k then lookup k d else none)
unfolding cascadable lookup
lookup-cascadable [] k = ground arith
lookup-cascadable ((j, v) ∷ d) k = ground (arith, lookup-cascadable d k)

-- A cascade writes into a property the new values of those fields that cascade and, where the old
-- values are given, have the value under which the shared property had them, or else are not
-- marked as overridden; it writes no other field.
pub lookup-field_updates :
    (old : Option (Dict String Value)) (current updated : Dict String Value) (k : String)
    → lookup k (field_updates old current (cascadable updated))
      ≡ (if contains cascade_fields k && takes_update old current k then lookup k updated else none)
lookup-field_updates old current updated k = ground (
  arith,
  lookup-field_updates_all old current (cascadable updated) k,
  lookup-cascadable updated k,
)

module _ (G : GraphDb) (L : IsLawful G) (p : Node → Bool)
    (blind : (n : Node) (d : Dict String Value) → p (record n { properties = d }) ≡ p n) where
  count-write :
      (test : Node → Bool) (d : Dict String Value) (s : G.State)
      → count p (G.rows (G.update_where test (apply_patch (properties_patch d)) s))
        ≡ count p (G.rows s)
  unfolding apply_patch
  count-write test d s =
      L.nodes_table.count-update_where _ _ _ s
      ∙ count_ext _ _ _ (λ m. ground (arith, blind m (update m.properties d)))

  count-update_node :
      (rid tenant : String) (d : Dict String Value) (s : G.State)
      → count p
          (G.rows (update_node G "PropertyType" rid tenant (properties_patch d) none none s).1)
        ≡ count p (G.rows s)
  unfolding update_node
  count-update_node rid tenant d s = count-write _ d s

  count-update_inheritors :
      (tenant : String) (old : Option (Dict String Value)) (changes : Dict String Value)
      (ns : List Node) (s : G.State)
      → count p (G.rows (update_inheritors G tenant old changes ns s).1) ≡ count p (G.rows s)
  unfolding update_inheritors
  count-update_inheritors tenant old changes [] s = refl
  count-update_inheritors tenant old changes (n ∷ ns) s =
      count-update_inheritors tenant old changes ns _
      ∙ ground (arith, count-update_node n.rid tenant (field_updates old n.properties changes) s)

  -- A cascade writes properties only: a test that reads none of them holds of as many nodes as
  -- before, so no version is made, published, staged or lost.
  pub count-cascade :
      (shared_rid tenant : String) (updated : Dict String Value) (old : Option (Dict String Value))
      (s : G.State)
      → count p (G.rows (cascade_shared_property_update G shared_rid tenant updated old s).1)
        ≡ count p (G.rows s)
  unfolding cascade_shared_property_update
  count-cascade shared_rid tenant updated old s = ground (
    arith,
    count-update_inheritors tenant old (cascadable updated)
        (get_related_nodes G "SharedPropertyType" shared_rid tenant "BASED_ON" incoming s) s,
  )
