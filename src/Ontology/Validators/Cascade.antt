-- ===== src/Ontology/Validators/Cascade.antt =====
-- ontology/validators/cascade.py: changes of a shared property reach the properties based on it.
pub mod Laws
use lingshu_round.Prelude.{
  String, Bool, true, false, not, Option, none, some, List, [], ◌∷◌, if◌then◌else◌, ◌==◌, string_eq,
  contains, select, is_empty, ◌<>◌,
}
use lingshu_round.Prelude.Dict.{Dict, lookup}
use lingshu_round.Prelude.Value.{Value, null, bool, equals, value_eq}
use lingshu_round.Ontology.Graph.{Node, GraphDb, incoming}
use lingshu_round.Ontology.Repository.{Patch, update_node, get_related_nodes}

abbrev pub cascade_fields : List String
cascade_fields = "display_name" ∷ "description" ∷ "widget" ∷ "validation" ∷ "compliance" ∷ []

-- `d.get(k)`
abbrev pub get_or_null : String → Dict String Value → Value
get_or_null k d = elim (lookup k d) [ none ↦ null | some v ↦ v ]

-- `cascadable`
unfoldable pub cascadable : Dict String Value → Dict String Value
cascadable = select (λ ((k, _) : String × Value). contains cascade_fields k)

-- the test for one field of one property
unfoldable pub takes_update : Option (Dict String Value) → Dict String Value → String → Bool
takes_update (some old_values) current k = equals (get_or_null k current) (get_or_null k old_values)
takes_update none current k = not (get_or_null ("_override_" <> k) current == bool true)

-- the inner loop: the fields that this property takes over
unfoldable pub field_updates :
    Option (Dict String Value) → Dict String Value → Dict String Value → Dict String Value
unfolding takes_update
field_updates old_values current [] = []
field_updates old_values current ((k, v) ∷ changes) =
    let rest = field_updates old_values current changes in
    if takes_update old_values current k then (k, v) ∷ rest else rest

abbrev pub properties_patch : Dict String Value → Patch
properties_patch d = record {
  is_draft = none;
  is_staging = none;
  draft_owner = none;
  updated_at = none;
  properties = d;
}

module _ (G : GraphDb) where
  -- the outer loop: the rids of the properties that were written, and the new graph
  unfoldable pub update_inheritors :
      String
      → Option (Dict String Value)
      → Dict String Value
      → List Node
      → G.State
      → List String × G.State
  unfolding field_updates
  update_inheritors tenant old_values changes [] s = ([], s)
  update_inheritors tenant old_values changes (n ∷ ns) s =
      let updates = field_updates old_values n.properties changes in
      let written =
        (update_node G "PropertyType" n.rid tenant (properties_patch updates) none none s).1 in
      let s' = if is_empty updates then s else written in
      let (rids, t) = update_inheritors tenant old_values changes ns s' in
      (if is_empty updates then rids else n.rid ∷ rids, t)

  unfoldable pub cascade_shared_property_update :
      String
      → String
      → Dict String Value
      → Option (Dict String Value)
      → G.State
      → List String × G.State
  unfolding update_inheritors cascadable
  cascade_shared_property_update shared_rid tenant updated_fields old_values s =
      if is_empty (cascadable updated_fields)
      then ([], s)
      else update_inheritors tenant old_values (cascadable updated_fields)
          (get_related_nodes G "SharedPropertyType" shared_rid tenant "BASED_ON" incoming s) s
