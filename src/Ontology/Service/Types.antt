-- ===== src/Ontology/Service/Types.antt =====
-- ontology/service.py: the requests of single entity types that do more than those for drafts.
pub mod Laws
use lingshu_round.Prelude.{
  ℕ, String, Bool, true, false, not, Option, none, some, List, [], ◌∷◌, if◌then◌else◌, ◌==◌,
  string_eq, any, map, is_empty,
}
use lingshu_round.Prelude.Dict.{Dict, lookup}
use lingshu_round.Prelude.Value.{Value, text, array, truthy, Items, nil, cons}
use lingshu_round.Infra.Errors.{app_error, ontology_duplicate_api_name, ontology_not_found}
use lingshu_round.Infra.Exec.{
  Result, ok, err, Exec, pure, gets, lift, raise_if, require, ◌>>=◌, ◌>>◌,
}
use lingshu_round.Ontology.Graph.{Node, incoming}
use lingshu_round.Ontology.Repository.{
  create_node, create_relationship, get_active_node, get_related_nodes,
}
use lingshu_round.Ontology.Serialize.{
  EntityResponse, node_to_response, serialize_for_neo4j, deserialize_from_neo4j,
}
use lingshu_round.Ontology.Validators.Cascade.{cascade_shared_property_update}
use lingshu_round.Ontology.Validators.Contract.{check_contract_satisfaction}
use lingshu_round.Ontology.Validators.Cycle.{check_interface_cycle}
use lingshu_round.Ontology.World.{Context, Servers, World, generate_rid, on_graph, check_lock}
use lingshu_round.Ontology.Service.Drafts.{create_entity, update_entity}

-- the rids of a list of texts
abbrev pub rids_of : Items → List String
rids_of nil = []
rids_of (cons (text s) vs) = s ∷ rids_of vs
rids_of (cons _ vs) = rids_of vs

-- `props.get(key)`, for a list of rids
abbrev pub rid_list : Option Value → Option (List String)
rid_list (some (array vs)) = some (rids_of vs)
rid_list _ = none

abbrev pub or_none_given : Option (List String) → List String
or_none_given none = []
or_none_given (some rids) = rids

-- a text that is not empty, as an `if` takes it
abbrev pub given_text : Option Value → Option String
given_text (some (text s)) = if s == "" then none else some s
given_text _ = none

module _ (V : Servers) (c : Context) where
  -- the node of a new property
  abbrev pub new_property : String → Dict String Value → Node
  new_property api_name props = record {
    label = "PropertyType";
    rid = generate_rid "prop" c.uuid;
    tenant_id = c.tenant_id;
    api_name = api_name;
    is_draft = true;
    is_staging = false;
    is_active = true;
    draft_owner = some c.user_id;
    snapshot_id = none;
    parent_snapshot_id = none;
    updated_at = c.now;
    properties = serialize_for_neo4j V.json props;
  }

  -- `_node_to_property_response`
  unfoldable pub read_property : Node → Node
  read_property n = record n { properties = deserialize_from_neo4j V.json n.properties }

  -- `BASED_ON`, if the property inherits
  relate_shared : Option String → Exec (World V) Bool
  relate_shared none = pure false
  relate_shared (some shared_rid) = on_graph V (
      create_relationship V.graph "PropertyType" (generate_rid "prop" c.uuid) "SharedPropertyType"
        shared_rid "BASED_ON" c.tenant_id)

  -- `create_property_type`
  unfoldable pub create_property_type :
      String → String → String → Dict String Value → Exec (World V) Node
  unfolding relate_shared
  create_property_type parent_rid parent_label api_name props = do
    check_lock V parent_rid c.user_id
    existing ← gets (λ w.
        get_related_nodes V.graph parent_label parent_rid c.tenant_id "BELONGS_TO" incoming w.graph)
    raise_if (any (λ (n : Node). n.api_name == api_name) existing)
        (app_error ontology_duplicate_api_name)
    node ← on_graph V (create_node V.graph (new_property api_name props))
    on_graph V (
        create_relationship V.graph "PropertyType" (generate_rid "prop" c.uuid) parent_label
          parent_rid "BELONGS_TO" c.tenant_id)
    relate_shared (given_text (lookup "inherit_from_shared_property_type_rid" props))
    pure (read_property node)

  -- `_get_entity`: the published version, with its properties if it can have some
  unfoldable pub get_entity : String → String → Exec (World V) (EntityResponse × List Node)
  get_entity label rid = do
    found ← gets (λ w. get_active_node V.graph label rid c.tenant_id w.graph)
    node ← require found (app_error ontology_not_found)
    properties ←
        gets (λ w. get_related_nodes V.graph label rid c.tenant_id "BELONGS_TO" incoming w.graph)
    pure (
      node_to_response V.json node,
      if label == "ObjectType" then properties else if label == "LinkType" then properties else [],
    )

  -- what follows a check for cycles: `none` if the search had too little fuel
  abbrev pub after_cycle_check :
      {A : Type 0}
      → Option (Result {0} Unit)
      → Exec (World V) A
      → World V
      → Option (Result A × World V)
  after_cycle_check none m w = none
  after_cycle_check (some (err e)) m w = some (err e, w)
  after_cycle_check (some (ok _)) m w = some (m w)

  -- `create_interface_type`
  unfoldable pub create_interface_type :
      ℕ → String → String → Dict String Value → World V → Option (Result EntityResponse × World V)
  create_interface_type fuel rid api_name props w =
      after_cycle_check
        (check_interface_cycle V.graph fuel rid
          (or_none_given (rid_list (lookup "extends_interface_type_rids" props))) c.tenant_id
          w.graph)
        (create_entity V c "InterfaceType" api_name props) w

  -- the contract check, if the required properties are given
  check_contract : String → Option (List String) → Exec (World V) Unit
  check_contract rid none = pure tt
  check_contract rid (some required) = do
    checked ← gets (λ w. check_contract_satisfaction V.graph rid c.tenant_id required w.graph)
    lift checked
    pure tt

  -- `update_interface_type`
  unfoldable pub update_interface_type :
      ℕ → String → Dict String Value → World V → Option (Result EntityResponse × World V)
  unfolding check_contract
  update_interface_type fuel rid updates w =
      after_cycle_check
        (check_interface_cycle V.graph fuel rid
          (or_none_given (rid_list (lookup "extends_interface_type_rids" updates))) c.tenant_id
          w.graph)
        (check_contract rid (rid_list (lookup "required_shared_property_type_rids" updates))
          >> update_entity V c "InterfaceType" rid updates)
        w

  abbrev pub values_before : Option Node → Dict String Value
  values_before none = []
  values_before (some old) = deserialize_from_neo4j V.json old.properties

  -- `update_shared_property_type`
  unfoldable pub update_shared_property_type :
      String → Dict String Value → Exec (World V) EntityResponse
  update_shared_property_type rid updates = do
    old ← gets (λ w. get_active_node V.graph "SharedPropertyType" rid c.tenant_id w.graph)
    result ← update_entity V c "SharedPropertyType" rid updates
    on_graph V
        (cascade_shared_property_update V.graph rid c.tenant_id updates (some (values_before old)))
    pure result
