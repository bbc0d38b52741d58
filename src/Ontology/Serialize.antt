-- ===== src/Ontology/Serialize.antt =====
-- ontology/service.py: `_serialize_for_neo4j`, `_deserialize_from_neo4j` and the version status of
-- a node. `json.dumps` and `json.loads` are parameters.
use lingshu_round.Prelude.{
  String, ◌≡◌, refl, not, ◌&&◌, Option, none, some, List, [], ◌∷◌, arith, map, if◌then◌else◌,
  string_eq, contains,
}
use lingshu_round.Prelude.Dict.{Dict}
use lingshu_round.Prelude.Value.{Value, null, text, is_null}
use lingshu_round.Ontology.Graph.{Node}

pub record Json : Type 0 where
  pub dumps : Value → String
  -- `none` for a `JSONDecodeError`
  pub loads : String → Option Value

-- what is dumped of the values of a dict is loaded again
abbrev pub IsRoundTrip : Json → Dict String Value → Type 0
IsRoundTrip J [] = Unit
IsRoundTrip J ((_, v) ∷ d) = (J.loads (J.dumps v) ≡ some v) × IsRoundTrip J d

abbrev pub json_store_fields : List String
json_store_fields =
    "widget" ∷ "validation" ∷ "compliance" ∷ "parameters" ∷ "execution" ∷ "side_effects"
    ∷ "link_requirements" ∷ "object_constraint" ∷ "asset_mapping" ∷ "entity_validation" ∷ []

module _ (J : Json) where
  unfoldable pub serialize_value : String → Value → Value
  serialize_value k v =
      if contains json_store_fields k && not (is_null v) then text (J.dumps v) else v

  abbrev load_text : Value → Value
  load_text (text s) = elim (J.loads s) [ none ↦ text s | some v ↦ v ]
  load_text v = v

  unfoldable pub deserialize_value : String → Value → Value
  deserialize_value k v = if contains json_store_fields k then load_text v else v

  unfoldable pub serialize_for_neo4j : Dict String Value → Dict String Value
  unfolding serialize_value
  serialize_for_neo4j = map (λ ((k, v) : String × Value). (k, serialize_value k v))

  unfoldable pub deserialize_from_neo4j : Dict String Value → Dict String Value
  unfolding deserialize_value
  deserialize_from_neo4j = map (λ ((k, v) : String × Value). (k, deserialize_value k v))

  deserialize-serialize_value :
      (k : String) (v : Value)
      → J.loads (J.dumps v) ≡ some v
      → deserialize_value k (serialize_value k v) ≡ v
  unfolding serialize_value deserialize_value
  deserialize-serialize_value k null loaded = ground arith
  deserialize-serialize_value k v loaded = ground arith

  -- Where the format loads what it dumps of the values of a dict, the dict is read back from the
  -- store as it was given.
  pub deserialize-serialize :
      (d : Dict String Value) → IsRoundTrip J d → deserialize_from_neo4j (serialize_for_neo4j d) ≡ d
  unfolding serialize_for_neo4j deserialize_from_neo4j
  deserialize-serialize [] trip = refl
  deserialize-serialize ((k, v) ∷ d) (loaded, trip) =
      λ i. (k, deserialize-serialize_value k v loaded i) ∷ deserialize-serialize d trip i

pub data VersionStatus : Type 0 where
  draft staging active : VersionStatus

-- `EntityResponse`, by the node that it shows
pub record EntityResponse : Type 0 where
  pub node : Node
  pub version_status : VersionStatus

unfoldable pub version_status_of : Node → VersionStatus
version_status_of n = if n.is_draft then draft else if n.is_staging then staging else active

-- `_node_to_response`
unfoldable pub node_to_response : Json → Node → EntityResponse
unfolding deserialize_from_neo4j version_status_of
node_to_response J n = record {
  node = record n { properties = deserialize_from_neo4j J n.properties };
  version_status = version_status_of n;
}
