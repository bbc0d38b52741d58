-- ===== src/Data/Queries.antt =====
-- data/service.py: the queries of instances, from the schema over the connector, the virtual fields
-- and the masking to the answer.
pub mod Hiding
use lingshu_round.Prelude.{
  ℕ, String, Bool, true, false, not, Option, none, some, List, [], ◌∷◌, map, if◌then◌else◌, ◌==◌,
  string_eq,
}
use lingshu_round.Prelude.Dict.{Dict, lookup}
use lingshu_round.Prelude.Value.{Value}
use lingshu_round.Infra.Errors.{AppError, app_error, data_asset_not_mapped, data_source_not_found}
use lingshu_round.Infra.Exec.{Result, ok, err, Exec, pure, gets, lift, require, ◌>>=◌, ◌>>=ʳ◌}
use lingshu_round.Data.Merge.{Row}
use lingshu_round.Data.Masking.{build_masking_rules, apply_masking}
use lingshu_round.Data.Virtual.{Language, apply_virtual_fields}
use lingshu_round.Data.Schema.{
  SchemaInfo, AssetMapping, OntologyReads, Cache, get_schema, invalidate,
}
use lingshu_round.Data.Query.{Connector, Filter, SortSpec, QueryResult}
use lingshu_round.Data.Query

-- what an instance of `DataServiceImpl` keeps: the schemas, and the connectors by connection
pub record Service : Type 0 where
  pub cache : Cache
  pub connectors : Dict String Connector

abbrev pub on_cache : {A : Type 0} → Exec Cache A → Exec Service A
on_cache m s = let (r, c) = m s.cache in (r, record s { cache = c })

module _ (P : Language) where
  -- virtual fields, then masking
  unfoldable pub presented : SchemaInfo → List Row → List Row
  presented schema rows =
      apply_masking P.str (apply_virtual_fields P rows schema.virtual_fields)
        (build_masking_rules schema.property_types)

  abbrev head : List Row → Option Row
  head [] = none
  head (row ∷ _) = some row

  abbrev present_row : SchemaInfo → Option Row → Option Row
  present_row schema none = none
  present_row schema (some row) = head (presented schema (row ∷ []))

  module _ (now : ℕ) (O : OntologyReads) where
    -- `_get_connector_by_rid`, which does not use its tenant
    unfoldable pub get_connector_by_rid : String → String → Exec Service Connector
    get_connector_by_rid conn_rid tenant_id = do
      found ← gets (λ s. lookup conn_rid s.connectors)
      require found (app_error data_source_not_found)

    unfoldable pub query_instances :
        String → String → List Filter → List SortSpec → ℕ → ℕ → Exec Service QueryResult
    unfolding presented get_connector_by_rid
    query_instances type_rid tenant_id filters sort offset limit = do
      schema ← on_cache (get_schema now O type_rid tenant_id)
      mapping ← require schema.asset_mapping (app_error data_asset_not_mapped)
      connector ← get_connector_by_rid mapping.read_connection_id tenant_id
      result ←
          lift (
            Query.query_instances connector schema mapping.read_asset_path filters sort offset
              limit)
      pure (record result { rows = presented schema result.rows })

    unfoldable pub get_instance : String → String → Dict String Value → Exec Service (Option Row)
    unfolding presented get_connector_by_rid
    get_instance type_rid tenant_id primary_key = do
      schema ← on_cache (get_schema now O type_rid tenant_id)
      mapping ← require schema.asset_mapping (app_error data_asset_not_mapped)
      connector ← get_connector_by_rid mapping.read_connection_id tenant_id
      row ← lift (Query.get_instance connector schema mapping.read_asset_path primary_key)
      pure (present_row schema row)

unfoldable pub invalidate_schema_cache : String → Service → Service
unfolding invalidate
invalidate_schema_cache tenant_id s = record s { cache = invalidate tenant_id s.cache }
