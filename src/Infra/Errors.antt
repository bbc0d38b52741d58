-- ===== src/Infra/Errors.antt =====
-- infra/errors.py: the error codes, their HTTP status, and the error value that handlers return.
use Prim.Native.Nat.{ℕ}
use mathlib.Core.Option.{Option, none, some}
use mathlib.Core.List.{List, []}
use Prim.Native.String.{String}

-- `ErrorCode`
pub data ErrorCode : Type 0 where
  common_unauthorized : ErrorCode
  common_forbidden : ErrorCode
  common_not_found : ErrorCode
  common_invalid_input : ErrorCode
  common_internal_error : ErrorCode
  common_conflict : ErrorCode
  setting_auth_invalid_credentials : ErrorCode
  setting_auth_token_expired : ErrorCode
  setting_auth_token_revoked : ErrorCode
  setting_user_not_found : ErrorCode
  setting_user_email_exists : ErrorCode
  setting_permission_denied : ErrorCode
  ontology_not_found : ErrorCode
  ontology_dependency_conflict : ErrorCode
  ontology_version_conflict : ErrorCode
  ontology_validation_failed : ErrorCode
  ontology_lock_conflict : ErrorCode
  ontology_lock_required : ErrorCode
  ontology_cycle_detected : ErrorCode
  ontology_duplicate_api_name : ErrorCode
  ontology_immutable_field : ErrorCode
  ontology_contract_violation : ErrorCode
  ontology_staging_empty : ErrorCode
  ontology_uncommitted_changes : ErrorCode
  ontology_draft_not_found : ErrorCode
  ontology_staging_not_found : ErrorCode
  data_source_unreachable : ErrorCode
  data_source_not_found : ErrorCode
  data_connection_in_use : ErrorCode
  data_query_timeout : ErrorCode
  data_schema_mismatch : ErrorCode
  data_asset_not_found : ErrorCode
  data_asset_not_mapped : ErrorCode
  data_masked_field_not_sortable : ErrorCode
  data_branch_not_found : ErrorCode
  data_branch_conflict : ErrorCode
  data_branch_unavailable : ErrorCode
  data_editlog_write_failed : ErrorCode
  data_row_lock_conflict : ErrorCode
  function_not_found : ErrorCode
  function_execution_failed : ErrorCode
  function_timeout : ErrorCode
  function_param_invalid : ErrorCode
  function_param_instance_not_found : ErrorCode
  function_interface_not_implemented : ErrorCode
  function_writeback_disabled : ErrorCode
  function_confirmation_expired : ErrorCode
  function_in_use : ErrorCode
  copilot_session_not_found : ErrorCode
  copilot_session_expired : ErrorCode
  copilot_tool_failed : ErrorCode
  copilot_tool_limit_exceeded : ErrorCode
  copilot_model_unavailable : ErrorCode
  copilot_mcp_connection_failed : ErrorCode
  copilot_mcp_discovery_failed : ErrorCode

-- `ERROR_STATUS_MAP.get(code)`: every code of the enumeration, or `none` for a code without entry
unfoldable pub error_status_map : ErrorCode → Option ℕ
error_status_map common_unauthorized = some 401
error_status_map common_forbidden = some 403
error_status_map common_not_found = some 404
error_status_map common_invalid_input = some 400
error_status_map common_internal_error = some 500
error_status_map common_conflict = some 409
error_status_map setting_auth_invalid_credentials = some 401
error_status_map setting_auth_token_expired = some 401
error_status_map setting_auth_token_revoked = some 401
error_status_map setting_user_not_found = some 404
error_status_map setting_user_email_exists = some 409
error_status_map setting_permission_denied = some 403
error_status_map ontology_not_found = some 404
error_status_map ontology_dependency_conflict = some 409
error_status_map ontology_version_conflict = some 409
error_status_map ontology_validation_failed = some 422
error_status_map ontology_lock_conflict = some 409
error_status_map ontology_lock_required = some 403
error_status_map ontology_cycle_detected = some 422
error_status_map ontology_duplicate_api_name = some 409
error_status_map ontology_immutable_field = some 422
error_status_map ontology_contract_violation = some 422
error_status_map ontology_staging_empty = some 400
error_status_map ontology_uncommitted_changes = some 409
error_status_map ontology_draft_not_found = some 404
error_status_map ontology_staging_not_found = some 404
error_status_map data_source_unreachable = some 503
error_status_map data_source_not_found = some 404
error_status_map data_connection_in_use = some 409
error_status_map data_query_timeout = some 504
error_status_map data_schema_mismatch = some 422
error_status_map data_asset_not_found = some 404
error_status_map data_asset_not_mapped = some 400
error_status_map data_masked_field_not_sortable = some 400
error_status_map data_branch_not_found = some 404
error_status_map data_branch_conflict = some 409
error_status_map data_branch_unavailable = some 503
error_status_map data_editlog_write_failed = some 500
error_status_map data_row_lock_conflict = some 409
error_status_map function_not_found = some 404
error_status_map function_execution_failed = some 500
error_status_map function_timeout = some 504
error_status_map function_param_invalid = some 400
error_status_map function_param_instance_not_found = some 404
error_status_map function_interface_not_implemented = some 422
error_status_map function_writeback_disabled = some 422
error_status_map function_confirmation_expired = some 410
error_status_map function_in_use = some 409
error_status_map copilot_session_not_found = some 404
error_status_map copilot_session_expired = some 410
error_status_map copilot_tool_failed = some 500
error_status_map copilot_tool_limit_exceeded = some 429
error_status_map copilot_model_unavailable = some 503
error_status_map copilot_mcp_connection_failed = some 502
error_status_map copilot_mcp_discovery_failed = some 502

-- `AppError`: its code and its `details`, a key with a list of identifiers. Messages are left out.
pub record AppError : Type 0 where
  pub code : ErrorCode
  pub details : List (String × List String)

abbrev pub app_error : ErrorCode → AppError
app_error c = record { code = c; details = [] }

-- `AppError.status_code`: 500 where the map has no entry
unfoldable pub status_code : AppError → ℕ
unfolding error_status_map
status_code e = elim (error_status_map e.code) [ none ↦ 500 | some n ↦ n ]
