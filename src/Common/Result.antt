-- ===== src/Common/Result.antt =====
-- common/result.h
use synthgen_core.Prelude.{Text, ◌≡◌}

pub data ErrorCode : Type 0 where
  ok_code invalid_argument invalid_range invalid_state type_mismatch not_found : ErrorCode
  already_exists data_corruption unsupported_in_v1 out_of_memory timeout : ErrorCode
  internal_error : ErrorCode
  syntax_error undefined_type undefined_column duplicate_column_name : ErrorCode
  duplicate_type_name invalid_enum invalid_schema invalid_column_name : ErrorCode
  table_already_exists table_not_found storage_full schema_mismatch : ErrorCode
  snapshot_not_found write_failed read_failed column_not_found : ErrorCode
  schema_violation honesty_violation consistency_error serialization_error : ErrorCode
  deserialization_error hash_mismatch : ErrorCode
  order_column_required invalid_delta empty_batch order_column_null : ErrorCode
  invalid_offset state_not_initialized : ErrorCode
  version_not_found parent_not_found immutable_violation duplicate_version_id : ErrorCode
  version_chain_cycle model_not_found invalid_version_id : ErrorCode
  compaction_in_progress protected_version compaction_failed : ErrorCode
  metadata_merge_conflict auto_compact_disabled : ErrorCode
  version_compacted no_available_version snapshot_load_failed : ErrorCode
  data_engine_unavailable empty_training_data drift_detection_failed : ErrorCode
  compensation_timeout compensation_diverging version_creation_failed : ErrorCode
  dimension_mismatch protocol_not_defined : ErrorCode
  invalid_window_spec search_not_converged : ErrorCode

pub record Error : Type 0 where
  pub code : ErrorCode
  pub message : Text
  pub component : Text

-- `Result<T>`; `Result<void>` is `Result Unit`.
pub data Result {ℓ} (T : Type ℓ) : Type ℓ where
  err : Error → Result T
  ok : T → Result T

-- `if (!check.ok()) return check.error();` before the rest of a function
infixl 5 ◌>>◌
abbrev pub ◌>>◌ {ℓ} : {T : Type ℓ} → Result (Unit {0}) → Result T → Result T
err e >> rest = err e
ok _ >> rest = rest

-- `return Error(code, message, component)`
abbrev pub fail {ℓ} : {A : Type ℓ} → ErrorCode → Text → Text → Result A
fail code message component = err (record { code = code; message = message; component = component })

-- The call returned an error of this code.
abbrev pub FailsWith {ℓ} : {A : Type ℓ} → ErrorCode → Result A → Type 0
FailsWith c (ok a) = ⊥
FailsWith c (err e) = e.code ≡ c
