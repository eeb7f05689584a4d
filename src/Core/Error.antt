-- ===== src/Core/Error.antt =====
-- include/sai/core/error.h: the error codes, and results that carry them. The source location of an
-- ErrorInfo is left out. `fault` stands for undefined behaviour (a null pointer is dereferenced, a
-- vector is read out of range) and for an exception that leaves a noexcept function.
use surface_ai.Base.Text.{Text}

pub data ErrorCode : Type 0 where
  core_unknown core_construction_failed core_type_already_registered core_type_not_found : ErrorCode
  lifecycle_register_after_assembly : ErrorCode
  memory_arena_exhausted memory_request_exceeds_slab_size memory_allocation_failed : ErrorCode
  memory_pool_exhausted : ErrorCode
  plugin_version_incompatible plugin_capability_unsupported plugin_license_invalid : ErrorCode
  plugin_circular_dependency : ErrorCode
  runtime_queue_full runtime_cancelled runtime_gpu_error runtime_node_not_found : ErrorCode
  infra_log_sink_init_failed infra_config_file_not_found infra_config_parse_error : ErrorCode
  infra_config_validation_failed infra_config_key_not_found : ErrorCode
  infra_config_key_type_mismatch : ErrorCode
  device_connection_failed device_not_connected device_acquisition_in_progress : ErrorCode
  image_unsupported_pixel_format image_dimension_mismatch image_preprocess_failed : ErrorCode
  io_export_path_create_failed io_serialization_failed io_import_file_not_found : ErrorCode
  io_import_parse_failed : ErrorCode
  inference_engine_load_failed inference_engine_execution_failed : ErrorCode
  inference_invalid_binding inference_reload_failed inference_model_config_mismatch : ErrorCode
  embedding_not_gpu_image embedding_dimension_mismatch : ErrorCode
  embedding_invalid_patch_parameters : ErrorCode
  detection_feature_bank_load_failed detection_invalid_patch_grid : ErrorCode
  knowledge_db_open_failed knowledge_schema_migration_failed knowledge_node_not_found : ErrorCode
  knowledge_edge_not_found knowledge_invalid_relationship knowledge_snapshot_not_found : ErrorCode
  knowledge_snapshot_restore_failed : ErrorCode
  retrieval_dimension_mismatch retrieval_empty_index retrieval_fusion_config_invalid : ErrorCode
  rule_parse_error rule_invalid_path rule_type_mismatch rule_cyclic_override : ErrorCode
  rule_reload_failed : ErrorCode
  reasoner_tree_load_failed reasoner_invalid_tree reasoner_score_computation_failed : ErrorCode
  pipeline_invalid_config pipeline_stage_type_mismatch pipeline_stage_init_failed : ErrorCode
  pipeline_invalid_state pipeline_queue_full : ErrorCode
  scheduler_pool_not_found scheduler_queue_create_failed : ErrorCode
  visualization_frame_buffer_full visualization_config_reload_failed : ErrorCode
  visualization_pipeline_restart_failed : ErrorCode
  detection_coreset_evolution_update_failed detection_coreset_evolution_degraded : ErrorCode
  detection_coreset_evolution_full_rebuild_failed : ErrorCode
  detection_coreset_evolution_profile_load_failed : ErrorCode
  tuning_space_empty tuning_constraint_violated tuning_objective_eval_failed : ErrorCode
  tuning_rollback_triggered tuning_parameter_apply_failed : ErrorCode

pub record ErrorInfo : Type 0 where
  pub code : ErrorCode
  pub message : Text

pub data Result {ℓ} (A : Type ℓ) : Type ℓ where
  ok : A → Result A
  err : ErrorInfo → Result A
  fault : Result A

infixl 5 ◌>>=◌
abbrev pub ◌>>=◌ {ℓ κ} : {A : Type ℓ} {B : Type κ} → Result A → (A → Result B) → Result B
ok a >>= f = f a
err e >>= f = err e
fault >>= f = fault

abbrev pub fail {ℓ} : {A : Type ℓ} → ErrorCode → Text → Result A
fail c m = err (record { code = c; message = m })
