-- ===== src/Engine/Errors.antt =====
-- The errors of internal/engine, one constructor for each message.
pub data EngineError : Type 0 where
  bad_page_len node_magic node_version node_kind node_nkeys : EngineError
  leaf_truncated leaf_key_len leaf_payload leaf_kv_mismatch leaf_page_full : EngineError
  internal_ptr0 internal_key_len internal_key internal_key_data : EngineError
  internal_ptr_key_mismatch internal_page_full : EngineError
  key_too_large uint16_overflow : EngineError
  invalid_freelist_page invalid_freelist_count invalid_freelist_next too_many_freelist_ids :
      EngineError
  free_id_out_of_range duplicate_free_id invalid_freelist_link freelist_cycle : EngineError
  freelist_page_is_free freelist_generation freelist_exceeds_count freelist_short : EngineError
  freelist_generation_without_head cannot_release duplicate_release release_of_freelist_page :
      EngineError
  bad_page_id bad_page_size no_page stale_root_page : EngineError
  page_too_small_for_overflow overflow_length_mismatch : EngineError
  short_header_page corrupt_header unsupported_format_version header_page_size : EngineError
