-- ===== src/Index/Errors.antt =====
-- The errors that the key functions of internal/index return, one constructor for each message.
pub data KeyError : Type 0 where
  wrong_prefix bad_length bad_separator truncated bad_layout length_mismatch : KeyError
  facet_id_out_of_range tag_too_long source_id_too_long : KeyError
  empty_relation_type relation_type_too_long invalid_ulid : KeyError
