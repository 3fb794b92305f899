-- ===== src/Error/Code.antt =====
-- `enum class ErrorCode` of include/lunar/terrain/error.hpp, its numbers, and `error_code_name` of
-- src/core/error.cpp. A value outside the enumeration is `unnamed`.
use lunar_terrain_builder.Base.{ℕ, String}

pub data ErrorCode : Type 0 where
  none invalid_argument invalid_tile_key parse_error io_error truncated_data : ErrorCode
  arithmetic_overflow invalid_format unsupported_version unsupported_feature : ErrorCode
  checksum_mismatch hash_mismatch decompression_failed not_found internal_error : ErrorCode
  cancelled : ErrorCode
  unnamed : ℕ → ErrorCode

pub error_code_name : ErrorCode → String
error_code_name none = "none"
error_code_name invalid_argument = "invalid_argument"
error_code_name invalid_tile_key = "invalid_tile_key"
error_code_name parse_error = "parse_error"
error_code_name io_error = "io_error"
error_code_name truncated_data = "truncated_data"
error_code_name arithmetic_overflow = "arithmetic_overflow"
error_code_name invalid_format = "invalid_format"
error_code_name unsupported_version = "unsupported_version"
error_code_name unsupported_feature = "unsupported_feature"
error_code_name checksum_mismatch = "checksum_mismatch"
error_code_name hash_mismatch = "hash_mismatch"
error_code_name decompression_failed = "decompression_failed"
error_code_name not_found = "not_found"
error_code_name internal_error = "internal_error"
error_code_name cancelled = "cancelled"
error_code_name (unnamed n) = "unknown"
