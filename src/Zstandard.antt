-- ===== src/Zstandard.antt =====
-- `decompress_zstandard` of src/core/codec.cpp. The library zstd is a parameter.
use lunar_terrain_builder.Base.{ℕ, Bool, String, length, ltb, ◌==◌, ◌/=◌, ◌||◌, ◌≡◌, arith, u64_max}
use Prim.Native.String.{◌++◌}
use lunar_terrain_builder.Error.{ErrorCode, make_error, Result, success, fail_if, ◌>>◌}
use lunar_terrain_builder.ByteIo.{Bytes}

-- The calls of zstd: `dictionary_id` is `ZSTD_getDictID_fromFrame`, `content_size` is
-- `ZSTD_getFrameContentSize` with its two special values, and `decompress` is `ZSTD_decompress`, which
-- returns a code and leaves a buffer of the size that it is given.
pub record Zstd : Type 0 where
  pub dictionary_id : Bytes → ℕ
  pub content_size : Bytes → ℕ
  pub content_size_error : ℕ
  pub content_size_unknown : ℕ
  pub decompress : ℕ → Bytes → ℕ × Bytes
  pub is_error : ℕ → Bool
  pub error_name : ℕ → String
  pub decompress-length : (n : ℕ) (bytes : Bytes) → length (decompress n bytes).1 ≡ n

pub decompress_zstandard : Zstd → Bytes → ℕ → Result Bytes
decompress_zstandard z stored_bytes expected_logical_bytes = do
  fail_if (length stored_bytes == 0)
      (make_error ErrorCode.decompression_failed "Zstandard frame is empty")
  fail_if (ltb u64_max expected_logical_bytes)
      (make_error ErrorCode.arithmetic_overflow "Zstandard output does not fit in memory")
  fail_if (z.dictionary_id stored_bytes /= 0) (
      make_error ErrorCode.unsupported_feature
        "Zstandard dictionaries are not supported by format v1")
  fail_if (z.content_size stored_bytes == z.content_size_error)
      (make_error ErrorCode.decompression_failed "stored bytes are not a valid Zstandard frame")
  fail_if
      (z.content_size stored_bytes == z.content_size_unknown
        || z.content_size stored_bytes /= expected_logical_bytes)
      (make_error ErrorCode.invalid_format
        "Zstandard frame content size disagrees with the channel record")
  let (result, decoded) = z.decompress expected_logical_bytes stored_bytes
  fail_if (z.is_error result) (
      make_error ErrorCode.decompression_failed
        ("Zstandard decompression failed: " ++ z.error_name result))
  fail_if (result /= length decoded)
      (make_error ErrorCode.decompression_failed "Zstandard produced an unexpected byte count")
  success decoded

-- What is decompressed has the size that was asked for.
pub decompress_zstandard-length :
    (z : Zstd) (stored : Bytes) (n : ℕ) (decoded : Bytes)
    → decompress_zstandard z stored n ≡ success decoded
    → length decoded ≡ n
unfolding decompress_zstandard
decompress_zstandard-length z stored n decoded h = ground (arith, z.decompress-length n stored)
