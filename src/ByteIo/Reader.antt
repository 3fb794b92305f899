-- ===== src/ByteIo/Reader.antt =====
-- `LittleEndianReader`: which ranges it reads, and what numbers it finds there.
use lunar_terrain_builder.Base.{
  ℕ, ◌+◌, ◌*◌, ◌^◌, ◌≤◌, ◌<◌, ◌≡◌, ◌∙◌, ◌⊎◌, inl, inr, refl, sym, ap, arith, false, ◌++◌, length,
  subspan, IsU64, length-append, take-all, subspan-middle,
}
use lunar_terrain_builder.Error.{
  ErrorCode, Result, success, failure, FailsWith, FailsWith→no_value, has_value,
}
use lunar_terrain_builder.ByteIo.{
  Bytes, LittleEndianReader, size, checked_add, read_range, truncated_error, read_bytes, read_u16,
  read_u32, read_u64, join_bytes,
}
use lunar_terrain_builder.ByteIo.Checked.{checked_add_exact}
use lunar_terrain_builder.ByteIo.Little.{
  le_bytes, length-le_bytes, le_bytes-IsByte, le_value-le_bytes, join_bytes-le_value,
  join_u16-le_value,
}
use native.Mathlib.Decide.{dec_le}

read_range_fits :
    (r : LittleEndianReader) (o n : ℕ)
    → IsU64 (length r.bytes)
    → o + n ≤ length r.bytes
    → read_range r o n (success (o + n)) ≡ success (subspan r.bytes o n)
unfolding read_range size
read_range_fits r o n hs h = ground arith

read_range_past :
    (r : LittleEndianReader) (o n : ℕ)
    → length r.bytes < o + n
    → FailsWith ErrorCode.truncated_data (read_range r o n (success (o + n)))
unfolding read_range size truncated_error
read_range_past r o n h = ground arith

read_range_failed :
    (r : LittleEndianReader) (o n : ℕ) (c : ErrorCode) (m : Result ℕ)
    → FailsWith c m
    → has_value (read_range r o n m) ≡ false
unfolding read_range
read_range_failed r o n c (success k) h = absurd h
read_range_failed r o n c (failure e) h = refl

pub read_bytes-subspan :
    (r : LittleEndianReader) (o n : ℕ)
    → IsU64 (length r.bytes)
    → o + n ≤ length r.bytes
    → read_bytes r o n ≡ success (subspan r.bytes o n)
unfolding read_bytes
read_bytes-subspan r o n hs h = elim (checked_add_exact o n (omega arith) (omega arith)) [
  | inl (e, fits) ↦ rw e (read_range_fits r o n hs h)
  | inr (e, over) ↦ absurd (omega arith)
]

read_bytes_outside :
    (r : LittleEndianReader) (o n : ℕ)
    → IsU64 o
    → IsU64 n
    → length r.bytes < o + n
    → has_value (read_bytes r o n) ≡ false
unfolding read_bytes
read_bytes_outside r o n ho hn h = elim (checked_add_exact o n ho hn) [
  | inl (e, fits) ↦ rw e (FailsWith→no_value _ _ (read_range_past r o n h))
  | inr (e, over) ↦ read_range_failed r o n _ (checked_add o n) e
]

-- On 64-bit operands and a span that fits memory, `read_bytes` returns the bytes of the range where
-- the range lies in the span, and fails where it does not, also where its end overflows 64 bits.
pub read_bytes_range :
    (r : LittleEndianReader) (o n : ℕ)
    → IsU64 (length r.bytes)
    → IsU64 o
    → IsU64 n
    → (read_bytes r o n ≡ success (subspan r.bytes o n)) × (o + n ≤ length r.bytes)
      ⊎ (has_value (read_bytes r o n) ≡ false) × (length r.bytes < o + n)
read_bytes_range r o n hs ho hn = elim (dec_le (o + n) (length r.bytes)) [
  | yes inside ↦ inl (read_bytes-subspan r o n hs inside, inside)
  | no outside ↦ inr (read_bytes_outside r o n ho hn (omega arith), omega arith)
]

-- The numerals that the readers find are the little-endian values of the bytes in the range.
module _ (pre post : Bytes) (base v : ℕ) where
  holding : ℕ → LittleEndianReader
  holding n = record { bytes = pre ++ (le_bytes n v ++ post); base_offset = base }

  read_bytes-holding :
      (n : ℕ)
      → IsU64 (length (holding n).bytes)
      → read_bytes (holding n) (length pre) n ≡ success (le_bytes n v)
  unfolding holding
  read_bytes-holding n fits =
      read_bytes-subspan (holding n) (length pre) n fits (
        omega (
          arith,
          length-append pre (le_bytes n v ++ post),
          length-append (le_bytes n v) post,
          length-le_bytes n v,
        ))
      ∙ ap success (
          ap (λ (k : ℕ). subspan (pre ++ (le_bytes n v ++ post)) (length pre) k)
            (sym (length-le_bytes n v))
          ∙ subspan-middle pre (le_bytes n v) post)

  joined : (w n : ℕ) → n * 8 ≤ w → v < 256 ^ n → join_bytes w n (le_bytes n v) ≡ v
  joined w n fits hv =
      join_bytes-le_value w n _ (le_bytes-IsByte n v) fits
      ∙ rw (take-all n (le_bytes n v) (omega (arith, length-le_bytes n v)))
          (le_value-le_bytes n v hv)

  pub read_u16-le_bytes :
      IsU64 (length (pre ++ (le_bytes 2 v ++ post)))
      → v < 2 ^ 16
      → read_u16 (record { bytes = pre ++ (le_bytes 2 v ++ post); base_offset = base }) (length pre)
        ≡ success v
  unfolding read_u16 holding
  read_u16-le_bytes fits hv = rw (read_bytes-holding 2 fits) (
      ap success (
        join_u16-le_value _ (le_bytes-IsByte 2 v)
        ∙ rw (take-all 2 (le_bytes 2 v) (omega (arith, length-le_bytes 2 v)))
            (le_value-le_bytes 2 v hv)))

  pub read_u32-le_bytes :
      IsU64 (length (pre ++ (le_bytes 4 v ++ post)))
      → v < 2 ^ 32
      → read_u32 (record { bytes = pre ++ (le_bytes 4 v ++ post); base_offset = base }) (length pre)
        ≡ success v
  unfolding read_u32 holding
  read_u32-le_bytes fits hv =
      rw (read_bytes-holding 4 fits) (ap success (joined 32 4 (omega arith) hv))

  pub read_u64-le_bytes :
      IsU64 (length (pre ++ (le_bytes 8 v ++ post)))
      → v < 2 ^ 64
      → read_u64 (record { bytes = pre ++ (le_bytes 8 v ++ post); base_offset = base }) (length pre)
        ≡ success v
  unfolding read_u64 holding
  read_u64-le_bytes fits hv =
      rw (read_bytes-holding 8 fits) (ap success (joined 64 8 (omega arith) hv))
