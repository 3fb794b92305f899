-- ===== src/ByteWriter.antt =====
-- The byte-buffer helpers of src/builder/container_writer.cpp: little-endian writes in place and at
-- the end of a buffer, and alignment to eight bytes.
pub mod Laws
use lunar_terrain_builder.Base.{
  ℕ, ◌+◌, ◌-◌, ◌*◌, ◌/◌, ◌^◌, bit_and, List, [], ◌∷◌, ◌++◌, length, replicate, set, u8, u64,
  complement64,
}
use lunar_terrain_builder.Base.Loops.{for_up}
use lunar_terrain_builder.ByteIo.{Bytes}

unfoldable pub align8 : ℕ → ℕ
align8 value = bit_and (u64 (value + 7)) (complement64 7)

pub append_zeroes : Bytes → ℕ → Bytes
append_zeroes bytes count = bytes ++ replicate count 0

pub align_to_8 : Bytes → Bytes
unfolding append_zeroes align8
align_to_8 bytes = append_zeroes bytes (align8 (length bytes) - length bytes)

pub write_u8 : Bytes → ℕ → ℕ → Bytes
write_u8 bytes offset value = set bytes offset (u8 value)

-- `for (index = 0; index < count; ++index) bytes[offset + index] = value >> (index * 8)`
abbrev pub write_bytes_le : ℕ → Bytes → ℕ → ℕ → Bytes
write_bytes_le count bytes offset value =
    for_up count (λ i b. set b (offset + i) (u8 (value / 2 ^ (i * 8)))) bytes

pub write_u16 : Bytes → ℕ → ℕ → Bytes
write_u16 bytes offset value = write_bytes_le 2 bytes offset value

pub write_u32 : Bytes → ℕ → ℕ → Bytes
write_u32 bytes offset value = write_bytes_le 4 bytes offset value

pub write_u64 : Bytes → ℕ → ℕ → Bytes
write_u64 bytes offset value = write_bytes_le 8 bytes offset value

-- `bytes.resize(offset + count)` from the size `offset` fills with zero bytes.
pub append_u8 : Bytes → ℕ → Bytes
append_u8 bytes value = bytes ++ u8 value ∷ []

unfoldable pub append_u16 : Bytes → ℕ → Bytes
unfolding write_u16
append_u16 bytes value = write_u16 (bytes ++ replicate 2 0) (length bytes) value

unfoldable pub append_u32 : Bytes → ℕ → Bytes
unfolding write_u32
append_u32 bytes value = write_u32 (bytes ++ replicate 4 0) (length bytes) value

unfoldable pub append_u64 : Bytes → ℕ → Bytes
unfolding write_u64
append_u64 bytes value = write_u64 (bytes ++ replicate 8 0) (length bytes) value
