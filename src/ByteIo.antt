-- ===== src/ByteIo.antt =====
-- Checked arithmetic and the little-endian reader: include/lunar/terrain/byte_io.hpp and
-- src/core/byte_io.cpp. A byte span is the list of its bytes. A floating-point value is its bit
-- pattern, since `std::bit_cast` changes nothing else.
pub mod Little
pub mod Checked
pub mod Reader
use lunar_terrain_builder.Base.{
  ℕ, ◌+◌, ◌-◌, ◌*◌, ◌/◌, ◌^◌, bit_or, ◌%◌, ◌||◌, ◌&&◌, List, length, get_or, subspan, ltb, ◌/=◌,
  if◌then◌else◌, u16, u32, u64, u64_max,
}
use lunar_terrain_builder.Base.Loops.{for_up}
use lunar_terrain_builder.Error.{
  Error, ErrorCode, make_error, with_offset, Result, success, failure, ◌>>=◌,
}

abbrev pub Bytes : Type 0
Bytes = List ℕ

pub checked_add : ℕ → ℕ → Result ℕ
checked_add left right =
    if ltb (u64_max - left) right
    then failure (make_error ErrorCode.arithmetic_overflow "unsigned addition overflow")
    else success (u64 (left + right))

unfoldable pub checked_multiply : ℕ → ℕ → Result ℕ
checked_multiply left right =
    if left /= 0 && ltb (u64_max / left) right
    then failure (make_error ErrorCode.arithmetic_overflow "unsigned multiplication overflow")
    else success (u64 (left * right))

pub record LittleEndianReader : Type 0 where
  pub bytes : Bytes
  pub base_offset : ℕ

unfoldable pub size : LittleEndianReader → ℕ
size r = length r.bytes

-- `absolute ? absolute.value() : base_offset_`
value_or_base : LittleEndianReader → Result ℕ → ℕ
value_or_base r (success n) = n
value_or_base r (failure e) = r.base_offset

pub truncated_error : LittleEndianReader → ℕ → Error
unfolding checked_add value_or_base
truncated_error r offset =
    with_offset
      (make_error ErrorCode.truncated_data "byte range extends beyond its containing data")
      (value_or_base r (checked_add r.base_offset offset))

read_range : LittleEndianReader → ℕ → ℕ → Result ℕ → Result Bytes
unfolding truncated_error size
read_range r offset byte_count (failure e) =
    failure (with_offset e (value_or_base r (checked_add r.base_offset offset)))
read_range r offset byte_count (success end') =
    if ltb (size r) end' || ltb u64_max offset || ltb u64_max byte_count
    then failure (truncated_error r offset)
    else success (subspan r.bytes offset byte_count)

unfoldable pub read_bytes : LittleEndianReader → ℕ → ℕ → Result Bytes
unfolding read_range
read_bytes r offset byte_count = read_range r offset byte_count (checked_add offset byte_count)

pub read_u8 : LittleEndianReader → ℕ → Result ℕ
read_u8 r offset = do bytes ← read_bytes r offset 1; success (get_or bytes 0 0)

-- `bytes[0] | (bytes[1] << 8)`
abbrev pub join_u16 : Bytes → ℕ
join_u16 bytes = u16 (bit_or (get_or bytes 0 0) (get_or bytes 1 0 * 2 ^ 8))

-- `for (index = 0; index < count; ++index) value |= bytes[index] << (index * 8)` in `width` bits
abbrev pub join_bytes : ℕ → ℕ → Bytes → ℕ
join_bytes width count bytes =
    for_up count (λ i value. bit_or value (get_or bytes i 0 * 2 ^ (i * 8) % 2 ^ width)) 0

unfoldable pub read_u16 : LittleEndianReader → ℕ → Result ℕ
read_u16 r offset = do bytes ← read_bytes r offset 2; success (join_u16 bytes)

pub read_u32 : LittleEndianReader → ℕ → Result ℕ
read_u32 r offset = do bytes ← read_bytes r offset 4; success (join_bytes 32 4 bytes)

pub read_u64 : LittleEndianReader → ℕ → Result ℕ
read_u64 r offset = do bytes ← read_bytes r offset 8; success (join_bytes 64 8 bytes)

pub read_f32 : LittleEndianReader → ℕ → Result ℕ
unfolding read_u32
read_f32 r offset = do bits ← read_u32 r offset; success bits

pub read_f64 : LittleEndianReader → ℕ → Result ℕ
unfolding read_u64
read_f64 r offset = do bits ← read_u64 r offset; success bits
