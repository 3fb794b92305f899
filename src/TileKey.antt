-- ===== src/TileKey.antt =====
-- `LunarTileKey` of include/lunar/terrain/tile_key.hpp and src/core/tile_key.cpp: a face of the
-- quadrilateralized cube, a level, and the Morton code of x and y, packed into 64 bits.
pub mod Morton
pub mod Layout
pub mod Create
pub mod Family
pub mod Text
use lunar_terrain_builder.Base.{
  ℕ, ◌+◌, ◌-◌, ◌*◌, ◌/◌, ◌^◌, bit_and, bit_or, ◌||◌, Option, none, some, ltb, leb, ◌==◌, ◌/=◌,
  if◌then◌else◌, u8, u32, u64, complement64,
}
use lunar_terrain_builder.Base.Loops.{for_up}
use lunar_terrain_builder.Error.{ErrorCode, make_error, Result, success, failure}

pub record LunarTileKey : Type 0 where
  pub encoded : ℕ

abbrev pub max_face : ℕ
max_face = 5

abbrev pub max_level : ℕ
max_level = 28

abbrev pub morton_mask : ℕ
morton_mask = 2 ^ 56 - 1

-- `static_cast<std::uint8_t>(encoded_ >> 61)`
unfoldable pub face : LunarTileKey → ℕ
face k = u8 (k.encoded / 2 ^ 61)

unfoldable pub level : LunarTileKey → ℕ
level k = u8 (bit_and (k.encoded / 2 ^ 56) 0x1F)

unfoldable pub morton : LunarTileKey → ℕ
morton k = bit_and k.encoded morton_mask

-- One round of the loop of `interleave`.
unfoldable pub interleave_bit : ℕ → ℕ → ℕ → ℕ → ℕ
interleave_bit x y bit result =
    bit_or (bit_or result (u64 (bit_and (x / 2 ^ bit) 1 * 2 ^ (2 * bit))))
      (u64 (bit_and (y / 2 ^ bit) 1 * 2 ^ (2 * bit + 1)))

unfoldable pub interleave : ℕ → ℕ → ℕ → ℕ
unfolding interleave_bit
interleave x y level = for_up level (interleave_bit x y) 0

unfoldable pub create : ℕ → ℕ → ℕ → ℕ → Result LunarTileKey
create face level x y =
    if ltb max_face face
    then failure
        (make_error ErrorCode.invalid_tile_key "tile face must be in the range 0 through 5")
    else if ltb max_level level
    then failure
        (make_error ErrorCode.invalid_tile_key "tile level must be in the range 0 through 28")
    else let tiles_per_axis = u32 (2 ^ level) in
      if leb tiles_per_axis x || leb tiles_per_axis y
      then failure
          (make_error ErrorCode.invalid_tile_key "tile coordinates must be less than 2^level")
      else success (record {
        encoded =
            bit_or (bit_or (u64 (u8 face * 2 ^ 61)) (u64 (u8 level * 2 ^ 56)))
              (interleave x y (u8 level));
      })

unfoldable pub from_encoded : ℕ → Result LunarTileKey
from_encoded encoded =
    let face = u8 (encoded / 2 ^ 61) in
    let level = u8 (bit_and (encoded / 2 ^ 56) 0x1F) in
    if ltb max_face face || ltb max_level level
    then failure
        (make_error ErrorCode.invalid_tile_key "encoded tile face or level is out of range")
    else let used_mask = if level == max_level then morton_mask else u64 (2 ^ (2 * level)) - 1 in
      if bit_and (bit_and encoded morton_mask) (complement64 used_mask) /= 0
      then failure
          (make_error ErrorCode.invalid_tile_key "encoded tile key has nonzero unused Morton bits")
      else success (record { encoded = encoded })

unfoldable pub x_bit : ℕ → ℕ → ℕ → ℕ
x_bit code bit result = bit_or result (u32 (u32 (bit_and (code / 2 ^ (2 * bit)) 1) * 2 ^ bit))

unfoldable pub y_bit : ℕ → ℕ → ℕ → ℕ
y_bit code bit result = bit_or result (u32 (u32 (bit_and (code / 2 ^ (2 * bit + 1)) 1) * 2 ^ bit))

unfoldable pub x : LunarTileKey → ℕ
unfolding x_bit
x k = for_up (level k) (x_bit (morton k)) 0

unfoldable pub y : LunarTileKey → ℕ
unfolding y_bit
y k = for_up (level k) (y_bit (morton k)) 0

unfoldable pub parent : LunarTileKey → Option LunarTileKey
parent k =
    if level k == 0
    then none
    else some (record {
      encoded =
          bit_or (bit_or (u64 (face k * 2 ^ 61)) (u64 ((level k - 1) * 2 ^ 56))) (morton k / 2 ^ 2);
    })

-- `std::array<LunarTileKey, 4>`
pub record Children : Type 0 where
  pub child0 : LunarTileKey
  pub child1 : LunarTileKey
  pub child2 : LunarTileKey
  pub child3 : LunarTileKey

unfoldable pub child_prefix : LunarTileKey → ℕ
child_prefix k =
    bit_or (bit_or (u64 (face k * 2 ^ 61)) (u64 (u8 (level k + 1) * 2 ^ 56)))
      (u64 (morton k * 2 ^ 2))

unfoldable pub children : LunarTileKey → Result Children
unfolding child_prefix
children k =
    if level k == max_level
    then failure
        (make_error ErrorCode.invalid_tile_key "a level-28 tile cannot have a representable child")
    else success (record {
      child0 = record { encoded = child_prefix k };
      child1 = record { encoded = bit_or (child_prefix k) 1 };
      child2 = record { encoded = bit_or (child_prefix k) 2 };
      child3 = record { encoded = bit_or (child_prefix k) 3 };
    })
