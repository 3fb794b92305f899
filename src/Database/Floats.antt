-- ===== src/Database/Floats.antt =====
-- Floating-point values of the reader. A `float` is its bit pattern; arithmetic in `double` is a
-- parameter, a record of the operations that src/core/database.cpp uses.
use lunar_terrain_builder.Base.{
  ℕ, ◌+◌, ◌-◌, ◌/◌, ◌%◌, ◌^◌, Bool, Option, none, some, ◌||◌, ltb, ◌/=◌, u32_max, if◌then◌else◌,
}
use lunar_terrain_builder.Database.Bytes.{read_u32}
use lunar_terrain_builder.ByteIo.{Bytes}

unfoldable pub read_f32 : Bytes → ℕ → ℕ
unfolding read_u32
read_f32 bytes offset = read_u32 bytes offset

-- `std::isfinite` of a `float`
unfoldable pub is_finite32 : ℕ → Bool
is_finite32 bits = bits / 2 ^ 23 % 2 ^ 8 /= 255

-- The place of a finite `float` in the order of its values; the two zeros share theirs.
unfoldable pub rank32 : ℕ → ℕ
rank32 bits = if ltb bits (2 ^ 31) then 2 ^ 31 + bits else 2 ^ 32 - bits

-- `left < right` of finite values
unfoldable pub less32 : ℕ → ℕ → Bool
unfolding rank32
less32 left right = ltb (rank32 left) (rank32 right)

abbrev pub zero32 : ℕ
zero32 = 0

abbrev pub one32 : ℕ
one32 = 0x3F800000

pub record Doubles : Type 1 where
  pub Double : Type 0
  pub from_bits : ℕ → Double
  pub from_float : ℕ → Double
  pub from_integer : ℕ → Double
  -- `1.0e-6`
  pub micro : Double
  pub add : Double → Double → Double
  pub subtract : Double → Double → Double
  pub multiply : Double → Double → Double
  -- `std::abs` and `std::round`
  pub absolute : Double → Double
  pub round : Double → Double
  pub less : Double → Double → Bool
  -- `static_cast<std::uint32_t>` of a value in range, and `static_cast<float>`
  pub to_u32 : Double → ℕ
  pub to_float : Double → ℕ

module _ (d : Doubles) where
  -- `rounded_millimeters`, the lambda in `decode_tile`
  unfoldable pub rounded_millimeters : ℕ → Option ℕ
  rounded_millimeters meters =
      let millimeters = d.round (d.multiply (d.from_float meters) (d.from_integer 1000)) in
      if d.less millimeters (d.from_integer 0) || d.less (d.from_integer u32_max) millimeters
      then none
      else some (d.to_u32 millimeters)

  -- `static_cast<float>(origin + static_cast<double>(code) * step)`
  unfoldable pub code_elevation : (origin step code : ℕ) → ℕ
  code_elevation origin step code =
      d.to_float (d.add (d.from_bits origin) (d.multiply (d.from_integer code) (d.from_bits step)))
