-- ===== src/Database/Bytes.antt =====
-- The helpers at the top of src/core/database.cpp: reads at fixed offsets of a record that is known
-- to be long enough, ranges, tags and orders of byte strings. A `double` is its bit pattern.
use lunar_terrain_builder.Base.{
  ℕ, ◌+◌, ◌-◌, ◌/◌, ◌%◌, ◌^◌, ◌≤◌, [], ◌∷◌, Bool, true, false, ◌&&◌, ◌||◌, Option, none, some,
  String, length, get_or, subspan, ltb, leb, ◌==◌, ◌/=◌, ◌≡◌, ◌↔◌, arith,
}
use lunar_terrain_builder.Error.{ErrorCode, Error, make_error, with_path, with_offset}
use lunar_terrain_builder.ByteIo.{Bytes, join_u16, join_bytes}
use lunar_terrain_builder.TileKey.Text.{codes, bytes_eq}

-- `make_error(code, message, path, offset)`
pub located : ErrorCode → String → String → Option ℕ → Error
located code message path none = with_path (make_error code message) path
located code message path (some offset) =
    with_offset (with_path (make_error code message) path) offset

unfoldable pub read_u8 : Bytes → ℕ → ℕ
read_u8 bytes offset = get_or bytes offset 0

unfoldable pub read_u16 : Bytes → ℕ → ℕ
read_u16 bytes offset = join_u16 (subspan bytes offset 2)

unfoldable pub read_u32 : Bytes → ℕ → ℕ
read_u32 bytes offset = join_bytes 32 4 (subspan bytes offset 4)

unfoldable pub read_u64 : Bytes → ℕ → ℕ
read_u64 bytes offset = join_bytes 64 8 (subspan bytes offset 8)

pub read_f64 : Bytes → ℕ → ℕ
unfolding read_u64
read_f64 bytes offset = read_u64 bytes offset

-- `std::isfinite`: the exponent is not all ones.
unfoldable pub is_finite : ℕ → Bool
is_finite bits = bits / 2 ^ 52 % 2 ^ 11 /= 2047

-- `value > 0.0` of a finite value: the sign is clear and the bits are not all zero.
pub is_positive : ℕ → Bool
is_positive bits = ltb bits (2 ^ 63) && bits /= 0

pub canonical_nan : ℕ → Bool
canonical_nan bits = bits == 0x7FF8000000000000

unfoldable pub range_fits : ℕ → ℕ → ℕ → Bool
range_fits offset byte_count containing_bytes =
    leb offset containing_bytes && leb byte_count (containing_bytes - offset)

unfoldable pub all_zero : Bytes → Bool
all_zero [] = true
all_zero (b ∷ rest) = b == 0 && all_zero rest

pub tag_is : Bytes → String → Bool
tag_is tag expected = length (codes expected) == length tag && bytes_eq tag (codes expected)

unfoldable pub magic_is : Bytes → ℕ → String → Bool
unfolding range_fits
magic_is bytes offset expected =
    range_fits offset (length (codes expected)) (length bytes)
    && bytes_eq (codes expected) (subspan bytes offset (length (codes expected)))

-- `std::lexicographical_compare` on unsigned bytes, which `unsigned_utf8_less` is too
pub bytes_less : Bytes → Bytes → Bool
bytes_less [] [] = false
bytes_less [] (b ∷ bs) = true
bytes_less (a ∷ as') [] = false
bytes_less (a ∷ as') (b ∷ bs) = ltb a b || (a == b && bytes_less as' bs)

pub read_digest : Bytes → ℕ → Bytes
read_digest bytes offset = subspan bytes offset 32

unfoldable pub digest_prefix_matches : Bytes → Bytes → Bool
digest_prefix_matches digest prefix =
    leb (length prefix) (length digest) && bytes_eq prefix (subspan digest 0 (length prefix))

-- `range_fits` holds exactly when the range of `count` bytes at `offset` ends within the containing
-- bytes, with the sum taken without wrap-around.
pub range_fits_iff :
    (offset count containing : ℕ)
    → (range_fits offset count containing ≡ true) ↔ (offset + count ≤ containing)
unfolding range_fits
range_fits_iff offset count containing = ground arith
