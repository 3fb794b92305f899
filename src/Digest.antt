-- ===== src/Digest.antt =====
-- `Sha256Digest` of include/lunar/terrain/digest.hpp, and its text form in src/core/digest.cpp. A
-- digest is the list of its 32 bytes, a text the list of its characters' codes.
pub mod RoundTrip
pub mod Tests
use lunar_terrain_builder.Base.{
  ℕ, zero, suc, ◌+◌, ◌-◌, ◌*◌, ◌/◌, ◌^◌, bit_and, bit_or, Bool, ◌&&◌, Option, none, some, List, [],
  ◌∷◌, length, leb, ltb, ◌/=◌, if◌then◌else◌, u8,
}
use lunar_terrain_builder.Error.{ErrorCode, Error, make_error, Result, success, failure, ◌>>=◌}
use lunar_terrain_builder.ByteIo.{Bytes}

-- `hex_digits[index]`
pub hex_digit : ℕ → ℕ
hex_digit index = if ltb index 10 then b'0' + index else b'a' + (index - 10)

-- `none` is the result -1.
pub hex_value : ℕ → Option ℕ
hex_value value =
    if leb b'0' value && leb value b'9'
    then some (value - b'0')
    else if leb b'a' value && leb value b'f'
    then some (value - b'a' + 10)
    else if leb b'A' value && leb value b'F'
    then some (value - b'A' + 10)
    else none

pub to_hex : Bytes → Bytes
unfolding hex_digit
to_hex [] = []
to_hex (value ∷ rest) = hex_digit (value / 2 ^ 4) ∷ hex_digit (bit_and value 0x0F) ∷ to_hex rest

pub hex_error : Error
hex_error = make_error ErrorCode.parse_error "a SHA-256 digest contains a non-hexadecimal character"

-- `(high << 4) | low`, where neither is negative
pub join_digits : Option ℕ → Option ℕ → Result ℕ
unfolding hex_error
join_digits (some high) (some low) = success (u8 (bit_or (high * 2 ^ 4) low))
join_digits _ _ = failure hex_error

-- The loop over the pairs of digits.
pub read_pairs : Bytes → Result Bytes
unfolding hex_value join_digits
read_pairs [] = success []
read_pairs (high ∷ []) = success []
read_pairs (high ∷ (low ∷ rest)) = do
  b ← join_digits (hex_value high) (hex_value low)
  bytes ← read_pairs rest
  success (b ∷ bytes)

pub from_hex : Bytes → Result Bytes
unfolding read_pairs
from_hex text =
    if length text /= 64
    then failure (
        make_error ErrorCode.parse_error
          "a SHA-256 digest must contain exactly 64 hexadecimal digits")
    else read_pairs text
