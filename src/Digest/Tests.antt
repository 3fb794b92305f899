-- ===== src/Digest/Tests.antt =====
-- A digest whose bytes are all 0xAB.
use lunar_terrain_builder.Base.{◌≡◌, refl, arith, ◌∷◌, map, length, replicate, All, IsByte}
use lunar_terrain_builder.Error.{ErrorCode, success, FailsWith}
use lunar_terrain_builder.ByteIo.{Bytes}
use lunar_terrain_builder.Digest.{to_hex, from_hex}
use lunar_terrain_builder.Digest.RoundTrip.{lower, from_hex-to_hex, from_hex-eq-success}

abbrev digest : Bytes
digest = replicate 32 0xAB

from_hex-to_hex_example : from_hex (to_hex digest) ≡ success digest
from_hex-to_hex_example = from_hex-to_hex digest refl (omega arith)

abbrev ones : Bytes
ones = replicate 32 0xFF

abbrev upper_text : Bytes
upper_text = replicate 64 b'F'

upper_text_reads : from_hex upper_text ≡ success ones
unfolding from_hex
upper_text_reads = refl

from_hex-eq-success_example :
    (length upper_text ≡ 64)
    × (length ones ≡ 32)
    × All IsByte ones
    × (to_hex ones ≡ map lower upper_text)
from_hex-eq-success_example = from_hex-eq-success upper_text ones upper_text_reads

-- A character that is no digit, and a text that is too short.
from_hex_refused : FailsWith ErrorCode.parse_error (from_hex (b'g' ∷ replicate 63 b'0'))
unfolding from_hex
from_hex_refused = refl
