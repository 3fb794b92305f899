-- ===== src/Codec.antt =====
-- The 2D delta predictor for u16 grids: `reverse_delta2d_u16` of src/core/codec.cpp, and the encoder
-- `delta2d_u16` of src/builder/container_writer.cpp that it undoes.
pub mod Packed
pub mod RoundTrip
use lunar_terrain_builder.Base.{
  ℕ, ◌+◌, ◌-◌, ◌*◌, ◌/◌, ◌%◌, ◌^◌, bit_and, ◌&&◌, ◌||◌, List, [], ◌∷◌, length, get_or, set,
  replicate, ltb, ◌==◌, ◌/=◌, if◌then◌else◌, u8, u16, u32, u64, u64_max,
}
use lunar_terrain_builder.Base.Loops.{for_up}
use lunar_terrain_builder.Error.{
  ErrorCode, make_error, Result, success, failure, ◌>>=◌, ◌>>◌, fail_if,
}
use lunar_terrain_builder.Error.Loops.{try_up}
use lunar_terrain_builder.ByteIo.{Bytes, LittleEndianReader, checked_multiply, read_u16}
use lunar_terrain_builder.ByteWriter.{append_u16}

-- The prediction from the samples to the west, the south and the south-west; `index` is the
-- sample's own.
unfoldable pub predicted : List ℕ → ℕ → ℕ → ℕ → ℕ → ℕ
predicted samples width y x index =
    if y == 0 && ltb 0 x
    then get_or samples (index - 1) 0
    else if x == 0 && ltb 0 y
    then get_or samples (index - width) 0
    else if ltb 0 x && ltb 0 y
    then u16 (
        u32 (
          u32 (get_or samples (index - 1) 0 + get_or samples (index - width) 0)
          + 2 ^ 32
          - get_or samples (index - width - 1) 0))
    else 0

-- One round of the decoder's inner loop.
unfoldable pub decode_sample : LittleEndianReader → ℕ → ℕ → ℕ → List ℕ → Result (List ℕ)
unfolding predicted
decode_sample reader width y x samples =
    let index = u64 (y * width + x) in
    do
      residual ← read_u16 reader (u64 (index * 2))
      success (set samples index (u16 (u32 (predicted samples width y x index + residual))))

-- `decoded[index * 2] = sample & 0xFF; decoded[index * 2 + 1] = sample >> 8`
abbrev pub store_sample : List ℕ → ℕ → Bytes → Bytes
store_sample samples i decoded =
    set (set decoded (i * 2) (u8 (bit_and (get_or samples i 0) 0xFF))) (i * 2 + 1)
      (u8 (get_or samples i 0 / 2 ^ 8))

unfoldable pub reverse_delta2d_u16 : Bytes → ℕ → ℕ → Result Bytes
reverse_delta2d_u16 residual_bytes width height = do
  fail_if (width == 0 || height == 0)
      (make_error ErrorCode.invalid_argument "Delta2D dimensions must be nonzero")
  sample_count ← checked_multiply width height
  required_bytes ← checked_multiply sample_count 2
  fail_if (required_bytes /= length residual_bytes || ltb u64_max required_bytes)
      (make_error ErrorCode.invalid_format "Delta2D byte count does not match its dimensions")
  let reader : LittleEndianReader = record { bytes = residual_bytes; base_offset = 0 }
  samples ←
      try_up height (λ y. try_up width (decode_sample reader width y)) (replicate sample_count 0)
  success (for_up (length samples) (store_sample samples) (replicate required_bytes 0))

-- `format_v1::serialized_elevation_samples`
abbrev pub serialized_elevation_samples : ℕ
serialized_elevation_samples = 259

-- `samples[index] - predicted`, computed in `int` and cut to 16 bits.
abbrev pub residual_of : List ℕ → ℕ → ℕ → ℕ → ℕ
residual_of samples width y x =
    let index = y * width + x in
    u16 (get_or samples index 0 + 2 ^ 16 - predicted samples width y x index)

pub delta2d_u16 : List ℕ → Bytes
unfolding predicted
delta2d_u16 samples =
    for_up serialized_elevation_samples
      (λ y. for_up serialized_elevation_samples (λ x residuals.
        append_u16 residuals (residual_of samples serialized_elevation_samples y x)))
      []

pub append_samples : Bytes → List ℕ → Bytes
append_samples bytes [] = bytes
append_samples bytes (s ∷ rest) = append_samples (append_u16 bytes s) rest

pub u16_samples_to_bytes : List ℕ → Bytes
unfolding append_samples
u16_samples_to_bytes samples = append_samples [] samples
