-- ===== src/Tests/Bytes.antt =====
-- The theorems on buffers and sample grids.
use lunar_terrain_builder.Base.{
  ℕ, zero, suc, ◌+◌, ◌*◌, ◌<◌, ◌≤◌, ◌^◌, ◌≡◌, ◌⊎◌, arith, [], ◌∷◌, ◌++◌, length, subspan, replicate,
  length-replicate, All, false,
}
use lunar_terrain_builder.Error.{success, has_value}
use lunar_terrain_builder.ByteIo.{Bytes, read_bytes}
use lunar_terrain_builder.ByteIo.Reader.{read_bytes_range}
use lunar_terrain_builder.ByteWriter.Laws.{w32, append_at, read_at, reader, read-append}
use lunar_terrain_builder.Codec.{
  reverse_delta2d_u16, serialized_elevation_samples, delta2d_u16, u16_samples_to_bytes,
}
use lunar_terrain_builder.Codec.RoundTrip.{delta2d_u16-reversed}

abbrev five : Bytes
five = 1 ∷ 2 ∷ 3 ∷ 4 ∷ 5 ∷ []

read_bytes_example :
    (read_bytes (reader five) 2 4 ≡ success (subspan five 2 4)) × (2 + 4 ≤ length five)
    ⊎ (has_value (read_bytes (reader five) 2 4) ≡ false) × (length five < 2 + 4)
read_bytes_example = read_bytes_range (reader five) 2 4 (omega arith) (omega arith) (omega arith)

read-append_example :
    read_at w32 (reader (append_at w32 five 70000 ++ five)) (length five) ≡ success 70000
read-append_example = read-append w32 five five 70000 (omega arith) (omega arith)

All-replicate : (n v : ℕ) → v < 2 ^ 16 → All (λ (u : ℕ). u < 2 ^ 16) (replicate n v)
All-replicate zero v h = tt
All-replicate (suc n) v h = (h, All-replicate n v h)

delta2d_u16_example :
    reverse_delta2d_u16
      (delta2d_u16 (replicate (259 * 259) 7))
      serialized_elevation_samples
      serialized_elevation_samples
    ≡ success (u16_samples_to_bytes (replicate (259 * 259) 7))
delta2d_u16_example =
    delta2d_u16-reversed (replicate (259 * 259) 7) (length-replicate {A = ℕ} (259 * 259) 7)
      (All-replicate (259 * 259) 7 (omega arith))
