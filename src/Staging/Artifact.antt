-- ===== src/Staging/Artifact.antt =====
-- The files of src/builder/tile_staging.cpp that keep the samples of a tile: `serialize_staged_core`
-- and, behind the read of the file, `load_staged_elevation_tile`. A sample is the bits of its `double`.
pub mod Parts
pub mod RoundTrip
use lunar_terrain_builder.Base.{
  ℕ, zero, suc, ◌+◌, ◌*◌, ◌/◌, ◌^◌, String, Bool, true, false, not, ◌||◌, Option, some, none, List,
  [], ◌∷◌, ◌++◌, length, drop, subspan, ltb, ◌/=◌, if◌then◌else◌, u8, u32,
}
use lunar_terrain_builder.Base.Loops.{for_up}
use lunar_terrain_builder.Error.{ErrorCode, Result, success, failure, ◌>>=◌, ◌>>◌, fail_if}
use lunar_terrain_builder.ByteIo.{Bytes, join_u16, join_bytes}
use lunar_terrain_builder.TileKey.{LunarTileKey, from_encoded}
use lunar_terrain_builder.TileKey.Text.{codes, bytes_eq}
use lunar_terrain_builder.Database.Bytes.{is_finite}
use lunar_terrain_builder.Staging.Corners.{core_sample_count, StagedElevationTile, staging_error}

-- `append_u16`, `append_u32` and `append_u64` of the source
pub push_u16 : Bytes → ℕ → Bytes
push_u16 bytes value = (bytes ++ u8 value ∷ []) ++ u8 (value / 2 ^ 8) ∷ []

abbrev push_le : ℕ → Bytes → ℕ → Bytes
push_le count bytes value = for_up count (λ byte b. b ++ u8 (value / 2 ^ (byte * 8)) ∷ []) bytes

pub push_u32 : Bytes → ℕ → Bytes
push_u32 bytes value = push_le 4 bytes value

pub push_u64 : Bytes → ℕ → Bytes
push_u64 bytes value = push_le 8 bytes value

pub push_samples : Bytes → List ℕ → Bytes
unfolding push_u64
push_samples bytes [] = bytes
push_samples bytes (sample ∷ samples) = push_samples (push_u64 bytes sample) samples

pub serialize_staged_core : LunarTileKey → Bytes → List ℕ → Bytes
unfolding push_u16 push_u32 push_u64 push_samples
serialize_staged_core key dependency_hash samples =
    let header = push_u64 (push_u16 (push_u16 (codes "LTSC") 1) 0) key.encoded in
    push_samples (push_u32 (header ++ dependency_hash) (u32 (length samples))) samples

-- `bytes[offset + index]` is the byte at `index` behind the first `offset` bytes.
pub read_u16 : Bytes → ℕ → ℕ
read_u16 bytes offset = join_u16 (drop offset bytes)

pub read_u32 : Bytes → ℕ → ℕ
read_u32 bytes offset = join_bytes 32 4 (drop offset bytes)

pub read_u64 : Bytes → ℕ → ℕ
read_u64 bytes offset = join_bytes 64 8 (drop offset bytes)

abbrev pub header_bytes : ℕ
header_bytes = 52

pub bad_header : Bytes → Bool
unfolding read_u16
bad_header bytes =
    ltb (length bytes) header_bytes
    || not (bytes_eq (subspan bytes 0 4) (codes "LTSC"))
    || read_u16 bytes 4 /= 1
    || read_u16 bytes 6 /= 0

-- `!stored_key || stored_key.value() != expected_key`
pub other_key : Result LunarTileKey → LunarTileKey → Bool
other_key (failure e) expected_key = true
other_key (success stored) expected_key = stored.encoded /= expected_key.encoded

pub other_identity : Bytes → LunarTileKey → Bytes → Bool
unfolding other_key read_u64
other_identity bytes expected_key expected_hash =
    other_key (from_encoded (read_u64 bytes 8)) expected_key
    || not (bytes_eq (subspan bytes 16 (length expected_hash)) expected_hash)

pub bad_payload : Bytes → Bool
unfolding read_u32
bad_payload bytes =
    read_u32 bytes 48 /= core_sample_count || length bytes /= header_bytes + read_u32 bytes 48 * 8

module _ (bytes : Bytes) (path : String) (expected_key : LunarTileKey) where
  pub load_samples : ℕ → ℕ → Result (List ℕ)
  unfolding read_u64 staging_error
  load_samples zero index = success []
  load_samples (suc count) index = do
    fail_if (not (is_finite (read_u64 bytes (header_bytes + index * 8)))) (
        staging_error ErrorCode.invalid_format "staging artifact contains a non-finite elevation"
          (some path) expected_key)
    rest ← load_samples count (suc index)
    success (read_u64 bytes (header_bytes + index * 8) ∷ rest)

  -- `load_staged_elevation_tile` on the bytes of the file
  pub load_staged : Bytes → Result (StagedElevationTile ℕ)
  unfolding bad_header other_identity bad_payload load_samples staging_error
  load_staged expected_hash = do
    fail_if (bad_header bytes) (
        staging_error ErrorCode.invalid_format "staging artifact header is invalid" (some path)
          expected_key)
    fail_if (other_identity bytes expected_key expected_hash) (
        staging_error ErrorCode.hash_mismatch
          "staging artifact identity does not match the requested dependency" (some path)
          expected_key)
    fail_if (bad_payload bytes) (
        staging_error ErrorCode.invalid_format "staging artifact sample payload is invalid"
          (some path) expected_key)
    samples ← load_samples (read_u32 bytes 48) 0
    success (record {
      key = expected_key;
      dependency_hash = expected_hash;
      core_samples = samples;
      artifact_path = path;
    })
