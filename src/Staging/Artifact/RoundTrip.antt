-- ===== src/Staging/Artifact/RoundTrip.antt =====
-- `load_staged` on the bytes of `serialize_staged_core`.
use lunar_terrain_builder.Base.{
  ℕ, ◌+◌, ◌*◌, ◌≡◌, refl, arith, String, false, List, length, All, IsByte, ◌/=◌,
}
use lunar_terrain_builder.Error.{success}
use lunar_terrain_builder.ByteIo.{Bytes}
use lunar_terrain_builder.TileKey.{LunarTileKey}
use lunar_terrain_builder.TileKey.Text.Equality.{bytes_eq_refl}
use lunar_terrain_builder.TileKey.Layout.{IsKey}
use lunar_terrain_builder.TileKey.Create.{from_encoded-IsKey}
use lunar_terrain_builder.Staging.Corners.{core_sample_count}
use lunar_terrain_builder.Staging.Artifact.{
  serialize_staged_core, header_bytes, other_key, other_identity, bad_payload, load_staged,
}
use lunar_terrain_builder.Staging.Artifact.Parts.{
  artifact, IsSample, serialize_staged_core-artifact, key_at, hash_at, count_at, artifact_size,
  header_at, samples_at,
}

same→not_differ : (a b : ℕ) → a ≡ b → (a /= b) ≡ false
same→not_differ a b e = ground arith

-- For a well-formed key, a hash of 32 bytes and 257 × 257 finite samples, `load_staged` on the bytes
-- of `serialize_staged_core` succeeds, for the same key and hash, with these samples.
pub load_staged-serialize_staged_core :
    (key : LunarTileKey) (path : String) (hash : Bytes) (samples : List ℕ)
    → IsKey key
    → length hash ≡ 32
    → All IsByte hash
    → length samples ≡ core_sample_count
    → All IsSample samples
    → load_staged (serialize_staged_core key hash samples) path key hash
      ≡ success (record {
        key = key;
        dependency_hash = hash;
        core_samples = samples;
        artifact_path = path;
      })
unfolding load_staged bad_payload other_identity other_key
load_staged-serialize_staged_core key path hash samples valid digest bytes count finite =
    let b = artifact key hash samples in
    let size = artifact_size key hash samples digest in
    let n = count_at key hash samples digest (omega (arith, count)) in
    let payload : bad_payload b ≡ false =
      rw
        (
          n,
          same→not_differ (length samples) core_sample_count count,
          same→not_differ (length b) (header_bytes + length samples * 8) size,
        )
        refl in
    let identity : other_identity b key hash ≡ false =
      rw
        (
          key_at key hash samples digest bytes valid.fits,
          from_encoded-IsKey key valid,
          hash_at key hash samples digest,
          bytes_eq_refl hash,
          same→not_differ key.encoded key.encoded refl,
        )
        refl in
    rw (serialize_staged_core-artifact key hash samples (omega (arith, count))) (
      rw
        (
          header_at key hash samples digest,
          identity,
          payload,
          n,
          samples_at key hash samples digest path finite,
        )
        refl)
