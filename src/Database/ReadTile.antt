-- ===== src/Database/ReadTile.antt =====
-- `read_tile` and `LunarTerrainDatabase::ReadTile` of src/core/database.cpp. Reading a file, and the
-- path of a pack beside the manifest, are parameters.
pub mod Layout
pub mod Tests
use lunar_terrain_builder.Base.{
  ℕ, ◌+◌, ◌-◌, String, Bool, not, ◌||◌, Option, none, some, List, [], ◌∷◌, length, take, drop,
  subspan, replicate, ltb, ◌==◌, ◌/=◌, if◌then◌else◌,
}
use lunar_terrain_builder.Error.{
  ErrorCode, Error, make_error, with_path, with_tile_key, Result, success, failure, ◌>>=◌, ◌>>◌,
  fail_if,
}
use lunar_terrain_builder.ByteIo.{Bytes}
use lunar_terrain_builder.TileKey.{LunarTileKey}
use lunar_terrain_builder.TileKey.Text.{bytes_eq}
use lunar_terrain_builder.Zstandard.{Zstd}
use lunar_terrain_builder.Integrity.{Openssl, new_digest, update, finish, crc32c}
use lunar_terrain_builder.Database.Bytes.{
  located, read_u16, read_u32, read_u64, range_fits, all_zero, magic_is, digest_prefix_matches,
}
use lunar_terrain_builder.Database.Header.{endian_tag, major_supported}
use lunar_terrain_builder.Database.Packs.{PackInfo, pack_header, find_pack}
use lunar_terrain_builder.Database.Index.{TileIndexEntry}
use lunar_terrain_builder.Database.Open.{DatabaseState}
use lunar_terrain_builder.Database.Query.{find_tile}
use lunar_terrain_builder.Database.Floats.{Doubles}
use lunar_terrain_builder.Database.Tiles.{DecodedTerrainTile, decode_tile}

-- The test of the pack's header against the registry.
pub pack_header_ok : Bytes → PackInfo → Bool
pack_header_ok bytes pack = not (
    read_u32 bytes 8 /= pack_header
    || read_u32 bytes 12 /= endian_tag
    || read_u32 bytes 16 /= pack.id
    || read_u32 bytes 20 /= 0
    || read_u64 bytes 24 /= pack.tile_count
    || read_u64 bytes 32 /= pack_header
    || read_u64 bytes 40 /= length bytes
    || length bytes /= pack.file_bytes)

-- The loop over the index: the payloads of the pack, one behind the other, with zeroes between. It
-- returns the end of the last one.
pub check_layout : Bytes → ℕ → String → ℕ → List TileIndexEntry → Result ℕ
unfolding range_fits
check_layout bytes pack_id path previous_end [] = success previous_end
check_layout bytes pack_id path previous_end (e ∷ rest) =
    if e.pack_id == pack_id
    then fail_if
        (ltb e.payload_offset previous_end
          || not (range_fits e.payload_offset e.stored_bytes (length bytes))
          || not (all_zero (subspan bytes previous_end (e.payload_offset - previous_end))))
        (located ErrorCode.invalid_format "LTP payload ranges or alignment bytes are invalid" path
          (some previous_end))
      >> check_layout bytes pack_id path (e.payload_offset + e.stored_bytes) rest
    else check_layout bytes pack_id path previous_end rest

pub check_pack_header : Bytes → PackInfo → String → Result (Unit {0})
unfolding pack_header_ok
check_pack_header bytes pack path = do
  fail_if (ltb (length bytes) pack_header || not (magic_is bytes 0 "LTPK"))
      (located ErrorCode.invalid_format "LTP pack header is missing or invalid" path (some 0))
  fail_if (read_u16 bytes 4 /= major_supported)
      (located ErrorCode.unsupported_version "LTP major version is not supported" path (some 4))
  fail_if (not (pack_header_ok bytes pack)) (
      located ErrorCode.invalid_format "LTP header fields disagree with the PACK registry" path
        (some 8))

module _ (o : Openssl) where
  pub pack_hash : Bytes → Result Bytes
  pack_hash bytes = finish o (
      update o (drop pack_header bytes)
        (update o (replicate 16 0) (update o (take 48 bytes) (new_digest o))))

  pub check_pack_hash : Bytes → PackInfo → String → Result (Unit {0})
  unfolding pack_hash
  check_pack_hash bytes pack path = do
    computed ← pack_hash bytes
    fail_if
        (not (bytes_eq computed pack.hash)
          || not (digest_prefix_matches computed (subspan bytes 48 16)))
        (located ErrorCode.hash_mismatch "LTP full hash or stored hash prefix does not match" path
          (some 48))

  -- The tests of the whole pack file.
  pub check_pack : Bytes → PackInfo → List TileIndexEntry → String → Result (Unit {0})
  unfolding check_pack_hash check_pack_header check_layout
  check_pack bytes pack index path = do
    check_pack_header bytes pack path
    check_pack_hash bytes pack path
    previous_end ← check_layout bytes pack.id path pack_header index
    fail_if (previous_end /= length bytes) (
        located ErrorCode.invalid_format "LTP has trailing bytes outside its final tile payload"
          path (some previous_end))

-- The tests of the range and the checksum of the tile's payload.
pub check_payload : Bytes → TileIndexEntry → String → Result (Unit {0})
unfolding range_fits
check_payload bytes entry path = do
  fail_if (not (range_fits entry.payload_offset entry.stored_bytes (length bytes))) (
      located ErrorCode.truncated_data "TIDX tile payload range is outside its pack" path
        (some entry.payload_offset))
  fail_if (crc32c (subspan bytes entry.payload_offset entry.stored_bytes) /= entry.payload_crc32c) (
      with_tile_key
        (located ErrorCode.checksum_mismatch "LTIL payload CRC32C does not match TIDX" path
          (some entry.payload_offset))
        entry.key.encoded)

module _ (d : Doubles) (o : Openssl) (z : Zstd) (read_file : String → Result Bytes)
    (pack_path : String → Bytes → String) where
  -- `read_tile` behind the read of the pack file
  pub read_payload :
      Bytes → DatabaseState → PackInfo → TileIndexEntry → String → Result DecodedTerrainTile
  unfolding check_pack check_payload
  read_payload bytes state pack entry path = do
    check_pack o bytes pack state.index path
    check_payload bytes entry path
    decode_tile d o z (subspan bytes entry.payload_offset entry.stored_bytes) entry state.header
        path

  pub read_tile : DatabaseState → TileIndexEntry → Result DecodedTerrainTile
  unfolding find_pack read_payload
  read_tile state entry = elim (find_pack state.packs entry.pack_id) [
    | none ↦
        failure (
          located ErrorCode.invalid_format "TIDX references a missing pack" state.manifest_path
            none)
    | some pack ↦
        let path = pack_path state.manifest_path pack.relative_path in
        elim (read_file path) [
          | failure e ↦ failure (with_tile_key e entry.key.encoded)
          | success bytes ↦ read_payload bytes state pack entry path
        ]
  ]

  -- `ReadTile(key)`
  pub read_tile_at : DatabaseState → LunarTileKey → Result DecodedTerrainTile
  unfolding read_tile
  read_tile_at state key = elim (find_tile state key) [
    | none ↦ failure (
        with_tile_key
          (with_path
            (make_error ErrorCode.not_found "tile is not present in the sparse database index")
            state.manifest_path)
          key.encoded)
    | some entry ↦ read_tile state entry
  ]
