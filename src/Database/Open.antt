-- ===== src/Database/Open.antt =====
-- `tile_index_hash`, `database_content_hash`, `DatabaseState` and `parse_database` of
-- src/core/database.cpp.
use lunar_terrain_builder.Base.{
  ℕ, String, not, Option, none, some, List, [], ◌∷◌, length, subspan, bit_and, ◌+◌, ◌/=◌, u32,
  if◌then◌else◌,
}
use lunar_terrain_builder.Error.{ErrorCode, Result, success, failure, ◌>>=◌, ◌>>◌, fail_if}
use lunar_terrain_builder.ByteIo.{Bytes}
use lunar_terrain_builder.TileKey.Text.{codes, bytes_eq}
use lunar_terrain_builder.Integrity.{
  Openssl, DigestAccumulator, new_digest, update, update_u16, update_u32, update_u64, update_domain,
  finish,
}
use lunar_terrain_builder.Database.Bytes.{located}
use lunar_terrain_builder.Database.Header.{DatabaseHeader, parse_header}
use lunar_terrain_builder.Database.Chunks.{
  ChunkInfo, chunk_content_identity, parse_chunks, find_chunk,
}
use lunar_terrain_builder.Database.Registry.{Strings, parse_strings}
use lunar_terrain_builder.Database.Datasets.{validate_datasets}
use lunar_terrain_builder.Database.Packs.{PackInfo, parse_packs}
use lunar_terrain_builder.Database.Index.{TileIndexEntry, parse_tile_index}

pub record DatabaseState : Type 0 where
  pub manifest_path : String
  pub header : DatabaseHeader
  pub index : List TileIndexEntry
  pub packs : List PackInfo
  pub dataset_ids : List ℕ

-- The five chunks that `find_chunk` returns; `parse_chunks` has found each of them once.
pub record Found : Type 0 where
  pub dset : ChunkInfo
  pub meta : ChunkInfo
  pub pack : ChunkInfo
  pub strs : ChunkInfo
  pub tidx : ChunkInfo

pub all_found :
    Option ChunkInfo
    → Option ChunkInfo
    → Option ChunkInfo
    → Option ChunkInfo
    → Option ChunkInfo
    → Option Found
all_found (some dset) (some meta) (some pack) (some strs) (some tidx) =
    some (record { dset = dset; meta = meta; pack = pack; strs = strs; tidx = tidx })
all_found _ _ _ _ _ = none

pub find_all : List ChunkInfo → Option Found
unfolding all_found
find_all chunks =
    all_found (find_chunk chunks "DSET") (find_chunk chunks "META") (find_chunk chunks "PACK")
      (find_chunk chunks "STRS") (find_chunk chunks "TIDX")

module _ (o : Openssl) where
  pub tile_index_hash : ChunkInfo → Result Bytes
  tile_index_hash tidx = finish o (
      update o tidx.bytes (
        update_u64 o (length tidx.bytes)
          (update_domain o (codes "LTDB_TILE_INDEX_V1") (new_digest o))))

  pub identity_count : List ChunkInfo → ℕ
  identity_count [] = 0
  identity_count (c ∷ rest) =
      (if bit_and c.flags chunk_content_identity /= 0 then 1 else 0) + identity_count rest

  pub hash_chunks : List ChunkInfo → DigestAccumulator o → DigestAccumulator o
  hash_chunks [] hash = hash
  hash_chunks (c ∷ rest) hash = hash_chunks rest (
      if bit_and c.flags chunk_content_identity /= 0
      then update o c.bytes (
          update_u64 o c.logical_bytes
            (update_u16 o c.flags (update_u16 o c.version (update o c.tag hash))))
      else hash)

  pub hash_packs : List PackInfo → DigestAccumulator o → DigestAccumulator o
  hash_packs [] hash = hash
  hash_packs (p ∷ rest) hash = hash_packs rest (update o p.hash (update_u32 o p.id hash))

  pub database_content_hash : List ChunkInfo → DatabaseHeader → List PackInfo → Result Bytes
  unfolding identity_count hash_chunks hash_packs
  database_content_hash chunks header packs =
      let start : DigestAccumulator o = update o header.builder_configuration_hash (
        update_u16 o header.minor_version (
          update_u16 o header.major_version
            (update_domain o (codes "LTDB_DATABASE_CONTENT_V1") (new_digest o)))) in
      let chunks_hash : DigestAccumulator o =
        hash_chunks chunks (update_u32 o (u32 (identity_count chunks)) start) in
      finish o (hash_packs packs (update_u32 o (u32 (length packs)) chunks_hash))

  pub database_id_hash : DatabaseHeader → Result Bytes
  database_id_hash header = finish o (
      update o header.dataset_registry_hash (
        update o header.builder_configuration_hash
          (update_domain o (codes "LTDB_DATABASE_ID_V1") (new_digest o))))

  -- `parse_database` behind the string table.
  pub parse_registries :
      String → DatabaseHeader → List ChunkInfo → Found → Strings → Result DatabaseState
  unfolding tile_index_hash database_content_hash database_id_hash
  parse_registries path header chunks found strings = do
    registry ← validate_datasets o found.dset found.meta strings header path
    fail_if (not (bytes_eq registry.0 header.dataset_registry_hash)) (
        located ErrorCode.hash_mismatch "LTDB dataset-registry hash does not match" path (some 128))
    packs ← parse_packs found.pack strings header path
    index ← parse_tile_index found.tidx header packs registry.1 path
    computed_index_hash ← tile_index_hash found.tidx
    fail_if (not (bytes_eq computed_index_hash header.tile_index_hash))
        (located ErrorCode.hash_mismatch "LTDB tile-index hash does not match" path (some 160))
    computed_content_hash ← database_content_hash chunks header packs
    fail_if (not (bytes_eq computed_content_hash header.database_content_hash)) (
        located ErrorCode.hash_mismatch "LTDB database-content hash does not match" path (some 192))
    computed_database_id ← database_id_hash header
    fail_if (not (bytes_eq header.database_id (subspan computed_database_id 0 16))) (
        located ErrorCode.hash_mismatch "LTDB deterministic database ID does not match" path
          (some 32))
    success (record {
      manifest_path = path;
      header = header;
      index = index;
      packs = packs;
      dataset_ids = registry.1;
    })

  parse_found :
      String → DatabaseHeader → List ChunkInfo → Option Found → Option (Result DatabaseState)
  unfolding parse_registries
  parse_found path header chunks none = none
  parse_found path header chunks (some found) = elim (parse_strings found.strs path) [
    | none ↦ none
    | some strings ↦ some (strings >>= parse_registries path header chunks found)
  ]

  -- `none` is fuel that runs out in the string table, or a chunk that is not there.
  pub parse_database : String → Bytes → Option (Result DatabaseState)
  unfolding parse_found find_all
  parse_database path file = elim (parse_header file path) [
    | failure e ↦ some (failure e)
    | success parsed ↦ elim (parse_chunks file parsed path) [
      | failure e ↦ some (failure e)
      | success chunks ↦ parse_found path parsed.header chunks (find_all chunks)
    ]
  ]

  -- `LunarTerrainDatabase::Open`, with the read of a file as a parameter
  pub open_database : (String → Result Bytes) → String → Option (Result DatabaseState)
  unfolding parse_database
  open_database read_file path = elim (read_file path) [
    | failure e ↦ some (failure e)
    | success file ↦ parse_database path file
  ]
