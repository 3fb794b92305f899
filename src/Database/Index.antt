-- ===== src/Database/Index.antt =====
-- The tile index: `TileIndexEntry` of include/lunar/terrain/tile.hpp, and `parse_tile_index` of
-- src/core/database.cpp.
pub mod Order
pub mod Tests
use lunar_terrain_builder.Base.{
  ℕ, ◌+◌, ◌*◌, ◌/◌, ◌%◌, bit_and, String, Bool, true, false, not, ◌||◌, Option, none, some, List,
  [], ◌∷◌, ◌++◌, length, subspan, ltb, leb, ◌==◌, ◌/=◌, u64, u64_max, if◌then◌else◌,
}
use lunar_terrain_builder.Error.{ErrorCode, Error, Result, success, failure, ◌>>=◌, ◌>>◌, fail_if}
use lunar_terrain_builder.Error.Loops.{try_up}
use lunar_terrain_builder.ByteIo.{Bytes}
use lunar_terrain_builder.TileKey.{LunarTileKey, level, from_encoded}
use lunar_terrain_builder.Database.Bytes.{
  located, read_u8, read_u16, read_u32, read_u64, range_fits,
}
use lunar_terrain_builder.Database.Header.{DatabaseHeader}
use lunar_terrain_builder.Database.Chunks.{ChunkInfo}
use lunar_terrain_builder.Database.Packs.{PackInfo, pack_header, find_pack}

pub record TileIndexEntry : Type 0 where
  pub key : LunarTileKey
  pub pack_id : ℕ
  pub flags : ℕ
  pub payload_offset : ℕ
  pub stored_bytes : ℕ
  pub logical_channel_bytes : ℕ
  pub minimum_elevation_code : ℕ
  pub maximum_elevation_code : ℕ
  pub primary_dataset : ℕ
  pub effective_resolution_millimeters : ℕ
  pub geometric_error_millimeters : ℕ
  pub materialized_child_mask : ℕ
  pub channel_count : ℕ
  pub payload_crc32c : ℕ
  pub content_hash_prefix : Bytes
  pub dependency_hash_prefix : Bytes

abbrev pub tile_index_record : ℕ
tile_index_record = 80

-- The record's fields, at the offsets of `tile_index_offset`.
pub entry_fields : LunarTileKey → Bytes → TileIndexEntry
entry_fields key entry = record {
  key = key;
  pack_id = read_u32 entry 8;
  flags = read_u32 entry 12;
  payload_offset = read_u64 entry 16;
  stored_bytes = read_u32 entry 24;
  logical_channel_bytes = read_u32 entry 28;
  minimum_elevation_code = read_u16 entry 32;
  maximum_elevation_code = read_u16 entry 34;
  primary_dataset = read_u32 entry 36;
  effective_resolution_millimeters = read_u32 entry 40;
  geometric_error_millimeters = read_u32 entry 44;
  materialized_child_mask = read_u8 entry 48;
  channel_count = read_u8 entry 49;
  payload_crc32c = read_u32 entry 52;
  content_hash_prefix = subspan entry 56 16;
  dependency_hash_prefix = subspan entry 72 8;
}

-- `!entries.empty() && key <= entries.back().key`
pub key_out_of_order : List TileIndexEntry → LunarTileKey → Bool
key_out_of_order [] key = false
key_out_of_order (previous ∷ []) key = leb key.encoded previous.key.encoded
key_out_of_order (previous ∷ (next ∷ rest)) key = key_out_of_order (next ∷ rest) key

unfoldable pub mem : ℕ → List ℕ → Bool
mem id [] = false
mem id (n ∷ rest) = n == id || mem id rest

-- The last test of the loop.
pub entry_ok : DatabaseHeader → List ℕ → Option PackInfo → TileIndexEntry → Bool
unfolding mem
entry_ok header datasets none entry = false
entry_ok header datasets (some pack) entry = not (
    ltb entry.payload_offset pack_header
    || entry.payload_offset % 8 /= 0
    || entry.stored_bytes == 0
    || not (range_fits entry.payload_offset entry.stored_bytes pack.file_bytes)
    || ltb entry.maximum_elevation_code entry.minimum_elevation_code
    || entry.channel_count == 0
    || not (mem entry.primary_dataset datasets)
    || ltb header.maximum_level (level entry.key))

unsorted_error : ChunkInfo → String → ℕ → Error
unsorted_error tidx path record_offset =
    located ErrorCode.invalid_format "TIDX tile keys are invalid, duplicated, or unsorted" path
      (some (tidx.offset + record_offset))

-- One round of the loop over the records.
pub scan_entry :
    ChunkInfo
    → DatabaseHeader
    → List PackInfo
    → List ℕ
    → String
    → ℕ
    → List TileIndexEntry
    → Result (List TileIndexEntry)
unfolding key_out_of_order unsorted_error entry_fields entry_ok
scan_entry tidx header packs datasets path index entries =
    let record_offset = index * tile_index_record in
    let bytes = subspan tidx.bytes record_offset tile_index_record in
    elim (from_encoded (read_u64 bytes 0)) [
      | failure e ↦ failure (unsorted_error tidx path record_offset)
      | success key ↦
          fail_if (key_out_of_order entries key) (unsorted_error tidx path record_offset)
          >> (fail_if
                (bit_and (read_u32 bytes 12) 0xFFFFFFFC /= 0
                  || bit_and (read_u8 bytes 48) 0xF0 /= 0
                  || read_u16 bytes 50 /= 0)
                (located ErrorCode.unsupported_feature
                  "TIDX flags, child mask, or reserved bytes are invalid" path
                  (some (tidx.offset + record_offset + 12)))
              >> (fail_if
                    (not (
                      entry_ok header datasets (find_pack packs (entry_fields key bytes).pack_id)
                        (entry_fields key bytes)))
                    (located ErrorCode.invalid_format "TIDX record fields or pack range are invalid"
                      path (some (tidx.offset + record_offset)))
                  >> success (entries ++ entry_fields key bytes ∷ [])))
    ]

unfoldable pub entries_of : ℕ → List TileIndexEntry → List TileIndexEntry
entries_of id [] = []
entries_of id (e ∷ rest) = if e.pack_id == id then e ∷ entries_of id rest else entries_of id rest

-- `size() != pack.tile_count || empty() || front().key != first_key || back().key != last_key`
pub bounds_disagree : PackInfo → List TileIndexEntry → Bool
bounds_disagree pack [] = true
bounds_disagree pack (e ∷ rest) =
    length (e ∷ rest) /= pack.tile_count
    || e.key.encoded /= pack.first_key.encoded
    || last_key (e ∷ rest) /= pack.last_key.encoded
  where
    last_key : List TileIndexEntry → ℕ
    last_key [] = 0
    last_key (e ∷ []) = e.key.encoded
    last_key (e ∷ (f ∷ rest)) = last_key (f ∷ rest)

-- `std::ranges::sort` by the payload's offset
pub insert_by_payload : TileIndexEntry → List TileIndexEntry → List TileIndexEntry
insert_by_payload e [] = e ∷ []
insert_by_payload e (f ∷ rest) =
    if ltb f.payload_offset e.payload_offset then f ∷ insert_by_payload e rest else e ∷ (f ∷ rest)

pub sort_by_payload : List TileIndexEntry → List TileIndexEntry
unfolding insert_by_payload
sort_by_payload [] = []
sort_by_payload (e ∷ rest) = insert_by_payload e (sort_by_payload rest)

pub check_payloads : String → ℕ → List TileIndexEntry → Result (Unit {0})
check_payloads path previous_end [] = success tt
check_payloads path previous_end (e ∷ rest) =
    fail_if (ltb e.payload_offset previous_end)
      (located ErrorCode.invalid_format "TIDX payload ranges overlap" path none)
    >> check_payloads path (u64 (e.payload_offset + e.stored_bytes)) rest

pub check_packs : String → List TileIndexEntry → List PackInfo → Result (Unit {0})
unfolding entries_of bounds_disagree sort_by_payload check_payloads
check_packs path entries [] = success tt
check_packs path entries (p ∷ rest) =
    fail_if (bounds_disagree p (entries_of p.id entries))
      (located ErrorCode.invalid_format "PACK registry tile bounds disagree with TIDX" path none)
    >> (check_payloads path pack_header (sort_by_payload (entries_of p.id entries))
        >> check_packs path entries rest)

pub parse_tile_index :
    ChunkInfo → DatabaseHeader → List PackInfo → List ℕ → String → Result (List TileIndexEntry)
unfolding scan_entry check_packs
parse_tile_index tidx header packs datasets path = do
  fail_if
      (length tidx.bytes % tile_index_record /= 0
        || length tidx.bytes / tile_index_record /= header.tile_count
        || ltb u64_max header.tile_count)
      (located ErrorCode.invalid_format "TIDX byte count disagrees with the header" path
        (some tidx.offset))
  entries ← try_up header.tile_count (scan_entry tidx header packs datasets path) []
  check_packs path entries packs
  success entries
