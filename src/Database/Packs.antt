-- ===== src/Database/Packs.antt =====
-- The pack registry: `PackInfo`, `parse_packs` and `find_pack` of src/core/database.cpp.
use lunar_terrain_builder.Base.{
  ℕ, ◌+◌, ◌*◌, ◌/◌, ◌%◌, String, Bool, false, ◌||◌, Option, none, some, List, [], ◌∷◌, ◌++◌, length,
  subspan, ltb, leb, ◌==◌, ◌/=◌, if◌then◌else◌,
}
use lunar_terrain_builder.Error.{ErrorCode, Result, success, failure, ◌>>◌, fail_if}
use lunar_terrain_builder.Error.Loops.{try_up}
use lunar_terrain_builder.ByteIo.{Bytes}
use lunar_terrain_builder.TileKey.{LunarTileKey, face, level, from_encoded}
use lunar_terrain_builder.Database.Bytes.{located, read_u16, read_u32, read_u64, read_digest}
use lunar_terrain_builder.Database.Text.{portable_relative_path}
use lunar_terrain_builder.Database.Header.{DatabaseHeader}
use lunar_terrain_builder.Database.Chunks.{ChunkInfo}
use lunar_terrain_builder.Database.Registry.{Strings, find_string}

pub record PackInfo : Type 0 where
  pub id : ℕ
  pub relative_path : Bytes
  pub default_codec : ℕ
  pub tile_count : ℕ
  pub file_bytes : ℕ
  pub first_key : LunarTileKey
  pub last_key : LunarTileKey
  pub hash : Bytes

abbrev pub pack_record : ℕ
pack_record = 80

-- `format_v1::bytes::pack_header`
abbrev pub pack_header : ℕ
pack_header = 64

-- `!first && id <= previous_id`: the previous identifier is that of the last pack.
pub pack_out_of_order : List PackInfo → ℕ → Bool
pack_out_of_order [] id = false
pack_out_of_order (previous ∷ []) id = leb id previous.id
pack_out_of_order (previous ∷ (next ∷ rest)) id = pack_out_of_order (next ∷ rest) id

pub portable_path : Option Bytes → Option Bytes
portable_path none = none
portable_path (some text) = if portable_relative_path text then some text else none

-- The test of the range and of the bounds; a key that does not decode fails it too.
pub pack_bounds :
    ℕ → ℕ → Result LunarTileKey → Result LunarTileKey → Option (LunarTileKey × LunarTileKey)
pack_bounds tile_count file_bytes (failure e) last_key = none
pack_bounds tile_count file_bytes (success first_key) (failure e) = none
pack_bounds tile_count file_bytes (success first_key) (success last_key) =
    if tile_count == 0
      || ltb file_bytes pack_header
      || ltb last_key.encoded first_key.encoded
      || face first_key /= face last_key
      || level first_key /= level last_key
    then none
    else some (first_key, last_key)

-- One round of the loop over the records.
pub scan_pack : ChunkInfo → Strings → String → ℕ → List PackInfo → Result (List PackInfo)
unfolding pack_out_of_order portable_path pack_bounds
scan_pack pack_chunk strings path index packs =
    let record_offset = index * pack_record in
    let entry = subspan pack_chunk.bytes record_offset pack_record in
    let id = read_u32 entry 0 in
    let default_codec = read_u16 entry 12 in
    let tile_count = read_u64 entry 16 in
    let file_bytes = read_u64 entry 24 in
    fail_if (pack_out_of_order packs id || read_u32 entry 4 /= 0 || read_u16 entry 14 /= 0) (
      located ErrorCode.invalid_format "PACK IDs, flags, or reserved bytes are invalid" path
        (some (pack_chunk.offset + record_offset)))
    >> elim (portable_path (find_string (read_u32 entry 8) strings)) [
      | none ↦ failure (
          located ErrorCode.invalid_format "PACK path is not a portable relative STRS path" path
            (some (pack_chunk.offset + record_offset + 8)))
      | some text ↦
          fail_if (ltb 1 default_codec) (
            located ErrorCode.unsupported_feature "PACK default codec is not supported" path
              (some (pack_chunk.offset + record_offset + 12)))
          >> elim (pack_bounds tile_count file_bytes (from_encoded (read_u64 entry 32))
              (from_encoded (read_u64 entry 40))) [
                | none ↦ failure (
                    located ErrorCode.invalid_format "PACK range or tile-key bounds are invalid"
                      path (some (pack_chunk.offset + record_offset + 16)))
                | some (first_key, last_key) ↦ success (
                    packs
                    ++ record {
                      id = id;
                      relative_path = text;
                      default_codec = default_codec;
                      tile_count = tile_count;
                      file_bytes = file_bytes;
                      first_key = first_key;
                      last_key = last_key;
                      hash = read_digest entry 48;
                    }
                      ∷ [])
              ]
    ]

pub parse_packs : ChunkInfo → Strings → DatabaseHeader → String → Result (List PackInfo)
unfolding scan_pack
parse_packs pack_chunk strings header path = do
  fail_if
      (length pack_chunk.bytes % pack_record /= 0
        || length pack_chunk.bytes / pack_record /= header.pack_count)
      (located ErrorCode.invalid_format "PACK byte count disagrees with the header" path
        (some pack_chunk.offset))
  try_up header.pack_count (scan_pack pack_chunk strings path) []

-- `std::ranges::lower_bound` by the identifier, on packs in order of it, and the test of what it
-- finds: the first pack whose identifier is not less.
unfoldable pub find_pack : List PackInfo → ℕ → Option PackInfo
find_pack [] id = none
find_pack (p ∷ rest) id =
    if ltb p.id id then find_pack rest id else if p.id == id then some p else none
