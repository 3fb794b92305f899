-- ===== src/Database/Index/Tests.antt =====
-- A tile index of two records, for one pack of two tiles of eight bytes.
use lunar_terrain_builder.Base.{ℕ, ◌+◌, ◌^◌, ◌≡◌, refl, List, [], ◌∷◌, ◌++◌, replicate}
use lunar_terrain_builder.Error.{success}
use lunar_terrain_builder.ByteIo.{Bytes}
use lunar_terrain_builder.TileKey.{level, from_encoded}
use lunar_terrain_builder.Database.Bytes.{read_u8, read_u16, read_u32, read_u64, range_fits}
use lunar_terrain_builder.Database.Header.{DatabaseHeader, header_fields}
use lunar_terrain_builder.Database.Chunks.{ChunkInfo}
use lunar_terrain_builder.Database.Packs.{PackInfo, find_pack}
use lunar_terrain_builder.Database.Index.{
  TileIndexEntry, entry_fields, key_out_of_order, mem, entry_ok, scan_entry, entries_of,
  bounds_disagree, insert_by_payload, sort_by_payload, check_payloads, check_packs,
  parse_tile_index,
}
use lunar_terrain_builder.Database.Index.Order.{IsIndex, parse_tile_index-IsIndex}

-- A record of the tile with the Morton code `code` on level 1, and its payload's place.
abbrev index_record : ℕ → ℕ → Bytes
index_record code offset =
    code ∷ 0 ∷ 0 ∷ 0 ∷ 0 ∷ 0 ∷ 0 ∷ 1 ∷ 7 ∷ 0 ∷ 0 ∷ 0 ∷ 0 ∷ 0 ∷ 0 ∷ 0 ∷ offset ∷ 0 ∷ 0 ∷ 0 ∷ 0 ∷ 0
      ∷ 0 ∷ 0 ∷ 8 ∷ []
    ++ replicate 24 0
    ++ 1 ∷ []
    ++ replicate 30 0

abbrev two_records : ChunkInfo
two_records = record {
  tag = [];
  version = 1;
  flags = 3;
  offset = 256;
  stored_bytes = 160;
  logical_bytes = 160;
  bytes = index_record 1 64 ++ index_record 3 72;
}

abbrev one_pack : PackInfo
one_pack = record {
  id = 7;
  relative_path = b'a' ∷ [];
  default_codec = 0;
  tile_count = 2;
  file_bytes = 80;
  first_key = record { encoded = 2 ^ 56 + 1 };
  last_key = record { encoded = 2 ^ 56 + 3 };
  hash = [];
}

abbrev two_tile_header : DatabaseHeader
two_tile_header = record (header_fields []) { tile_count = 2; maximum_level = 3 }

abbrev two_entries : List TileIndexEntry
two_entries =
    entry_fields (record { encoded = 2 ^ 56 + 1 }) (index_record 1 64)
    ∷ entry_fields (record { encoded = 2 ^ 56 + 3 }) (index_record 3 72)
    ∷ []

two_records_run :
    parse_tile_index two_records two_tile_header (one_pack ∷ []) (0 ∷ []) "moon.ltdb"
    ≡ success two_entries
unfolding parse_tile_index scan_entry key_out_of_order entry_fields entry_ok mem check_packs
    entries_of bounds_disagree sort_by_payload insert_by_payload check_payloads find_pack
    from_encoded level read_u8 read_u16 read_u32 read_u64 range_fits
two_records_run = refl

parse_tile_index_example : IsIndex two_entries
parse_tile_index_example =
    parse_tile_index-IsIndex two_records two_tile_header (one_pack ∷ []) (0 ∷ []) "moon.ltdb"
      two_entries two_records_run
