-- ===== src/Tests/Databases.antt =====
-- A lookup in an index of two tiles, and a string table that holds only the empty string.
use lunar_terrain_builder.Base.{ℕ, ◌≡◌, ◌↔◌, arith, some, [], ◌∷◌}
use lunar_terrain_builder.Database.Header.{header_fields}
use lunar_terrain_builder.Database.Index.{TileIndexEntry, entry_fields}
use lunar_terrain_builder.Database.Index.Order.{IsIndex}
use lunar_terrain_builder.Database.Open.{DatabaseState}
use lunar_terrain_builder.Error.{Result}
use lunar_terrain_builder.Database.Chunks.{ChunkInfo}
use lunar_terrain_builder.Database.Registry.{Strings, parse_strings}
use lunar_terrain_builder.Database.Registry.Returns.{parse_strings-returns}
use lunar_terrain_builder.Database.Query.{find_tile}
use lunar_terrain_builder.Database.Query.Find.{Holds, find_tile_iff}

abbrev entry : ℕ → TileIndexEntry
entry encoded = entry_fields (record { encoded = encoded }) []

abbrev two_tiles : DatabaseState
two_tiles = record {
  manifest_path = "moon.ltdb";
  header = header_fields [];
  index =
      record (entry 0) { key = record { encoded = 0 } }
      ∷ record (entry 5) { key = record { encoded = 5 } }
      ∷ [];
  packs = [];
  dataset_ids = [];
}

two_tiles-IsIndex : IsIndex two_tiles.index
unfolding IsIndex
two_tiles-IsIndex = ((omega arith, tt), (tt, tt))

find_tile_example :
    (find_tile two_tiles (record { encoded = 5 })
      ≡ some (record (entry 5) { key = record { encoded = 5 } }))
    ↔ (Holds two_tiles.index (record (entry 5) { key = record { encoded = 5 } })
        × ((record (entry 5) { key = record { encoded = 5 } }).key ≡ record { encoded = 5 }))
find_tile_example =
    find_tile_iff two_tiles (record { encoded = 5 })
      (record (entry 5) { key = record { encoded = 5 } }) two_tiles-IsIndex

abbrev strings_chunk : ChunkInfo
strings_chunk = record {
  tag = [];
  version = 1;
  flags = 3;
  offset = 256;
  stored_bytes = 4;
  logical_bytes = 4;
  bytes = 0 ∷ 0 ∷ 0 ∷ 0 ∷ [];
}

parse_strings_example : (r : Result Strings) × (parse_strings strings_chunk "moon.ltdb" ≡ some r)
parse_strings_example = parse_strings-returns strings_chunk "moon.ltdb" (omega arith)
