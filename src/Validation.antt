-- ===== src/Validation.antt =====
-- `validate_seams` and `validate_hierarchy` of src/builder/builder.cpp, on the tiles that
-- `read_all_tiles` has decoded. A pointer to a tile of the list is the tile.
pub mod Loops
pub mod Edges
pub mod Seams
pub mod Masks
pub mod Listed
pub mod Computed
pub mod Accepted
pub mod Required
mod Tests
use lunar_terrain_builder.Base.{
  ℕ, suc, ◌+◌, ◌-◌, ◌*◌, ◌/◌, ◌^◌, String, Bool, true, false, not, ◌&&◌, ◌||◌, Option, none, some,
  List, [], ◌∷◌, length, get_or, ltb, leb, ◌==◌, ◌/=◌, if◌then◌else◌, bit_or, u8, u16, u64,
}
use lunar_terrain_builder.Base.Loops.{for_up}
use lunar_terrain_builder.Base.Maps.{find, is_found, emplace_new}
use lunar_terrain_builder.Error.{
  ErrorCode, Error, make_error, with_path, with_tile_key, Result, success, failure, ◌>>=◌, ◌>>◌,
  fail_if,
}
use lunar_terrain_builder.Error.Loops.{try_up}
use lunar_terrain_builder.Execution.{Moments, check_execution}
use lunar_terrain_builder.ByteIo.{Bytes}
use lunar_terrain_builder.TileKey.{LunarTileKey, level, Children, children, parent}
use lunar_terrain_builder.TileKey.Family.{nth}
use lunar_terrain_builder.Topology.{QscEdge, QscTileNeighbor, qsc_tile_neighbor}
use lunar_terrain_builder.Codec.{serialized_elevation_samples}
use lunar_terrain_builder.Database.Index.{TileIndexEntry}
use lunar_terrain_builder.Database.Tiles.{DecodedChannel, DecodedTerrainTile}

abbrev pub core_vertices : ℕ
core_vertices = 257

-- `validation_error(message, path, key)`
pub validation_error : String → String → LunarTileKey → Error
validation_error message path key =
    with_tile_key (with_path (make_error ErrorCode.invalid_format message) path) key.encoded

-- The first channel with `ChannelId::elevation`.
pub find_elevation : List DecodedChannel → Option DecodedChannel
find_elevation [] = none
find_elevation (c ∷ rest) = if c.id == 0x0001 then some c else find_elevation rest

pub elevation_channel : DecodedTerrainTile → Option DecodedChannel
unfolding find_elevation
elevation_channel tile = find_elevation tile.channels

pub read_u16 : Bytes → ℕ → ℕ
read_u16 bytes sample_index =
    let offset = sample_index * 2 in
    u16 (bit_or (get_or bytes offset 0) (get_or bytes (offset + 1) 0 * 2 ^ 8))

pub serialized_edge_index : QscEdge → ℕ → ℕ
serialized_edge_index QscEdge.west parameter = (parameter + 1) * serialized_elevation_samples + 1
serialized_edge_index QscEdge.east parameter =
    (parameter + 1) * serialized_elevation_samples + core_vertices
serialized_edge_index QscEdge.south parameter = serialized_elevation_samples + (parameter + 1)
serialized_edge_index QscEdge.north parameter =
    core_vertices * serialized_elevation_samples + (parameter + 1)
serialized_edge_index (QscEdge.unnamed n) parameter = 0

abbrev pub TileList : Type 0
TileList = List (TileIndexEntry × DecodedTerrainTile)

abbrev pub TileMap : Type 0
TileMap = List (ℕ × DecodedTerrainTile)

abbrev pub EntryMap : Type 0
EntryMap = List (ℕ × TileIndexEntry)

-- The place of a sample on the neighbour's edge.
pub mapped : QscTileNeighbor → ℕ → ℕ
mapped n parameter = if n.reversed then u16 (core_vertices - 1 - parameter) else parameter

abbrev pub edges : List QscEdge
edges = QscEdge.west ∷ QscEdge.east ∷ QscEdge.south ∷ QscEdge.north ∷ []

-- The loop over the samples of an edge.
pub compare_samples :
    DecodedChannel → DecodedChannel → QscEdge → QscTileNeighbor → Error → Result (Unit {0})
unfolding mapped read_u16 serialized_edge_index
compare_samples source destination edge n error =
    try_up core_vertices
      (λ parameter s.
        fail_if
          (read_u16 source.bytes (serialized_edge_index edge parameter)
            /= read_u16 destination.bytes
                (serialized_edge_index n.touching_edge (mapped n parameter)))
          error)
      tt

module _ (path : String) (by_key : TileMap) (key : LunarTileKey) (source : DecodedChannel) where
  -- The tile behind the edge, where the list has it.
  pub compare_edge : QscEdge → QscTileNeighbor → Option DecodedChannel → ℕ → Result ℕ
  unfolding compare_samples validation_error
  compare_edge edge n none verified =
      failure (validation_error "neighbor tile omits the required elevation channel" path n.key)
  compare_edge edge n (some destination) verified =
      compare_samples source destination edge n
        (validation_error "same-level QSC edge samples are not byte-identical" path key)
      >> success (u64 (verified + 1))

  pub check_edge : ℕ → QscEdge → QscTileNeighbor → Result ℕ
  unfolding compare_edge elevation_channel
  check_edge verified edge n = elim (find by_key n.key.encoded) [
    | none ↦ success verified
    | some tile ↦
        if leb n.key.encoded key.encoded
        then success verified
        else compare_edge edge n (elevation_channel tile) verified
  ]

  pub check_edges : List QscEdge → ℕ → Result ℕ
  unfolding check_edge
  check_edges [] verified = success verified
  check_edges (edge ∷ rest) verified = do
    n ← qsc_tile_neighbor key edge
    more ← check_edge verified edge n
    check_edges rest more

-- `by_key.contains(key.encoded())`
abbrev pub has_key : EntryMap → LunarTileKey → Bool
has_key by_key key = is_found (find by_key key.encoded)

pub child_bits : (ℕ → Bool) → ℕ
child_bits present =
    for_up 4 (λ q mask. if present q then u8 (bit_or mask (u8 (2 ^ q))) else mask) 0

pub expected_mask : EntryMap → LunarTileKey → ℕ
unfolding child_bits
expected_mask by_key key = elim (children key) [
  | failure e ↦ 0
  | success c ↦ child_bits (λ q. has_key by_key (nth c q))
]

pub parent_present : EntryMap → LunarTileKey → Bool
parent_present by_key key = elim (parent key) [ none ↦ false | some p ↦ has_key by_key p ]

module _ (moments : Moments) (path : String) where
  -- The number counts the checks before.
  pub index_decoded : TileList → ℕ → TileMap → Result TileMap
  index_decoded [] n by_key = success by_key
  index_decoded ((entry, tile) ∷ rest) n by_key =
      check_execution (moments n)
      >> index_decoded rest (suc n) (emplace_new by_key entry.key.encoded tile)

  pub check_source : TileMap → LunarTileKey → Option DecodedChannel → ℕ → Result ℕ
  unfolding check_edges validation_error
  check_source by_key key none verified =
      failure (validation_error "tile omits the required elevation channel" path key)
  check_source by_key key (some source) verified = check_edges path by_key key source edges verified

  pub check_seams : TileMap → TileList → ℕ → ℕ → Result ℕ
  unfolding check_source elevation_channel
  check_seams by_key [] n verified = success verified
  check_seams by_key ((entry, tile) ∷ rest) n verified =
      check_execution (moments n)
      >> (check_source by_key entry.key (elevation_channel tile) verified
          >>= check_seams by_key rest (suc n))

  pub validate_seams : TileList → Result ℕ
  unfolding index_decoded check_seams
  validate_seams tiles = do
    by_key ← index_decoded tiles 0 []
    check_seams by_key tiles (length tiles) 0

  pub index_entries : TileList → ℕ → EntryMap → Result EntryMap
  index_entries [] n by_key = success by_key
  index_entries ((entry, tile) ∷ rest) n by_key =
      check_execution (moments n)
      >> index_entries rest (suc n) (emplace_new by_key entry.key.encoded entry)

  pub check_entry : EntryMap → ℕ → TileIndexEntry → Result (Unit {0})
  unfolding expected_mask parent_present validation_error
  check_entry by_key count entry = do
    fail_if (expected_mask by_key entry.key /= entry.materialized_child_mask)
        (validation_error "materialized child mask disagrees with the tile index" path entry.key)
    fail_if (ltb 1 count && level entry.key /= 0 && not (parent_present by_key entry.key))
        (validation_error "sparse hierarchy contains an orphan tile" path entry.key)

  pub check_entries : EntryMap → ℕ → TileList → ℕ → Result (Unit {0})
  unfolding check_entry
  check_entries by_key count [] n = success tt
  check_entries by_key count ((entry, tile) ∷ rest) n =
      check_execution (moments n)
      >> (check_entry by_key count entry >> check_entries by_key count rest (suc n))

  pub validate_hierarchy : TileList → Result (Unit {0})
  unfolding index_entries check_entries
  validate_hierarchy tiles = do
    by_key ← index_entries tiles 0 []
    check_entries by_key (length tiles) tiles (length tiles)
