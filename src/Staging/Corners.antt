-- ===== src/Staging/Corners.antt =====
-- The samples on the edges and the corners of a tile's core, and the seams that
-- `resolve_elevation_boundaries` of src/builder/tile_staging.cpp collects over the tiles of a batch.
pub mod Samples
pub mod Inside
use lunar_terrain_builder.Base.{
  ℕ, zero, suc, ◌+◌, ◌-◌, ◌*◌, String, Bool, true, false, not, Option, none, some, List, [], ◌∷◌,
  ◌++◌, map, length, ◌==◌, ltb, if◌then◌else◌,
}
use lunar_terrain_builder.Base.Maps.{find, is_found, emplace_new}
use lunar_terrain_builder.Error.{
  ErrorCode, Error, make_error, with_path, with_tile_key, Result, success, failure, ◌>>=◌, ◌>>◌,
  fail_if,
}
use lunar_terrain_builder.TileKey.{LunarTileKey}
use lunar_terrain_builder.Topology.{QscEdge, QscTileNeighbor, qsc_tile_neighbor}
use lunar_terrain_builder.Validation.{core_vertices}
use lunar_terrain_builder.Staging.UnionFind.{iota}

abbrev pub core_sample_count : ℕ
core_sample_count = core_vertices * core_vertices

-- `edges` of the source
abbrev pub all_edges : List QscEdge
all_edges = QscEdge.west ∷ QscEdge.east ∷ QscEdge.south ∷ QscEdge.north ∷ []

abbrev pub core_index : ℕ → ℕ → ℕ
core_index x y = y * core_vertices + x

-- `edge_index` of the source
unfoldable pub edge_core_index : QscEdge → ℕ → ℕ
edge_core_index QscEdge.west parameter = core_index 0 parameter
edge_core_index QscEdge.east parameter = core_index (core_vertices - 1) parameter
edge_core_index QscEdge.south parameter = core_index parameter 0
edge_core_index QscEdge.north parameter = core_index parameter (core_vertices - 1)
edge_core_index (QscEdge.unnamed n) parameter = 0

pub data Corner : Type 0 where
  south_west south_east north_west north_east : Corner

abbrev pub corner_number : Corner → ℕ
corner_number Corner.south_west = 0
corner_number Corner.south_east = 1
corner_number Corner.north_west = 2
corner_number Corner.north_east = 3

unfoldable pub edge_corner : QscEdge → ℕ → Corner
edge_corner QscEdge.west parameter =
    if parameter == core_vertices - 1 then Corner.north_west else Corner.south_west
edge_corner QscEdge.east parameter =
    if parameter == core_vertices - 1 then Corner.north_east else Corner.south_east
edge_corner QscEdge.south parameter =
    if parameter == core_vertices - 1 then Corner.south_east else Corner.south_west
edge_corner QscEdge.north parameter =
    if parameter == core_vertices - 1 then Corner.north_east else Corner.north_west
edge_corner (QscEdge.unnamed n) parameter = Corner.south_west

unfoldable pub corner_core_index : Corner → ℕ
corner_core_index Corner.south_west = core_index 0 0
corner_core_index Corner.south_east = core_index (core_vertices - 1) 0
corner_core_index Corner.north_west = core_index 0 (core_vertices - 1)
corner_core_index Corner.north_east = core_index (core_vertices - 1) (core_vertices - 1)

unfoldable pub corner_node : ℕ → Corner → ℕ
corner_node tile_index corner = tile_index * 4 + corner_number corner

-- A tile in a batch: a sample is of any type, and a path is kept as its text.
pub record StagedElevationTile {ℓ} (A : Type ℓ) : Type ℓ where
  pub key : LunarTileKey
  pub dependency_hash : List ℕ
  pub core_samples : List A
  pub artifact_path : String

pub record SamplePatch : Type 0 where
  pub receiving_tile : ℕ
  pub receiving_sample : ℕ
  pub owning_tile : ℕ
  pub owning_sample : ℕ

-- The calls of `unite` that the loop makes, and the patches that it adds, both in their order.
pub record Seams : Type 0 where
  pub unions : List (ℕ × ℕ)
  pub patches : List SamplePatch

abbrev pub no_seams : Seams
no_seams = record { unions = []; patches = [] }

abbrev pub join : Seams → Seams → Seams
join s t = record { unions = s.unions ++ t.unions; patches = s.patches ++ t.patches }

-- The parameter of the neighbour's edge that meets this one.
unfoldable pub mirrored : Bool → ℕ → ℕ
mirrored reversed parameter = if reversed then core_vertices - 1 - parameter else parameter

-- A tile, one of its edges, and the neighbour there with its place in the batch.
module _ (tile_index : ℕ) (edge : QscEdge) (neighbor_index : ℕ) (neighbor : QscTileNeighbor) where
  unfoldable pub corner_union : ℕ → ℕ × ℕ
  unfolding corner_node edge_corner mirrored
  corner_union endpoint = (
    corner_node tile_index (edge_corner edge endpoint),
    corner_node neighbor_index
        (edge_corner neighbor.touching_edge (mirrored neighbor.reversed endpoint)),
  )

  unfoldable pub edge_patch : ℕ → SamplePatch
  unfolding edge_core_index mirrored
  edge_patch parameter = record {
    receiving_tile = neighbor_index;
    receiving_sample =
        edge_core_index neighbor.touching_edge (mirrored neighbor.reversed parameter);
    owning_tile = tile_index;
    owning_sample = edge_core_index edge parameter;
  }

  unfoldable pub edge_seams : Seams
  unfolding corner_union edge_patch iota
  edge_seams = record {
    unions = corner_union 0 ∷ corner_union (core_vertices - 1) ∷ [];
    patches = map edge_patch (iota (core_vertices - 2) 1);
  }

module _ (by_key : List (ℕ × ℕ)) (key : LunarTileKey) (tile_index : ℕ) where
  unfoldable pub visit_neighbor : QscEdge → QscTileNeighbor → Seams
  unfolding edge_seams
  visit_neighbor edge neighbor = elim (find by_key neighbor.key.encoded) [
    | none ↦ no_seams
    | some neighbor_index ↦
        if ltb key.encoded neighbor.key.encoded
        then edge_seams tile_index edge neighbor_index neighbor
        else no_seams
  ]

  unfoldable pub visit_edges : List QscEdge → Result Seams
  unfolding visit_neighbor
  visit_edges [] = success no_seams
  visit_edges (edge ∷ rest) = do
    neighbor ← qsc_tile_neighbor key edge
    later ← visit_edges rest
    success (join (visit_neighbor edge neighbor) later)

unfoldable pub staging_error : ErrorCode → String → Option String → LunarTileKey → Error
staging_error code message none key = with_tile_key (make_error code message) key.encoded
staging_error code message (some path) key =
    with_tile_key (with_path (make_error code message) path) key.encoded

module _ {ℓ} {A : Type ℓ} where
  unfoldable pub check_staged : List (ℕ × ℕ) → StagedElevationTile A → Result (Unit {0})
  unfolding staging_error
  check_staged by_key tile =
      fail_if (not (length tile.core_samples == core_sample_count)) (
        staging_error ErrorCode.invalid_argument "staged tile core does not contain 257x257 samples"
          (some tile.artifact_path) tile.key)
      >> fail_if (is_found (find by_key tile.key.encoded)) (
          staging_error ErrorCode.invalid_argument
            "seam-resolution batch contains a duplicate TileKey" none tile.key)

  unfoldable pub index_staged :
      List (StagedElevationTile A) → ℕ → List (ℕ × ℕ) → Result (List (ℕ × ℕ))
  unfolding check_staged
  index_staged [] index by_key = success by_key
  index_staged (tile ∷ tiles) index by_key =
      check_staged by_key tile
      >> index_staged tiles (suc index) (emplace_new by_key tile.key.encoded index)

  unfoldable pub visit_tiles : List (ℕ × ℕ) → List (StagedElevationTile A) → ℕ → Result Seams
  unfolding visit_edges
  visit_tiles by_key [] tile_index = success no_seams
  visit_tiles by_key (tile ∷ tiles) tile_index = do
    here' ← visit_edges by_key tile.key tile_index all_edges
    later ← visit_tiles by_key tiles (suc tile_index)
    success (join here' later)

  -- The part of `resolve_elevation_boundaries` before the corner groups. Without tiles the loops do
  -- nothing, which is the early return.
  unfoldable pub collect_seams : List (StagedElevationTile A) → Result Seams
  unfolding index_staged visit_tiles
  collect_seams tiles = do by_key ← index_staged tiles 0 []; visit_tiles by_key tiles 0
