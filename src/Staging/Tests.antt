-- ===== src/Staging/Tests.antt =====
-- A union of three pairs among six nodes, and two neighbours in a batch.
use lunar_terrain_builder.Base.{
  ℕ, zero, suc, true, IsByte, ◌*◌, ◌<◌, ◌≡◌, ◌↔◌, refl, arith, false, some, List, [], ◌∷◌, length,
  length-replicate, replicate, All,
}
use lunar_terrain_builder.Base.Maps.{find, emplace_new}
use lunar_terrain_builder.Error.{success}
use lunar_terrain_builder.TileKey.{
  LunarTileKey, face, level, morton, x, y, x_bit, y_bit, interleave_bit, interleave, create,
}
use lunar_terrain_builder.TileKey.Layout.{packed, packed-IsKey}
use lunar_terrain_builder.Topology.{
  QscEdge, QscTileNeighbor, qsc_tile_neighbor, walk, land, enter, qsc_edge_connection,
  vertical_edge,
}
use lunar_terrain_builder.Database.Bytes.{is_finite}
use lunar_terrain_builder.Staging.Artifact.{serialize_staged_core, load_staged}
use lunar_terrain_builder.Staging.Artifact.Parts.{IsSample}
use lunar_terrain_builder.Staging.Artifact.RoundTrip.{load_staged-serialize_staged_core}
use lunar_terrain_builder.Staging.UnionFind.{
  corner_classes, unite_all, unite, find_root, seek, compress, link, iota, root_of,
}
use lunar_terrain_builder.Staging.UnionFind.Classes.{Joined, IsInside, corner_classes-Joined}
use lunar_terrain_builder.Staging.Corners.{
  core_sample_count, StagedElevationTile, Seams, no_seams, join, edge_seams, visit_neighbor,
  visit_edges, check_staged, index_staged, visit_tiles, collect_seams,
}
use lunar_terrain_builder.Staging.Corners.Inside.{InBatch, collect_seams-classes}

abbrev pairs : List (ℕ × ℕ)
pairs = (5, 3) ∷ (1, 2) ∷ (3, 2) ∷ []

pairs_run : corner_classes 6 pairs ≡ some (0 ∷ 1 ∷ 1 ∷ 1 ∷ 4 ∷ 3 ∷ [])
unfolding corner_classes unite_all unite find_root seek compress link iota
pairs_run = refl

root_run : root_of (0 ∷ 1 ∷ 1 ∷ 1 ∷ 4 ∷ 3 ∷ []) 5 ≡ some 1
unfolding root_of find_root seek compress
root_run = refl

corner_classes-Joined_example :
    (out : List ℕ) × (corner_classes 6 pairs ≡ some out)
    × (length out ≡ 6)
    × ((i : ℕ) → i < 6 → (r : ℕ) × (root_of out i ≡ some r))
    × ((i j : ℕ) → i < 6 → j < 6 → (root_of out i ≡ root_of out j) ↔ Joined pairs i j)
unfolding IsInside
corner_classes-Joined_example =
    corner_classes-Joined 6 pairs
      ((omega arith, omega arith), ((omega arith, omega arith), ((omega arith, omega arith), tt)))

core : List (Unit {0})
core = replicate (257 * 257) tt

core-length : length core ≡ core_sample_count
unfolding core
core-length = length-replicate {0} (257 * 257) tt

abbrev child : ℕ → LunarTileKey
child place = packed 0 1 place

abbrev staged : LunarTileKey → StagedElevationTile (Unit {0})
staged key = record { key = key; dependency_hash = []; core_samples = core; artifact_path = "" }

abbrev batch : List (StagedElevationTile (Unit {0}))
batch = staged (child 0) ∷ staged (child 1) ∷ []

abbrev places : List (ℕ × ℕ)
places = ((child 1).encoded, 1) ∷ ((child 0).encoded, 0) ∷ []

batch_indexed : index_staged batch 0 [] ≡ success places
unfolding index_staged check_staged find emplace_new
batch_indexed = rw core-length refl

abbrev east_of : QscTileNeighbor
east_of = record { key = child 1; touching_edge = QscEdge.west; reversed = false }

abbrev seen : Seams
seen =
    let last = join no_seams no_seams in
    join (join no_seams (join (edge_seams 0 QscEdge.east 1 east_of) (join no_seams last)))
      (join (join no_seams (join no_seams (join no_seams last))) no_seams)

batch_visited : visit_tiles places batch 0 ≡ success seen
unfolding visit_tiles visit_edges visit_neighbor find qsc_tile_neighbor walk land enter
    qsc_edge_connection vertical_edge face level morton x y x_bit y_bit interleave_bit interleave
    create
batch_visited = refl

batch_run : collect_seams batch ≡ success seen
unfolding collect_seams
batch_run = rw batch_indexed batch_visited

collect_seams-classes_example :
    All (InBatch 2) seen.patches
    × ((parents : List ℕ) × (corner_classes 8 seen.unions ≡ some parents)
        × ((i j : ℕ)
            → i < 8
            → j < 8
            → (root_of parents i ≡ root_of parents j) ↔ Joined seen.unions i j))
collect_seams-classes_example = collect_seams-classes batch seen batch_run

abbrev digest : List ℕ
digest = replicate 32 7

zero_finite : is_finite 0 ≡ true
unfolding is_finite
zero_finite = refl

zeros-IsSample : (n : ℕ) → All IsSample (replicate n 0)
zeros-IsSample zero = tt
zeros-IsSample (suc n) = ((omega arith, zero_finite), zeros-IsSample n)

sevens-IsByte : (n : ℕ) → All IsByte (replicate n 7)
sevens-IsByte zero = tt
sevens-IsByte (suc n) = (omega arith, sevens-IsByte n)

level_samples : List ℕ
level_samples = replicate (257 * 257) 0

level_samples-length : length level_samples ≡ core_sample_count
unfolding level_samples
level_samples-length = length-replicate {A = ℕ} (257 * 257) 0

level_samples-IsSample : All IsSample level_samples
unfolding level_samples
level_samples-IsSample = zeros-IsSample (257 * 257)

load_staged-serialize_staged_core_example :
    load_staged
      (serialize_staged_core (child 1) digest level_samples)
      "staging/core"
      (child 1)
      digest
    ≡ success (record {
      key = child 1;
      dependency_hash = digest;
      core_samples = level_samples;
      artifact_path = "staging/core";
    })
load_staged-serialize_staged_core_example =
    load_staged-serialize_staged_core (child 1) "staging/core" digest level_samples
      (packed-IsKey 0 1 1 (omega arith) (omega arith) (omega arith)) refl (sevens-IsByte 32)
      level_samples-length level_samples-IsSample
