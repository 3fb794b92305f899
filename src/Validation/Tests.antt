-- ===== src/Validation/Tests.antt =====
-- Two tiles of a face, and two neighbours with flat elevations.
use lunar_terrain_builder.Base.{
  ℕ, zero, suc, ◌+◌, ◌*◌, ◌<◌, ◌≡◌, ◌↔◌, refl, ap, arith, none, [], ◌∷◌, get_or, replicate, ◌/=◌,
  Bool, false,
}
use lunar_terrain_builder.Base.Maps.{find, emplace_new}
use lunar_terrain_builder.Error.{Error, success, fail_if}
use lunar_terrain_builder.Error.Loops.{try_up}
use lunar_terrain_builder.Execution.{Moments, check_execution}
use lunar_terrain_builder.ByteIo.{Bytes}
use lunar_terrain_builder.TileKey.{
  LunarTileKey, face, level, morton, x, y, x_bit, y_bit, interleave_bit, interleave, create,
}
use lunar_terrain_builder.TileKey.Layout.{IsKey, packed, packed-IsKey}
use lunar_terrain_builder.Topology.{
  QscEdge, QscTileNeighbor, qsc_tile_neighbor, walk, land, enter, qsc_edge_connection,
  vertical_edge,
}
use lunar_terrain_builder.Hierarchy.{materialized_child_masks}
use lunar_terrain_builder.Database.Index.{TileIndexEntry}
use lunar_terrain_builder.Database.Tiles.{DecodedChannel, DecodedTerrainTile}
use lunar_terrain_builder.Validation
use lunar_terrain_builder.Validation.{
  TileList, core_vertices, elevation_channel, find_elevation, read_u16, serialized_edge_index,
  mapped, compare_samples, compare_edge, check_edge, check_edges, check_source, check_seams,
  validate_seams, validate_hierarchy, validation_error,
}
use lunar_terrain_builder.Validation.Loops.{tile_of}
use lunar_terrain_builder.Validation.Edges.{Agree}
use lunar_terrain_builder.Validation.Seams.{validate_seams-Agree}
use lunar_terrain_builder.Validation.Listed.{keys_of, masks_of}
use lunar_terrain_builder.Validation.Required.{validate_hierarchy-accepts_iff}

abbrev undisturbed : Moments
undisturbed n = record { stop_requested = false; telemetry_check = none }

undisturbed_check : (i : ℕ) → check_execution (undisturbed i) ≡ success tt
unfolding check_execution
undisturbed_check i = refl

abbrev entry : LunarTileKey → ℕ → TileIndexEntry
entry key mask = record {
  key = key;
  pack_id = 1;
  flags = 0;
  payload_offset = 64;
  stored_bytes = 9;
  logical_channel_bytes = 0;
  minimum_elevation_code = 0;
  maximum_elevation_code = 0;
  primary_dataset = 2;
  effective_resolution_millimeters = 0;
  geometric_error_millimeters = 0;
  materialized_child_mask = mask;
  channel_count = 1;
  payload_crc32c = 0;
  content_hash_prefix = [];
  dependency_hash_prefix = [];
}

-- The bytes of a grid in which every byte is 7.
flat_bytes : Bytes
flat_bytes = replicate (259 * 259 * 2) 7

abbrev flat : DecodedChannel
flat = record {
  id = 1;
  version = 1;
  element_type = 2;
  components = 1;
  width = 259;
  height = 259;
  flags = 0;
  parameter1 = 0;
  bytes = flat_bytes;
}

abbrev tile : LunarTileKey → DecodedTerrainTile
tile key = record {
  key = key;
  metadata = record {
    effective_resolution_meters = 0;
    geometric_error_meters = 0;
    minimum_elevation_meters = 0;
    maximum_elevation_meters = 0;
    primary_dataset = 2;
  };
  channels = flat ∷ [];
  provenance = none;
}

abbrev root : LunarTileKey
root = packed 0 0 0

abbrev child : ℕ → LunarTileKey
child q = packed 0 1 q

root-IsKey : IsKey root
root-IsKey = packed-IsKey 0 0 0 (omega arith) (omega arith) (omega arith)

child-IsKey : (q : ℕ) → q < 4 → IsKey (child q)
child-IsKey q h = packed-IsKey 0 1 q (omega arith) (omega arith) (omega arith)

abbrev family : TileList
family = (entry root 4, tile root) ∷ (entry (child 2) 0, tile (child 2)) ∷ []

validate_hierarchy-accepts_iff_example :
    (validate_hierarchy undisturbed "moon.ltdb" family ≡ success tt)
    ↔ (materialized_child_masks (keys_of family) ≡ success (masks_of family))
validate_hierarchy-accepts_iff_example =
    validate_hierarchy-accepts_iff undisturbed "moon.ltdb" family undisturbed_check
      (root-IsKey, (child-IsKey 2 (omega arith), tt)) ((omega arith, tt), (tt, tt))
      (λ few. absurd (omega (arith, few)))

get_or-replicate : (n i : ℕ) → i < n → ◌≡◌ {A = ℕ} (get_or (replicate n 7) i 0) 7
get_or-replicate zero i h = absurd (omega arith)
get_or-replicate (suc n) zero h = refl
get_or-replicate (suc n) (suc i) h = get_or-replicate n i (omega arith)

-- Every place of an edge lies in the grid.
edge_in_grid : (e : QscEdge) (p : ℕ) → p < core_vertices → serialized_edge_index e p < 259 * 259
unfolding serialized_edge_index
edge_in_grid QscEdge.west p h = omega arith
edge_in_grid QscEdge.east p h = omega arith
edge_in_grid QscEdge.south p h = omega arith
edge_in_grid QscEdge.north p h = omega arith
edge_in_grid (QscEdge.unnamed n) p h = omega arith

flat_sample :
    (e : QscEdge) (p : ℕ)
    → p < core_vertices
    → read_u16 flat_bytes (serialized_edge_index e p) ≡ 0x0707
unfolding read_u16 flat_bytes
flat_sample e p h =
    let inside = edge_in_grid e p h in
    let first =
      get_or-replicate (259 * 259 * 2) (serialized_edge_index e p * 2) (omega (arith, inside)) in
    let second =
      get_or-replicate (259 * 259 * 2) (serialized_edge_index e p * 2 + 1)
        (omega (arith, inside)) in
    rw (first, second) refl

tests_pass :
    (n : ℕ) (test : ℕ → Bool) (e : Error)
    → ((i : ℕ) → i < n → test i ≡ false)
    → try_up n (λ i s. fail_if (test i) e) tt ≡ success tt
tests_pass zero test e fine = refl
tests_pass (suc n) test e fine =
    rw (tests_pass n test e (λ i h. fine i (omega arith)), fine n (omega arith)) refl

flat_edges :
    (e : QscEdge) (n : QscTileNeighbor) (error : Error)
    → n.reversed ≡ false
    → compare_samples flat flat e n error ≡ success tt
unfolding compare_samples mapped
flat_edges e n error straight =
    tests_pass core_vertices
      (λ p.
        read_u16 flat.bytes (serialized_edge_index e p)
        /= read_u16 flat.bytes (serialized_edge_index n.touching_edge (mapped n p)))
      error (λ p h. rw (straight, flat_sample e p h, flat_sample n.touching_edge p h) refl)

abbrev neighbours : TileList
neighbours = (entry (child 0) 0, tile (child 0)) ∷ (entry (child 1) 0, tile (child 1)) ∷ []

abbrev east_of : QscTileNeighbor
east_of = record { key = child 1; touching_edge = QscEdge.west; reversed = false }

east_run : qsc_tile_neighbor (child 0) QscEdge.east ≡ success east_of
unfolding qsc_tile_neighbor walk land enter qsc_edge_connection vertical_edge face level morton x y
    x_bit y_bit interleave_bit interleave create
east_run = refl

seams_run : validate_seams undisturbed "moon.ltdb" neighbours ≡ success 1
unfolding validate_seams Validation.index_decoded check_seams check_source check_edges check_edge
    compare_edge elevation_channel find_elevation find emplace_new check_execution qsc_tile_neighbor
    walk land enter qsc_edge_connection vertical_edge face level morton x y x_bit y_bit
    interleave_bit interleave create
seams_run =
    rw
      (flat_edges QscEdge.east east_of
        (validation_error "same-level QSC edge samples are not byte-identical" "moon.ltdb"
          (child 0))
        refl)
      refl

-- The eastern tile, whose key is the larger one, seen over its western edge.
west_of :
    qsc_tile_neighbor (child 1) QscEdge.west
    ≡ success (record { key = child 0; touching_edge = QscEdge.east; reversed = false })
unfolding qsc_tile_neighbor walk land enter qsc_edge_connection vertical_edge face level morton x y
    x_bit y_bit interleave_bit interleave create
west_of = refl

validate_seams-Agree_example :
    Agree
      (tile (child 1))
      (tile (child 0))
      QscEdge.west
      (record { key = child 0; touching_edge = QscEdge.east; reversed = false })
validate_seams-Agree_example =
    validate_seams-Agree undisturbed "moon.ltdb" neighbours 1 (child 1) QscEdge.west _
      (tile (child 1)) (tile (child 0))
      (child-IsKey 0 (omega arith), (child-IsKey 1 (omega arith), tt)) seams_run refl
      (unfold tile_of in refl) west_of (unfold tile_of in refl)
      (λ e. absurd (omega (arith, ap (λ (k : LunarTileKey). k.encoded) e)))
