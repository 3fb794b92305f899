-- ===== src/Operators/Tests.antt =====
-- Databases of two tiles, compared with one another.
use lunar_terrain_builder.Base.{ℕ, ◌≡◌, ◌↔◌, ◌++◌, refl, arith, true, false, none, List, [], ◌∷◌}
use lunar_terrain_builder.Error.{ErrorCode, make_error, Result, success, failure}
use lunar_terrain_builder.Execution.{Moments, check_execution}
use lunar_terrain_builder.TileKey.{LunarTileKey}
use lunar_terrain_builder.TileKey.Text.{bytes_eq}
use lunar_terrain_builder.Database.Header.{header_fields}
use lunar_terrain_builder.Database.Index.{TileIndexEntry}
use lunar_terrain_builder.Database.Index.Order.{IsIndex}
use lunar_terrain_builder.Database.Open.{DatabaseState}
use lunar_terrain_builder.Database.Tiles.{DecodedTerrainTile}
use lunar_terrain_builder.Operators.{
  DiffReport, is_empty, identical, same_pack_layout, diff_dataset_ids, note_dependency,
  content_changed, placed_elsewhere, note_layout, compare_matching_tile, remove_tile, add_tile,
  diff_tiles, start_report, registries_report, settle_layout, diff_states,
}
use lunar_terrain_builder.Operators.Same.{SameDatabase}
use lunar_terrain_builder.Operators.Identical.{diff_states-identical_iff, diff_states-SameDatabase}
use lunar_terrain_builder.Operators.Minus.{minus}
use lunar_terrain_builder.Operators.Keys.{diff_dataset_ids-minus}
use lunar_terrain_builder.Operators.Rounds.{Reported}
use lunar_terrain_builder.Operators.Changes.{diff_tiles-Reported}

abbrev entry : ℕ → ℕ → TileIndexEntry
entry encoded stored = record {
  key = record { encoded = encoded };
  pack_id = 1;
  flags = 0;
  payload_offset = 64;
  stored_bytes = stored;
  logical_channel_bytes = 0;
  minimum_elevation_code = 0;
  maximum_elevation_code = 0;
  primary_dataset = 2;
  effective_resolution_millimeters = 0;
  geometric_error_millimeters = 0;
  materialized_child_mask = 0;
  channel_count = 1;
  payload_crc32c = 0;
  content_hash_prefix = 7 ∷ [];
  dependency_hash_prefix = 8 ∷ [];
}

abbrev database : List ℕ → List TileIndexEntry → DatabaseState
database ids index = record {
  manifest_path = "moon.ltdb";
  header = record (header_fields []) {
    builder_configuration_hash = 1 ∷ [];
    dataset_registry_hash = 2 ∷ [];
  };
  index = index;
  packs = [];
  dataset_ids = ids;
}

abbrev before : DatabaseState
before = database (1 ∷ 2 ∷ []) (entry 0 9 ∷ entry 5 9 ∷ [])

abbrev after : DatabaseState
after = database (2 ∷ 3 ∷ []) (entry 5 8 ∷ entry 7 9 ∷ [])

-- No tile can be read, and nobody asks for a stop.
abbrev unreadable : DatabaseState → LunarTileKey → Result DecodedTerrainTile
unreadable db key = failure (make_error ErrorCode.io_error "unreadable")

abbrev undisturbed : Moments
undisturbed n = record { stop_requested = false; telemetry_check = none }

abbrev blank : DiffReport
blank = start_report before after "a" "b"

abbrev compared : DiffReport
compared = record blank {
  package_layout_changed = true;
  removed_tiles = record { encoded = 0 } ∷ [];
  added_tiles = record { encoded = 7 } ∷ [];
  package_layout_changes = record { encoded = 5 } ∷ [];
}

diff_run :
    diff_tiles unreadable undisturbed before after before.index after.index 1 blank
    ≡ success compared
unfolding diff_tiles compare_matching_tile note_dependency content_changed note_layout
    placed_elsewhere remove_tile add_tile bytes_eq start_report check_execution
diff_run = refl

before-IsIndex : IsIndex before.index
unfolding IsIndex
before-IsIndex = ((omega arith, tt), (tt, tt))

after-IsIndex : IsIndex after.index
unfolding IsIndex
after-IsIndex = ((omega arith, tt), (tt, tt))

diff_tiles-Reported_example : Reported before.index after.index blank compared
diff_tiles-Reported_example =
    diff_tiles-Reported unreadable undisturbed before after before.index after.index 1 blank
      compared before-IsIndex after-IsIndex diff_run

diff_dataset_ids-minus_example :
    ((diff_dataset_ids (1 ∷ 2 ∷ []) (2 ∷ 3 ∷ []) blank).removed_datasets
      ≡ blank.removed_datasets ++ minus (1 ∷ 2 ∷ []) (2 ∷ 3 ∷ []))
    × ((diff_dataset_ids (1 ∷ 2 ∷ []) (2 ∷ 3 ∷ []) blank).added_datasets
        ≡ blank.added_datasets ++ minus (2 ∷ 3 ∷ []) (1 ∷ 2 ∷ []))
diff_dataset_ids-minus_example =
    diff_dataset_ids-minus (1 ∷ 2 ∷ []) (2 ∷ 3 ∷ []) blank ((omega arith, tt), (tt, tt))
      ((omega arith, tt), (tt, tt))

abbrev same_report : DiffReport
same_report = start_report before before "a" "a"

same_run : diff_states unreadable undisturbed before before "a" "a" ≡ success same_report
unfolding diff_states registries_report settle_layout diff_tiles compare_matching_tile
    note_dependency content_changed note_layout placed_elsewhere bytes_eq start_report
    check_execution diff_dataset_ids same_pack_layout is_empty
same_run = refl

diff_states-identical_iff_example : (identical same_report ≡ true) ↔ SameDatabase before before
diff_states-identical_iff_example =
    diff_states-identical_iff unreadable undisturbed before before "a" "a" same_report same_run

same_is_quiet : identical same_report ≡ true
unfolding identical start_report is_empty bytes_eq
same_is_quiet = refl

before-SameDatabase : SameDatabase before before
before-SameDatabase =
    (diff_states-identical_iff unreadable undisturbed before before "a" "a" same_report same_run).0
      same_is_quiet

undisturbed_check : (i : ℕ) → check_execution (undisturbed i) ≡ success tt
unfolding check_execution
undisturbed_check i = refl

diff_states-SameDatabase_example :
    (report : DiffReport) × (diff_states unreadable undisturbed before before "a" "b"
      ≡ success report)
    × (identical report ≡ true)
diff_states-SameDatabase_example =
    diff_states-SameDatabase unreadable undisturbed before before "a" "b" undisturbed_check
      before-SameDatabase
