-- ===== src/Operators.antt =====
-- The comparison of two databases in src/builder/operators.cpp, with `DiffReport` of
-- src/builder/builder.hpp. What the code tells the telemetry collector is left out.
mod Report
pub mod Same
pub mod Identical
mod Minus
mod Matched
pub mod Noted
pub mod Rounds
pub mod Keys
pub mod Changes
pub mod Tests
use lunar_terrain_builder.Base.{
  ℕ, suc, ◌+◌, String, Bool, true, false, not, ◌&&◌, ◌||◌, Option, none, some, List, [], ◌∷◌, ◌++◌,
  ltb, ◌==◌, ◌/=◌, if◌then◌else◌,
}
use lunar_terrain_builder.Error.{Result, success, failure, ◌>>=◌, ◌>>◌}
use lunar_terrain_builder.Execution.{Moments, check_execution}
use lunar_terrain_builder.ByteIo.{Bytes}
use lunar_terrain_builder.TileKey.{LunarTileKey}
use lunar_terrain_builder.TileKey.Text.{bytes_eq}
use lunar_terrain_builder.Database.Packs.{PackInfo}
use lunar_terrain_builder.Database.Index.{TileIndexEntry}
use lunar_terrain_builder.Database.Open.{DatabaseState, open_database}
use lunar_terrain_builder.Database.ReadTile.{read_tile_at}
use lunar_terrain_builder.Database.Floats.{Doubles}
use lunar_terrain_builder.Integrity.{Openssl}
use lunar_terrain_builder.Zstandard.{Zstd}
use lunar_terrain_builder.Database.Tiles.{DecodedChannel, DecodedTerrainTile}

pub record DiffReport : Type 0 where
  pub before_path : String
  pub after_path : String
  pub dataset_registry_changed : Bool
  pub builder_configuration_changed : Bool
  pub package_layout_changed : Bool
  pub added_datasets : List ℕ
  pub removed_datasets : List ℕ
  pub added_tiles : List LunarTileKey
  pub removed_tiles : List LunarTileKey
  pub dependency_changes : List LunarTileKey
  pub content_changes : List LunarTileKey
  pub provenance_changes : List LunarTileKey
  pub package_layout_changes : List LunarTileKey

pub is_empty {ℓ} : {A : Type ℓ} → List A → Bool
is_empty [] = true
is_empty (x ∷ rest) = false

pub identical : DiffReport → Bool
unfolding is_empty
identical r =
    not r.dataset_registry_changed
    && not r.builder_configuration_changed
    && not r.package_layout_changed
    && is_empty r.added_datasets
    && is_empty r.removed_datasets
    && is_empty r.added_tiles
    && is_empty r.removed_tiles
    && is_empty r.dependency_changes
    && is_empty r.content_changes
    && is_empty r.provenance_changes
    && is_empty r.package_layout_changes

pub find_channel : List DecodedChannel → ℕ → Option DecodedChannel
find_channel [] id = none
find_channel (c ∷ rest) id = if c.id == id then some c else find_channel rest id

pub channel_eq : DecodedChannel → DecodedChannel → Bool
channel_eq lhs rhs =
    lhs.version == rhs.version
    && lhs.element_type == rhs.element_type
    && lhs.components == rhs.components
    && lhs.width == rhs.width
    && lhs.height == rhs.height
    && lhs.flags == rhs.flags
    && lhs.parameter1 == rhs.parameter1
    && bytes_eq lhs.bytes rhs.bytes

-- `lhs == nullptr || rhs == nullptr ? lhs == rhs : ...`
pub channels_agree : Option DecodedChannel → Option DecodedChannel → Bool
unfolding channel_eq
channels_agree none none = true
channels_agree none (some rhs) = false
channels_agree (some lhs) none = false
channels_agree (some lhs) (some rhs) = channel_eq lhs rhs

pub same_channel : DecodedTerrainTile → DecodedTerrainTile → ℕ → Bool
unfolding find_channel channels_agree
same_channel before after id =
    channels_agree (find_channel before.channels id) (find_channel after.channels id)

-- The test of one pair of packs, negated.
pub pack_eq : PackInfo → PackInfo → Bool
pack_eq before after =
    before.id == after.id
    && bytes_eq before.relative_path after.relative_path
    && before.tile_count == after.tile_count
    && before.file_bytes == after.file_bytes
    && before.first_key.encoded == after.first_key.encoded
    && before.last_key.encoded == after.last_key.encoded

pub same_pack_layout : List PackInfo → List PackInfo → Bool
unfolding pack_eq
same_pack_layout [] [] = true
same_pack_layout [] (a ∷ after) = false
same_pack_layout (b ∷ before) [] = false
same_pack_layout (b ∷ before) (a ∷ after) = pack_eq b a && same_pack_layout before after

pub remove_dataset : DiffReport → ℕ → DiffReport
remove_dataset r id = record r { removed_datasets = r.removed_datasets ++ id ∷ [] }

pub add_dataset : DiffReport → ℕ → DiffReport
add_dataset r id = record r { added_datasets = r.added_datasets ++ id ∷ [] }

-- The lists are what stands behind `before_index` and `after_index`.
pub diff_dataset_ids : List ℕ → List ℕ → DiffReport → DiffReport
unfolding remove_dataset add_dataset
diff_dataset_ids [] [] r = r
diff_dataset_ids (b ∷ before) [] r = diff_dataset_ids before [] (remove_dataset r b)
diff_dataset_ids [] (a ∷ after) r = diff_dataset_ids [] after (add_dataset r a)
diff_dataset_ids (b ∷ before) (a ∷ after) r = elim (ltb b a) [
  | true ↦ diff_dataset_ids before (a ∷ after) (remove_dataset r b)
  | false ↦ elim (ltb a b) [
    | true ↦ diff_dataset_ids (b ∷ before) after (add_dataset r a)
    | false ↦ diff_dataset_ids before after r
  ]
]

pub note_dependency : TileIndexEntry → TileIndexEntry → DiffReport → DiffReport
note_dependency b a r =
    if not (bytes_eq b.dependency_hash_prefix a.dependency_hash_prefix)
    then record r { dependency_changes = r.dependency_changes ++ b.key ∷ [] }
    else r

pub content_changed : TileIndexEntry → TileIndexEntry → Bool
content_changed b a = not (bytes_eq b.content_hash_prefix a.content_hash_prefix)

pub placed_elsewhere : TileIndexEntry → TileIndexEntry → Bool
placed_elsewhere b a =
    b.pack_id /= a.pack_id
    || b.payload_offset /= a.payload_offset
    || b.stored_bytes /= a.stored_bytes

pub note_layout : TileIndexEntry → TileIndexEntry → DiffReport → DiffReport
unfolding placed_elsewhere
note_layout b a r =
    if placed_elsewhere b a
    then record r { package_layout_changes = r.package_layout_changes ++ b.key ∷ [] }
    else r

-- `ChannelId::provenance`
abbrev provenance_channel : ℕ
provenance_channel = 0x0002

pub note_provenance :
    DecodedTerrainTile → DecodedTerrainTile → LunarTileKey → DiffReport → DiffReport
unfolding same_channel
note_provenance before after key r =
    if not (same_channel before after provenance_channel)
    then record r { provenance_changes = r.provenance_changes ++ key ∷ [] }
    else r

pub remove_tile : DiffReport → LunarTileKey → DiffReport
remove_tile r key = record r {
  removed_tiles = r.removed_tiles ++ key ∷ [];
  package_layout_changed = true;
}

pub add_tile : DiffReport → LunarTileKey → DiffReport
add_tile r key = record r { added_tiles = r.added_tiles ++ key ∷ []; package_layout_changed = true }

module _ (before_database after_database : DatabaseState) where
  pub start_report : String → String → DiffReport
  start_report before_path after_path = record {
    before_path = before_path;
    after_path = after_path;
    dataset_registry_changed = not (
        bytes_eq before_database.header.dataset_registry_hash
          after_database.header.dataset_registry_hash);
    builder_configuration_changed = not (
        bytes_eq before_database.header.builder_configuration_hash
          after_database.header.builder_configuration_hash);
    package_layout_changed = false;
    added_datasets = [];
    removed_datasets = [];
    added_tiles = [];
    removed_tiles = [];
    dependency_changes = [];
    content_changes = [];
    provenance_changes = [];
    package_layout_changes = [];
  }

  -- The report before the loop over the tiles.
  pub registries_report : String → String → DiffReport
  unfolding start_report diff_dataset_ids same_pack_layout
  registries_report before_path after_path =
      record (diff_dataset_ids before_database.dataset_ids after_database.dataset_ids
        (start_report before_path after_path)) {
          package_layout_changed =
              not (same_pack_layout before_database.packs after_database.packs);
        }

-- The assignment behind the loop.
pub settle_layout : DiffReport → DiffReport
unfolding is_empty
settle_layout r = record r {
  package_layout_changed = r.package_layout_changed || not (is_empty r.package_layout_changes);
}

-- `read` is `ReadTile` of an opened database.
module _ (read : DatabaseState → LunarTileKey → Result DecodedTerrainTile) (moments : Moments)
    (before_database after_database : DatabaseState) where
  -- The branch where the content has changed.
  pub note_content : TileIndexEntry → TileIndexEntry → DiffReport → Result DiffReport
  unfolding note_provenance
  note_content b a r = do
    before_tile ← read before_database b.key
    after_tile ← read after_database a.key
    success (
        note_provenance before_tile after_tile b.key
          (record r { content_changes = r.content_changes ++ b.key ∷ [] }))

  pub compare_matching_tile : TileIndexEntry → TileIndexEntry → DiffReport → Result DiffReport
  unfolding note_dependency content_changed note_content note_layout
  compare_matching_tile b a r = do
    noted ←
        if content_changed b a
        then note_content b a (note_dependency b a r)
        else success (note_dependency b a r)
    success (note_layout b a noted)

  -- The loop over both indexes. The number counts the rounds before this one, with the check in front
  -- of the loop.
  pub diff_tiles : List TileIndexEntry → List TileIndexEntry → ℕ → DiffReport → Result DiffReport
  unfolding remove_tile add_tile compare_matching_tile
  diff_tiles [] [] n r = success r
  diff_tiles (b ∷ before) [] n r =
      check_execution (moments n) >> diff_tiles before [] (suc n) (remove_tile r b.key)
  diff_tiles [] (a ∷ after) n r =
      check_execution (moments n) >> diff_tiles [] after (suc n) (add_tile r a.key)
  diff_tiles (b ∷ before) (a ∷ after) n r =
      check_execution (moments n) >> elim (ltb b.key.encoded a.key.encoded) [
        | true ↦ diff_tiles before (a ∷ after) (suc n) (remove_tile r b.key)
        | false ↦ elim (ltb a.key.encoded b.key.encoded) [
          | true ↦ diff_tiles (b ∷ before) after (suc n) (add_tile r a.key)
          | false ↦ compare_matching_tile b a r >>= diff_tiles before after (suc n)
        ]
      ]

  -- `diff_databases` behind the two calls of `Open`
  pub diff_states : String → String → Result DiffReport
  unfolding registries_report diff_tiles settle_layout
  diff_states before_path after_path = do
    report ←
        diff_tiles before_database.index after_database.index 1
          (registries_report before_database after_database before_path after_path)
    success (settle_layout report)

module _ (d : Doubles) (o : Openssl) (z : Zstd) (read_file : String → Result Bytes)
    (pack_path : String → Bytes → String) (moments : Moments) where
  diff_opened :
      String
      → String
      → Option (Result DatabaseState)
      → Option (Result DatabaseState)
      → Option (Result DiffReport)
  unfolding diff_states
  diff_opened before_path after_path none after = none
  diff_opened before_path after_path (some (failure e)) after = some (failure e)
  diff_opened before_path after_path (some (success b)) none = none
  diff_opened before_path after_path (some (success b)) (some (failure e)) = some (failure e)
  diff_opened before_path after_path (some (success b)) (some (success a)) =
      some (diff_states (read_tile_at d o z read_file pack_path) moments b a before_path after_path)

  -- `none` is fuel that runs out where a database is opened.
  pub diff_databases : String → String → Option (Result DiffReport)
  unfolding diff_opened
  diff_databases before_path after_path = elim (check_execution (moments 0)) [
    | failure e ↦ some (failure e)
    | success ok ↦
        diff_opened before_path after_path (open_database o read_file before_path)
          (open_database o read_file after_path)
  ]
