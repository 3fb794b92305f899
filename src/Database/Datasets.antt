-- ===== src/Database/Datasets.antt =====
-- `validate_datasets` of src/core/database.cpp: the registry's loop, and the ranges in META.
use lunar_terrain_builder.Base.{
  ℕ, ◌+◌, ◌/◌, ◌%◌, String, Bool, true, not, ◌&&◌, ◌||◌, some, List, [], ◌∷◌, length, ltb, ◌==◌,
  ◌/=◌, if◌then◌else◌,
}
use lunar_terrain_builder.Error.{ErrorCode, Result, success, ◌>>=◌, ◌>>◌, fail_if}
use lunar_terrain_builder.Error.Loops.{try_up}
use lunar_terrain_builder.ByteIo.{Bytes}
use lunar_terrain_builder.TileKey.Text.{codes}
use lunar_terrain_builder.Integrity.{Openssl, new_digest, update_u32, update_domain, finish}
use lunar_terrain_builder.Database.Bytes.{located}
use lunar_terrain_builder.Database.Text.{valid_utf8}
use lunar_terrain_builder.Database.Header.{DatabaseHeader}
use lunar_terrain_builder.Database.Chunks.{ChunkInfo}
use lunar_terrain_builder.Database.Registry.{Strings, dataset_record, DatasetScan, scan_dataset}

-- `std::ranges::sort` on pairs
pub pair_less : ℕ × ℕ → ℕ × ℕ → Bool
pair_less (a, b) (c, d) = ltb a c || (a == c && ltb b d)

pub insert_range : ℕ × ℕ → List (ℕ × ℕ) → List (ℕ × ℕ)
unfolding pair_less
insert_range r [] = r ∷ []
insert_range r (s ∷ rest) = if pair_less s r then s ∷ insert_range r rest else r ∷ (s ∷ rest)

pub sort_ranges : List (ℕ × ℕ) → List (ℕ × ℕ)
unfolding insert_range
sort_ranges [] = []
sort_ranges (r ∷ rest) = insert_range r (sort_ranges rest)

pub overlaps : ℕ × ℕ → ℕ × ℕ → Bool
overlaps (previous_first, previous_second) (first, second) =
    ltb first previous_second && (first /= previous_first || second /= previous_second)

pub check_ranges : String → ℕ → List (ℕ × ℕ) → Result (Unit {0})
unfolding overlaps
check_ranges path meta_offset [] = success tt
check_ranges path meta_offset (previous ∷ []) = success tt
check_ranges path meta_offset (previous ∷ (current ∷ rest)) =
    fail_if (overlaps previous current) (
      located ErrorCode.invalid_format "DSET META ranges partially overlap" path
        (some (meta_offset + current.0)))
    >> check_ranges path meta_offset (current ∷ rest)

module _ (o : Openssl) where
  -- The registry's hash, with the identifiers that the source returns through its last parameter.
  pub validate_datasets :
      ChunkInfo → ChunkInfo → Strings → DatabaseHeader → String → Result (Bytes × List ℕ)
  unfolding sort_ranges check_ranges
  validate_datasets dset meta strings header path = do
    fail_if
        (length dset.bytes % dataset_record /= 0
          || length dset.bytes / dataset_record /= header.dataset_count)
        (located ErrorCode.invalid_format "DSET byte count disagrees with the header" path
          (some dset.offset))
    fail_if (not (valid_utf8 meta.bytes true)) (
        located ErrorCode.invalid_format "META contains invalid UTF-8 or NUL" path
          (some meta.offset))
    let start : DatasetScan o = record {
      hash =
          update_u32 o header.dataset_count
            (update_domain o (codes "LTDB_DATASET_REGISTRY_V1") (new_digest o));
      dataset_ids = [];
      meta_ranges = [];
    }
    scan ← try_up header.dataset_count (scan_dataset o dset meta strings path) start
    check_ranges path meta.offset (sort_ranges scan.meta_ranges)
    digest ← finish o scan.hash
    success (digest, scan.dataset_ids)
