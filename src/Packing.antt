-- ===== src/Packing.antt =====
-- `plan_canonical_pack_ranges` of src/builder/packing.cpp: sorted tiles are cut into pack files. The
-- file's own `align8` is the one of src/builder/container_writer.cpp again. The stop token is a
-- function from the points where the code asks it to its answers; the code asks each at most once.
pub mod Plan
pub mod Sound
pub mod Returns
pub mod Tests
use lunar_terrain_builder.Base.{
  ℕ, zero, suc, ◌+◌, ◌-◌, ◌%◌, ◌^◌, ◌&&◌, ◌||◌, not, Bool, Option, none, some, List, [], ◌∷◌, ◌++◌,
  length, drop, true, false, ltb, leb, ◌==◌, ◌/=◌, if◌then◌else◌, u64, u64_max, u32_max,
}
use lunar_terrain_builder.Error.{
  ErrorCode, Error, make_error, with_tile_key, Result, success, failure, ◌>>=◌, ◌>>◌, fail_if,
}
use lunar_terrain_builder.TileKey.{LunarTileKey, face, level}
use lunar_terrain_builder.ByteWriter.{align8}

pub record PackingTile : Type 0 where
  pub key : LunarTileKey
  pub payload_bytes : ℕ

pub record CanonicalPackRange : Type 0 where
  pub first_tile : ℕ
  pub tile_count : ℕ

-- The points where `stop_requested` is called: for tile `index` of the checks, for the range that
-- starts at `first`, and for tile `end'` of that range.
pub data StopPoint : Type 0 where
  checking : (index : ℕ) → StopPoint
  starting : (first : ℕ) → StopPoint
  growing : (first end' : ℕ) → StopPoint

-- `format_v1::bytes::pack_header`
abbrev pub pack_header : ℕ
pack_header = 64

pub cancelled_error : Error
cancelled_error = make_error ErrorCode.cancelled "canonical pack planning was cancelled"

-- `sorted_tiles[index].key <= sorted_tiles[index - 1].key`; there is no tile before the first.
pub not_increasing : Option PackingTile → PackingTile → Bool
not_increasing none t = false
not_increasing (some before) t = leb t.key.encoded before.key.encoded

pub check_tiles : (StopPoint → Bool) → ℕ → Option PackingTile → List PackingTile → Result (Unit {0})
unfolding cancelled_error not_increasing
check_tiles stop index before [] = success tt
check_tiles stop index before (t ∷ rest) =
    fail_if (index % 256 == 0 && stop (checking index)) cancelled_error
    >> (fail_if (ltb u32_max t.payload_bytes) (
          with_tile_key
            (make_error ErrorCode.arithmetic_overflow
              "tile payload exceeds the v1 uint32 size limit")
            t.key.encoded)
        >> (fail_if (not_increasing before t) (
              with_tile_key
                (make_error ErrorCode.invalid_argument
                  "canonical pack planning requires strictly increasing TileKeys")
                t.key.encoded)
            >> check_tiles stop (suc index) (some t) rest))

-- The inner loop, on the tiles from `end'` on; it returns the final `end'`.
pub grow : (StopPoint → Bool) → ℕ → ℕ → ℕ → ℕ → ℕ → ℕ → List PackingTile → Result ℕ
unfolding cancelled_error
grow stop target tile_face tile_level first end' bytes [] = success end'
grow stop target tile_face tile_level first end' bytes (t ∷ rest) =
    let candidate = u64 (align8 bytes + t.payload_bytes) in
    let more = grow stop target tile_face tile_level first (suc end') candidate rest in
    if not (face t.key == tile_face && level t.key == tile_level)
    then success end'
    else if end' % 256 == 0 && stop (growing first end')
    then failure cancelled_error
    else if ltb (u64_max - align8 bytes) t.payload_bytes
    then failure (
        with_tile_key
          (make_error ErrorCode.arithmetic_overflow "canonical pack size overflows uint64")
          t.key.encoded)
    else if end' /= first && ltb target candidate
    then success end'
    else more

-- The outer loop, on the tiles from `first` on: `none` where the fuel runs out.
pub plan_from :
    (StopPoint → Bool)
    → ℕ
    → ℕ
    → ℕ
    → List PackingTile
    → List CanonicalPackRange
    → Option (Result (List CanonicalPackRange))
unfolding cancelled_error grow
plan_from stop target fuel first [] ranges = some (success ranges)
plan_from stop target zero first (t ∷ rest) ranges = none
plan_from stop target (suc fuel) first (t ∷ rest) ranges =
    if stop (starting first)
    then some (failure cancelled_error)
    else elim (grow stop target (face t.key) (level t.key) first first pack_header (t ∷ rest)) [
      | failure e ↦ some (failure e)
      | success end' ↦
          plan_from stop target fuel end' (drop (end' - first) (t ∷ rest))
            (ranges ++ record { first_tile = first; tile_count = end' - first } ∷ [])
    ]

pub is_empty : List PackingTile → Bool
is_empty [] = true
is_empty (t ∷ rest) = false

pub plan_canonical_pack_ranges :
    (StopPoint → Bool) → List PackingTile → ℕ → Option (Result (List CanonicalPackRange))
unfolding check_tiles plan_from is_empty
plan_canonical_pack_ranges stop sorted_tiles target =
    if is_empty sorted_tiles || target == 0
    then some (
        failure (
          make_error ErrorCode.invalid_argument
            "canonical pack planning requires nonempty tiles and a positive target size"))
    else elim (check_tiles stop 0 none sorted_tiles) [
      | failure e ↦ some (failure e)
      | success u ↦ plan_from stop target (length sorted_tiles) 0 sorted_tiles []
    ]
