-- ===== src/Hierarchy.antt =====
-- The child masks of the tiles of a sparse hierarchy and their nearest ancestors, of
-- src/builder/hierarchy.cpp. Which tiles a hierarchy is planned to hold is not modelled.
pub mod Masks
pub mod Ancestors
mod Tests
use lunar_terrain_builder.Base.{
  ℕ, zero, suc, ◌+◌, ◌*◌, ◌^◌, bit_and, bit_or, ◌==◌, ltb, Bool, true, false, Option, none, some,
  List, [], ◌∷◌, length, get_or, set, replicate, if◌then◌else◌, u8, u32,
}
use Prim.Native.String.{String}
use lunar_terrain_builder.Error.{
  ErrorCode, Error, make_error, with_tile_key, Result, success, failure, fail_if, ◌>>=◌, ◌>>◌,
}
use lunar_terrain_builder.TileKey.{LunarTileKey, level, x, y, parent}

-- `std::map<std::uint64_t, std::size_t>`
abbrev pub KeyMap : Type 0
KeyMap = List (ℕ × ℕ)

-- `find`
unfoldable pub find_index : KeyMap → ℕ → Option ℕ
find_index [] e = none
find_index ((code, index) ∷ rest) e = if code == e then some index else find_index rest e

-- `hierarchy_error(code, message, key)`
abbrev pub hierarchy_error : ErrorCode → String → LunarTileKey → Error
hierarchy_error code message key = with_tile_key (make_error code message) key.encoded

unfoldable pub unsorted : Option LunarTileKey → LunarTileKey → Bool
unsorted none key = false
unsorted (some before) key = ltb key.encoded before.encoded

unfoldable pub is_some : Option ℕ → Bool
is_some none = false
is_some (some i) = true

-- The first loop of `materialized_child_masks`, from the tile at `index` on.
unfoldable pub index_tiles : Option LunarTileKey → ℕ → List LunarTileKey → KeyMap → Result KeyMap
unfolding find_index unsorted is_some
index_tiles before index [] by_key = success by_key
index_tiles before index (key ∷ rest) by_key = do
  fail_if (unsorted before key)
      (make_error ErrorCode.invalid_argument "materialized TileKeys must be sorted")
  fail_if (is_some (find_index by_key key.encoded)) (
      hierarchy_error ErrorCode.invalid_argument
        "materialized hierarchy contains a duplicate TileKey" key)
  index_tiles (some key) (index + 1) rest ((key.encoded, index) ∷ by_key)

unfoldable pub quadrant : LunarTileKey → ℕ
quadrant key = u8 (bit_or (bit_and (x key) 1) (u32 (bit_and (y key) 1 * 2 ^ 1)))

-- `masks[i] |= 1 << quadrant`
unfoldable pub mark : List ℕ → ℕ → ℕ → List ℕ
mark masks i q = set masks i (u8 (bit_or (get_or masks i 0) (u8 (2 ^ q))))

-- The second loop.
unfoldable pub mark_children : KeyMap → List LunarTileKey → List ℕ → Result (List ℕ)
unfolding find_index quadrant mark
mark_children by_key [] masks = success masks
mark_children by_key (key ∷ rest) masks = elim (parent key) [
  | none ↦ mark_children by_key rest masks
  | some p ↦ elim (find_index by_key p.encoded) [
    | none ↦ failure (
        hierarchy_error ErrorCode.invalid_argument "materialized hierarchy contains an orphan tile"
          key)
    | some i ↦ mark_children by_key rest (mark masks i (quadrant key))
  ]
]

unfoldable pub materialized_child_masks : List LunarTileKey → Result (List ℕ)
unfolding index_tiles mark_children
materialized_child_masks sorted_tiles = do
  by_key ← index_tiles none 0 sorted_tiles []
  mark_children by_key sorted_tiles (replicate (length sorted_tiles) 0)

-- `keys.contains(...)`
pub contains : List LunarTileKey → LunarTileKey → Bool
contains [] key = false
contains (t ∷ rest) key = if t.encoded == key.encoded then true else contains rest key

-- The loop of `nearest_materialized_ancestor`, in at most `fuel` rounds; `none` where they are not
-- enough.
pub climb :
    ℕ → LunarTileKey → List LunarTileKey → Option LunarTileKey → Option (Result LunarTileKey)
unfolding contains
climb fuel descendant tiles none =
    some
      (failure (hierarchy_error ErrorCode.not_found "tile has no materialized ancestor" descendant))
climb zero descendant tiles (some candidate) = none
climb (suc fuel) descendant tiles (some candidate) =
    if contains tiles candidate
    then some (success candidate)
    else climb fuel descendant tiles (parent candidate)

pub nearest_materialized_ancestor : LunarTileKey → List LunarTileKey → Option (Result LunarTileKey)
unfolding climb
nearest_materialized_ancestor descendant materialized_tiles =
    climb (level descendant) descendant materialized_tiles (parent descendant)
