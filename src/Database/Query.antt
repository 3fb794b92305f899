-- ===== src/Database/Query.antt =====
-- The queries of `LunarTerrainDatabase` in src/core/database.cpp.
pub mod Subtree
pub mod Find
use lunar_terrain_builder.Base.{
  ℕ, ◌+◌, ◌-◌, ◌*◌, ◌/◌, ◌^◌, Bool, true, false, not, ◌&&◌, ◌||◌, Option, none, some, List, [], ◌∷◌,
  ◌++◌, ltb, ◌==◌, ◌/=◌, u8, if◌then◌else◌,
}
use lunar_terrain_builder.Error.{Result, success, failure}
use lunar_terrain_builder.ByteIo.{Bytes}
use lunar_terrain_builder.TileKey.{LunarTileKey, face, level, morton, Children, children}
use lunar_terrain_builder.Database.Header.{DatabaseHeader}
use lunar_terrain_builder.Database.Packs.{PackInfo}
use lunar_terrain_builder.Database.Index.{TileIndexEntry}
use lunar_terrain_builder.Database.Open.{DatabaseState}

pub in_subtree : LunarTileKey → LunarTileKey → Bool
in_subtree candidate root =
    if face candidate /= face root || ltb (level candidate) (level root)
    then false
    else morton candidate / 2 ^ (2 * u8 (level candidate - level root)) == morton root

-- `std::ranges::lower_bound` on entries in order of their keys, and the test of what it finds: the
-- first entry whose key is not less.
unfoldable pub lookup : List TileIndexEntry → LunarTileKey → Option TileIndexEntry
lookup [] key = none
lookup (e ∷ rest) key =
    if ltb e.key.encoded key.encoded
    then lookup rest key
    else if e.key.encoded == key.encoded
    then some e
    else none

pub find_tile : DatabaseState → LunarTileKey → Option TileIndexEntry
unfolding lookup
find_tile state key = lookup state.index key

pub append_found : Option TileIndexEntry → List TileIndexEntry → List TileIndexEntry
append_found none result = result
append_found (some e) result = result ++ e ∷ []

-- `Children(parent)`
pub child_entries : DatabaseState → LunarTileKey → List TileIndexEntry
unfolding append_found
child_entries state parent = elim (children parent) [
  | failure e ↦ []
  | success keys ↦ append_found (find_tile state keys.child3) (
      append_found (find_tile state keys.child2) (
        append_found (find_tile state keys.child1) (append_found (find_tile state keys.child0) [])))
]

pub subtree_entries : LunarTileKey → List TileIndexEntry → List TileIndexEntry
unfolding in_subtree
subtree_entries root [] = []
subtree_entries root (e ∷ rest) =
    if in_subtree e.key root then e ∷ subtree_entries root rest else subtree_entries root rest

pub query_subtree : DatabaseState → LunarTileKey → List TileIndexEntry
unfolding subtree_entries
query_subtree state root = subtree_entries root state.index

pub leaf_entries : LunarTileKey → List TileIndexEntry → List TileIndexEntry
unfolding in_subtree
leaf_entries root [] = []
leaf_entries root (e ∷ rest) =
    if e.materialized_child_mask == 0 && in_subtree e.key root
    then e ∷ leaf_entries root rest
    else leaf_entries root rest

pub query_leaves : DatabaseState → LunarTileKey → List TileIndexEntry
unfolding leaf_entries
query_leaves state root = leaf_entries root state.index
