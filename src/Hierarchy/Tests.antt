-- ===== src/Hierarchy/Tests.antt =====
-- Two tiles of a face: its root and one tile of level 1.
use lunar_terrain_builder.Base.{◌≡◌, ◌↔◌, refl, arith, some, List, [], ◌∷◌, get_or}
use lunar_terrain_builder.Base.Bits.{bit}
use mathlib.Core.List.{Memᴰ}
use mathlib.Core.List.Memᴰ.{head, tail}
use lunar_terrain_builder.Hierarchy.Masks.Closed.{masks_closed}
use lunar_terrain_builder.Error.{success}
use lunar_terrain_builder.TileKey.{
  LunarTileKey, Children, face, level, morton, x, y, x_bit, y_bit, parent, children, child_prefix,
}
use lunar_terrain_builder.TileKey.Layout.{IsKey, packed, packed-IsKey}
use lunar_terrain_builder.TileKey.Family.{nth}
use lunar_terrain_builder.Hierarchy.{
  materialized_child_masks, index_tiles, find_index, unsorted, is_some, quadrant, mark,
  mark_children, nearest_materialized_ancestor,
}
use lunar_terrain_builder.Hierarchy.Masks.Children.{masks_children}
use lunar_terrain_builder.Hierarchy.Ancestors.{
  IsAbove, Nearest, nearest_materialized_ancestor-Nearest,
}

abbrev root : LunarTileKey
root = packed 0 0 0

abbrev north : LunarTileKey
north = packed 0 1 2

abbrev two_tiles : List LunarTileKey
two_tiles = root ∷ north ∷ []

root-IsKey : IsKey root
root-IsKey = packed-IsKey 0 0 0 (omega arith) (omega arith) (omega arith)

north-IsKey : IsKey north
north-IsKey = packed-IsKey 0 1 2 (omega arith) (omega arith) (omega arith)

masks_run : materialized_child_masks two_tiles ≡ success (4 ∷ 0 ∷ [])
unfolding materialized_child_masks index_tiles find_index unsorted is_some quadrant mark
    mark_children face level morton x y x_bit y_bit parent
masks_run = refl

abbrev root_children : Children
root_children = record {
  child0 = packed 0 1 0;
  child1 = packed 0 1 1;
  child2 = packed 0 1 2;
  child3 = packed 0 1 3;
}

children_run : children root ≡ success root_children
unfolding children child_prefix face level morton
children_run = refl

masks_children_example :
    (bit 2 (get_or (4 ∷ 0 ∷ []) 0 0) ≡ 1) ↔ Memᴰ (nth root_children 2) two_tiles
masks_children_example =
    masks_children two_tiles (4 ∷ 0 ∷ []) 0 root 2 root_children (root-IsKey, (north-IsKey, tt))
      masks_run refl (omega arith) children_run

-- The children of `north` have no other materialized ancestor than itself and the root.
ancestor_example :
    Nearest
      (packed 0 2 9)
      two_tiles
      (λ b. IsAbove b (packed 0 2 9))
      (nearest_materialized_ancestor (packed 0 2 9) two_tiles)
ancestor_example =
    nearest_materialized_ancestor-Nearest (packed 0 2 9) two_tiles
      (packed-IsKey 0 2 9 (omega arith) (omega arith) (omega arith))

parent_run : parent north ≡ some root
unfolding parent face level morton
parent_run = refl

masks_closed_example : Memᴰ root two_tiles
masks_closed_example =
    masks_closed two_tiles (4 ∷ 0 ∷ []) north root masks_run (tail (head refl)) parent_run
