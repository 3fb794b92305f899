-- ===== src/Tests/Keys.antt =====
-- The tile on the back face, at level 3, with the Morton code 37.
use lunar_terrain_builder.Base.{◌+◌, ◌-◌, ◌*◌, ◌/◌, ◌%◌, ◌^◌, ◌≡◌, ◌↔◌, refl, arith, true, some}
use lunar_terrain_builder.Error.{success}
use lunar_terrain_builder.TileKey.{
  LunarTileKey, face, level, x, y, create, from_encoded, parent, Children, children,
}
use lunar_terrain_builder.TileKey.Layout.{IsKey, packed, packed-IsKey, level-packed}
use lunar_terrain_builder.TileKey.Create.{IsAt, create_place, from_encoded_iff}
use lunar_terrain_builder.TileKey.Family.{nth, parent_halves, children_quadrant}
use lunar_terrain_builder.TileKey.Text.{to_string, parse}
use lunar_terrain_builder.TileKey.Text.Canonical.{parse_iff}
use lunar_terrain_builder.Topology.{
  QscFace, QscEdge, QscTileNeighbor, valid_edge, qsc_corner_owner, qsc_tile_neighbor, vertical_edge,
}
use lunar_terrain_builder.Topology.Edges.{corner_agreed, across, owner}
use lunar_terrain_builder.Topology.Neighbor.{neighbor_mutual}
use lunar_terrain_builder.Database.Query.{in_subtree}
use lunar_terrain_builder.Database.Query.Subtree.{IsBelow, in_subtree-IsBelow_iff}

abbrev tile : LunarTileKey
tile = packed 2 3 37

abbrev root : LunarTileKey
root = packed 2 0 0

tile-IsKey : IsKey tile
tile-IsKey = packed-IsKey 2 3 37 (omega arith) (omega arith) (omega arith)

root-IsKey : IsKey root
root-IsKey = packed-IsKey 2 0 0 (omega arith) (omega arith) (omega arith)

tile-level : level tile ≡ 3
tile-level = level-packed 2 3 37 (omega arith) (omega arith) (omega arith)

neighbor_mutual_example :
    (n : QscTileNeighbor) × (qsc_tile_neighbor tile QscEdge.west ≡ success n)
    × IsKey n.key
    × (level n.key ≡ level tile)
    × (valid_edge n.touching_edge ≡ true)
    × (qsc_tile_neighbor n.key n.touching_edge
        ≡ success (record { key = tile; touching_edge = QscEdge.west; reversed = n.reversed }))
neighbor_mutual_example = neighbor_mutual tile QscEdge.west tile-IsKey refl

corner_agreed_example :
    (owner (across QscFace.left QscEdge.west QscEdge.north)
      ≡ qsc_corner_owner QscFace.left QscEdge.west QscEdge.north)
    × (owner (across QscFace.left QscEdge.north QscEdge.west)
        ≡ qsc_corner_owner QscFace.left QscEdge.west QscEdge.north)
corner_agreed_example =
    corner_agreed QscFace.left QscEdge.west QscEdge.north refl refl refl
      (unfold vertical_edge in refl) (unfold vertical_edge in refl)

parse_iff_example :
    (parse (to_string tile) ≡ success tile) ↔ (IsKey tile × (to_string tile ≡ to_string tile))
parse_iff_example = parse_iff (to_string tile) tile

create_place_example : (k : LunarTileKey) × (create 4 2 3 1 ≡ success k) × IsAt 4 2 3 1 k
create_place_example = create_place 4 2 3 1 (record {
  face_range = omega arith;
  level_range = omega arith;
  x_range = omega arith;
  y_range = omega arith;
})

from_encoded_iff_example :
    (from_encoded (2 ^ 62 + 1) ≡ success tile) ↔ (IsKey tile × (tile.encoded ≡ 2 ^ 62 + 1))
from_encoded_iff_example = from_encoded_iff (2 ^ 62 + 1) tile (omega arith)

parent_halves_example :
    (p : LunarTileKey) × (parent tile ≡ some p)
    × IsAt (face tile) (level tile - 1) (x tile / 2) (y tile / 2) p
parent_halves_example = parent_halves tile tile-IsKey (λ z. omega (arith, tile-level))

children_quadrant_example :
    (c : Children) × (children tile ≡ success c)
    × IsAt (face tile) (level tile + 1) (2 * x tile + 2 % 2) (2 * y tile + 2 / 2) (nth c 2)
    × (parent (nth c 2) ≡ some tile)
children_quadrant_example =
    children_quadrant tile 2 tile-IsKey (omega (arith, tile-level)) (omega arith)

in_subtree_example : (in_subtree tile root ≡ true) ↔ IsBelow root tile
in_subtree_example = in_subtree-IsBelow_iff tile root tile-IsKey root-IsKey
