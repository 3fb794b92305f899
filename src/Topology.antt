-- ===== src/Topology.antt =====
-- Edges of the quadrilateralized cube: include/lunar/terrain/qsc_topology.hpp and
-- src/core/qsc_topology.cpp, with the faces of include/lunar/terrain/qsc_projection.hpp.
pub mod Edges
pub mod Neighbor
use lunar_terrain_builder.Base.{
  ℕ, zero, suc, ◌+◌, ◌-◌, ◌^◌, Bool, true, false, not, ◌&&◌, ◌||◌, ltb, min, if◌then◌else◌, u8, u32,
}
use lunar_terrain_builder.Error.{
  ErrorCode, make_error, with_tile_key, Result, success, failure, ◌>>=◌,
}
use lunar_terrain_builder.TileKey
use lunar_terrain_builder.TileKey.{LunarTileKey}

-- An enumeration over one byte: a byte that names no enumerator is `unnamed`, counted from the
-- first such byte.
pub data QscFace : Type 0 where
  front right back left north south : QscFace
  unnamed : ℕ → QscFace

pub data QscEdge : Type 0 where
  west east south north : QscEdge
  unnamed : ℕ → QscEdge

-- `static_cast<QscFace>` of a byte
abbrev pub to_face : ℕ → QscFace
to_face zero = QscFace.front
to_face (suc zero) = QscFace.right
to_face (suc (suc zero)) = QscFace.back
to_face (suc (suc (suc zero))) = QscFace.left
to_face (suc (suc (suc (suc zero)))) = QscFace.north
to_face (suc (suc (suc (suc (suc zero))))) = QscFace.south
to_face (suc (suc (suc (suc (suc (suc n)))))) = QscFace.unnamed n

abbrev pub face_index : QscFace → ℕ
face_index QscFace.front = 0
face_index QscFace.right = 1
face_index QscFace.back = 2
face_index QscFace.left = 3
face_index QscFace.north = 4
face_index QscFace.south = 5
face_index (QscFace.unnamed n) = n + 6

abbrev pub edge_index : QscEdge → ℕ
edge_index QscEdge.west = 0
edge_index QscEdge.east = 1
edge_index QscEdge.south = 2
edge_index QscEdge.north = 3
edge_index (QscEdge.unnamed n) = n + 4

pub record QscEdgeConnection : Type 0 where
  pub face : QscFace
  pub edge : QscEdge
  pub reversed : Bool

abbrev connection : QscFace → QscEdge → Bool → QscEdgeConnection
connection f e r = record { face = f; edge = e; reversed = r }

-- The table `connections`, a row for each face; the default value where there is no such entry.
unfoldable pub connections : QscFace → QscEdge → QscEdgeConnection
connections QscFace.front QscEdge.west = connection QscFace.left QscEdge.east false
connections QscFace.front QscEdge.east = connection QscFace.right QscEdge.west false
connections QscFace.front QscEdge.south = connection QscFace.south QscEdge.north false
connections QscFace.front QscEdge.north = connection QscFace.north QscEdge.south false
connections QscFace.right QscEdge.west = connection QscFace.front QscEdge.east false
connections QscFace.right QscEdge.east = connection QscFace.back QscEdge.west false
connections QscFace.right QscEdge.south = connection QscFace.south QscEdge.east true
connections QscFace.right QscEdge.north = connection QscFace.north QscEdge.east false
connections QscFace.back QscEdge.west = connection QscFace.right QscEdge.east false
connections QscFace.back QscEdge.east = connection QscFace.left QscEdge.west false
connections QscFace.back QscEdge.south = connection QscFace.south QscEdge.south true
connections QscFace.back QscEdge.north = connection QscFace.north QscEdge.north true
connections QscFace.left QscEdge.west = connection QscFace.back QscEdge.east false
connections QscFace.left QscEdge.east = connection QscFace.front QscEdge.west false
connections QscFace.left QscEdge.south = connection QscFace.south QscEdge.west false
connections QscFace.left QscEdge.north = connection QscFace.north QscEdge.west true
connections QscFace.north QscEdge.west = connection QscFace.left QscEdge.north true
connections QscFace.north QscEdge.east = connection QscFace.right QscEdge.north false
connections QscFace.north QscEdge.south = connection QscFace.front QscEdge.north false
connections QscFace.north QscEdge.north = connection QscFace.back QscEdge.north true
connections QscFace.south QscEdge.west = connection QscFace.left QscEdge.south false
connections QscFace.south QscEdge.east = connection QscFace.right QscEdge.south true
connections QscFace.south QscEdge.south = connection QscFace.back QscEdge.south true
connections QscFace.south QscEdge.north = connection QscFace.front QscEdge.south false
connections _ _ = connection QscFace.front QscEdge.west false

abbrev pub valid_face : QscFace → Bool
valid_face f = ltb (face_index f) 6

abbrev pub valid_edge : QscEdge → Bool
valid_edge e = ltb (edge_index e) 4

unfoldable pub vertical_edge : QscEdge → Bool
vertical_edge QscEdge.west = true
vertical_edge QscEdge.east = true
vertical_edge _ = false

unfoldable pub qsc_edge_connection : QscFace → QscEdge → QscEdgeConnection
unfolding connections
qsc_edge_connection f e =
    if not (valid_face f) || not (valid_edge e)
    then connection QscFace.front QscEdge.west false
    else connections f e

pub qsc_face_owns_edge : QscFace → QscEdge → Bool
unfolding qsc_edge_connection
qsc_face_owns_edge f e =
    if not (valid_face f) || not (valid_edge e)
    then false
    else ltb (face_index f) (face_index (qsc_edge_connection f e).face)

pub qsc_corner_owner : QscFace → QscEdge → QscEdge → QscFace
unfolding qsc_edge_connection vertical_edge
qsc_corner_owner f u_edge v_edge =
    if not (valid_face f)
      || not (valid_edge u_edge)
      || not (valid_edge v_edge)
      || not (vertical_edge u_edge)
      || vertical_edge v_edge
    then f
    else let u_neighbor = (qsc_edge_connection f u_edge).face in
      let v_neighbor = (qsc_edge_connection f v_edge).face in
      to_face (min (min (face_index f) (face_index u_neighbor)) (face_index v_neighbor))

pub record QscTileNeighbor : Type 0 where
  pub key : LunarTileKey
  pub touching_edge : QscEdge
  pub reversed : Bool

-- The local variables of `qsc_tile_neighbor` after its `switch`.
pub record Walk : Type 0 where
  pub x : ℕ
  pub y : ℕ
  pub touching_edge : QscEdge
  pub crosses_face : Bool

abbrev moved : ℕ → ℕ → QscEdge → Walk
moved x y e = record { x = x; y = y; touching_edge = e; crosses_face = false }

abbrev crossed : ℕ → ℕ → Walk
crossed x y = record { x = x; y = y; touching_edge = QscEdge.west; crosses_face = true }

unfoldable pub walk : QscEdge → ℕ → ℕ → ℕ → Walk
walk QscEdge.west axis x y = if ltb 0 x then moved (x - 1) y QscEdge.east else crossed x y
walk QscEdge.east axis x y =
    if ltb (u32 (x + 1)) axis then moved (x + 1) y QscEdge.west else crossed x y
walk QscEdge.south axis x y = if ltb 0 y then moved x (y - 1) QscEdge.north else crossed x y
walk QscEdge.north axis x y =
    if ltb (u32 (y + 1)) axis then moved x (y + 1) QscEdge.south else crossed x y
walk (QscEdge.unnamed n) axis x y = record {
  x = x;
  y = y;
  touching_edge = QscEdge.west;
  crosses_face = false;
}

is_west : QscEdge → Bool
is_west QscEdge.west = true
is_west _ = false

is_south : QscEdge → Bool
is_south QscEdge.south = true
is_south _ = false

-- The place on the other face, `index` samples along its edge `touching`.
unfoldable pub enter : QscEdge → ℕ → ℕ → ℕ × ℕ
unfolding is_west is_south vertical_edge
enter touching axis index =
    if vertical_edge touching
    then ((if is_west touching then 0 else axis - 1), index)
    else (index, (if is_south touching then 0 else axis - 1))

-- The face, the place, the edge and the direction where the step ends.
pub record Landing : Type 0 where
  pub face : QscFace
  pub x : ℕ
  pub y : ℕ
  pub touching_edge : QscEdge
  pub reversed : Bool

unfoldable pub land : QscFace → QscEdge → ℕ → Walk → Landing
unfolding qsc_edge_connection enter vertical_edge
land f e axis w =
    if w.crosses_face
    then (let c = qsc_edge_connection f e in
        let along = if vertical_edge e then w.y else w.x in
        let index = if c.reversed then axis - 1 - along else along in
        let (x, y) = enter c.edge axis index in
        record { face = c.face; x = x; y = y; touching_edge = c.edge; reversed = c.reversed })
    else record { face = f; x = w.x; y = w.y; touching_edge = w.touching_edge; reversed = false }

unfoldable pub qsc_tile_neighbor : LunarTileKey → QscEdge → Result QscTileNeighbor
qsc_tile_neighbor key edge =
    if not (valid_edge edge)
    then failure
        (with_tile_key (make_error ErrorCode.invalid_argument "QSC edge is not valid") key.encoded)
    else let axis = u32 (2 ^ TileKey.level key) in
      let end' =
        land (to_face (TileKey.face key)) edge axis
          (walk edge axis (TileKey.x key) (TileKey.y key)) in
      do
        neighbor ← TileKey.create (u8 (face_index end'.face)) (TileKey.level key) end'.x end'.y
        success (record {
          key = neighbor;
          touching_edge = end'.touching_edge;
          reversed = end'.reversed;
        })
