-- ===== src/Topology/Edges.antt =====
-- The table of cube edges, seen from both sides of an edge and from the faces at a corner.
use lunar_terrain_builder.Base.{◌≡◌, refl, Bool, true, false, not, arith, if◌then◌else◌}
use lunar_terrain_builder.Topology.{
  QscFace, QscEdge, valid_face, valid_edge, vertical_edge, qsc_edge_connection, qsc_face_owns_edge,
  qsc_corner_owner,
}

-- For the six faces and the four edges, crossing an edge and crossing back leads to the same edge of the same face, with the same
-- direction flag.
pub connection_back :
    (f : QscFace) (e : QscEdge)
    → valid_face f ≡ true
    → valid_edge e ≡ true
    → qsc_edge_connection (qsc_edge_connection f e).face (qsc_edge_connection f e).edge
      ≡ record { face = f; edge = e; reversed = (qsc_edge_connection f e).reversed }
unfolding qsc_edge_connection
connection_back QscFace.front QscEdge.west hf he = refl
connection_back _ _ hf he = ground arith

-- For the six faces and the four edges, exactly one of the two faces at an edge owns it.
pub one_owner :
    (f : QscFace) (e : QscEdge)
    → valid_face f ≡ true
    → valid_edge e ≡ true
    → qsc_face_owns_edge f e
      ≡ not (qsc_face_owns_edge (qsc_edge_connection f e).face (qsc_edge_connection f e).edge)
unfolding qsc_face_owns_edge
one_owner QscFace.front QscEdge.west hf he = refl
one_owner _ _ hf he = ground arith

-- A corner of a face: a west or east edge and a south or north edge.
pub record Corner : Type 0 where
  pub face : QscFace
  pub u_edge : QscEdge
  pub v_edge : QscEdge

-- The far end of an edge in the order of its samples.
abbrev pub high_end : QscEdge → Bool
high_end QscEdge.east = true
high_end QscEdge.north = true
high_end _ = false

-- The end of an edge as a corner of its face.
abbrev pub edge_end : QscFace → QscEdge → Bool → Corner
edge_end f QscEdge.west high = record {
  face = f;
  u_edge = QscEdge.west;
  v_edge = if high then QscEdge.north else QscEdge.south;
}
edge_end f QscEdge.east high = record {
  face = f;
  u_edge = QscEdge.east;
  v_edge = if high then QscEdge.north else QscEdge.south;
}
edge_end f e high = record {
  face = f;
  u_edge = if high then QscEdge.east else QscEdge.west;
  v_edge = e;
}

-- The same corner of the cube, seen from the face across the edge `e`, whose other edge at that
-- corner is `other`.
abbrev pub across : QscFace → QscEdge → QscEdge → Corner
across f e other =
    let c = qsc_edge_connection f e in
    edge_end c.face c.edge (if c.reversed then not (high_end other) else high_end other)

abbrev pub owner : Corner → QscFace
owner c = qsc_corner_owner c.face c.u_edge c.v_edge

-- At the corner between a vertical and a horizontal edge of one of the six faces, the two faces
-- across these edges name the same owner as the face itself.
pub corner_agreed :
    (f : QscFace) (u v : QscEdge)
    → valid_face f ≡ true
    → valid_edge u ≡ true
    → valid_edge v ≡ true
    → vertical_edge u ≡ true
    → vertical_edge v ≡ false
    → (owner (across f u v) ≡ qsc_corner_owner f u v)
      × (owner (across f v u) ≡ qsc_corner_owner f u v)
unfolding qsc_corner_owner
corner_agreed QscFace.front QscEdge.west QscEdge.south hf hu hv wu wv = (refl, refl)
corner_agreed _ _ _ hf hu hv wu wv = ground arith
