-- ===== src/Staging/Corners/Samples.antt =====
-- The indices of src/builder/tile_staging.cpp into a core of 257 by 257 samples.
use lunar_terrain_builder.Base.{
  ℕ, ◌-◌, ◌*◌, ◌<◌, ◌≡◌, ◌⊎◌, inl, inr, refl, sym, subst, arith, Bool, true, false,
}
use lunar_terrain_builder.Topology.{QscEdge}
use lunar_terrain_builder.Validation.{core_vertices}
use lunar_terrain_builder.Staging.Corners.{
  core_sample_count, edge_core_index, edge_corner, corner_core_index, corner_number, Corner,
  mirrored, corner_node,
}

at_start : (edge : QscEdge) → corner_core_index (edge_corner edge 0) ≡ edge_core_index edge 0
unfolding corner_core_index edge_corner edge_core_index
at_start QscEdge.west = refl
at_start QscEdge.east = refl
at_start QscEdge.south = refl
at_start QscEdge.north = refl
at_start (QscEdge.unnamed n) = refl

at_end :
    (edge : QscEdge)
    → corner_core_index (edge_corner edge (core_vertices - 1))
      ≡ edge_core_index edge (core_vertices - 1)
unfolding corner_core_index edge_corner edge_core_index
at_end QscEdge.west = refl
at_end QscEdge.east = refl
at_end QscEdge.south = refl
at_end QscEdge.north = refl
at_end (QscEdge.unnamed n) = refl

-- At either end of an edge, the sample of the edge is the sample of the corner there.
pub corner_core_index-edge_corner :
    (edge : QscEdge) (parameter : ℕ)
    → (parameter ≡ 0) ⊎ (parameter ≡ core_vertices - 1)
    → corner_core_index (edge_corner edge parameter) ≡ edge_core_index edge parameter
corner_core_index-edge_corner edge p (inl e) =
    subst (λ q. corner_core_index (edge_corner edge q) ≡ edge_core_index edge q) (sym e)
      (at_start edge)
corner_core_index-edge_corner edge p (inr e) =
    subst (λ q. corner_core_index (edge_corner edge q) ≡ edge_core_index edge q) (sym e)
      (at_end edge)

pub edge_core_index-lt :
    (edge : QscEdge) (parameter : ℕ)
    → parameter < core_vertices
    → edge_core_index edge parameter < core_sample_count
unfolding edge_core_index
edge_core_index-lt QscEdge.west p h = omega arith
edge_core_index-lt QscEdge.east p h = omega arith
edge_core_index-lt QscEdge.south p h = omega arith
edge_core_index-lt QscEdge.north p h = omega arith
edge_core_index-lt (QscEdge.unnamed n) p h = omega arith

pub corner_core_index-lt : (corner : Corner) → corner_core_index corner < core_sample_count
unfolding corner_core_index
corner_core_index-lt Corner.south_west = omega arith
corner_core_index-lt Corner.south_east = omega arith
corner_core_index-lt Corner.north_west = omega arith
corner_core_index-lt Corner.north_east = omega arith

corner_number-lt : (corner : Corner) → corner_number corner < 4
corner_number-lt Corner.south_west = omega arith
corner_number-lt Corner.south_east = omega arith
corner_number-lt Corner.north_west = omega arith
corner_number-lt Corner.north_east = omega arith

pub corner_node-lt :
    (tile_index n : ℕ) (corner : Corner) → tile_index < n → corner_node tile_index corner < n * 4
unfolding corner_node
corner_node-lt tile_index n corner h = omega (arith, corner_number-lt corner)

pub mirrored-lt :
    (reversed : Bool) (p : ℕ) → p < core_vertices → mirrored reversed p < core_vertices
unfolding mirrored
mirrored-lt true p h = omega arith
mirrored-lt false p h = h
