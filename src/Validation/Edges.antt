-- ===== src/Validation/Edges.antt =====
-- What the test of one edge has found out when it succeeds.
use lunar_terrain_builder.Base.{
  ℕ, ◌+◌, ◌<◌, ◌≡◌, ◌∙◌, inl, inr, sym, ap, String, false, some, List, [], ◌∷◌, leb, ◌/=◌, /=→eq,
  lt→leb_false, Option-cases, u64,
}
use lunar_terrain_builder.Base.Maps.{find}
use mathlib.Core.List.{Memᴰ}
use mathlib.Core.List.Memᴰ.{cases_cons}
use lunar_terrain_builder.Error.{Error, success, ◌>>◌, >>=-eq-success}
use lunar_terrain_builder.TileKey.{LunarTileKey}
use lunar_terrain_builder.Topology.{QscEdge, QscTileNeighbor, qsc_tile_neighbor}
use lunar_terrain_builder.Database.Tiles.{DecodedChannel, DecodedTerrainTile}
use lunar_terrain_builder.Validation.{
  TileMap, core_vertices, elevation_channel, read_u16, serialized_edge_index, mapped,
  compare_samples, compare_edge, check_edge, check_edges, validation_error,
}
use lunar_terrain_builder.Validation.Loops.{tests_false}

-- Both tiles have an elevation channel, and along the edge every sample of the first is that of the
-- second at the same place.
pub record Agree (t u : DecodedTerrainTile) (edge : QscEdge) (n : QscTileNeighbor) : Type 0 where
  pub source : DecodedChannel
  pub destination : DecodedChannel
  pub of_first : elevation_channel t ≡ some source
  pub of_second : elevation_channel u ≡ some destination
  pub samples :
      (p : ℕ)
      → p < core_vertices
      → read_u16 source.bytes (serialized_edge_index edge p)
        ≡ read_u16 destination.bytes (serialized_edge_index n.touching_edge (mapped n p))

compare_samples-agree :
    (source destination : DecodedChannel) (edge : QscEdge) (n : QscTileNeighbor) (e : Error)
    → compare_samples source destination edge n e ≡ success tt
    → (p : ℕ) → p < core_vertices
    → read_u16 source.bytes (serialized_edge_index edge p)
      ≡ read_u16 destination.bytes (serialized_edge_index n.touching_edge (mapped n p))
unfolding compare_samples
compare_samples-agree source destination edge n e h p lt = /=→eq _ _ (
    tests_false core_vertices
      (λ parameter.
        read_u16 source.bytes (serialized_edge_index edge parameter)
        /= read_u16 destination.bytes (serialized_edge_index n.touching_edge (mapped n parameter)))
      e h p lt)

module _ (path : String) (by_key : TileMap) (key : LunarTileKey) where
  pub check_edge-Agree :
      (source : DecodedChannel) (edge : QscEdge) (n : QscTileNeighbor) (v w : ℕ)
      (t u : DecodedTerrainTile)
      → elevation_channel t ≡ some source
      → find by_key n.key.encoded ≡ some u
      → key.encoded < n.key.encoded
      → check_edge path by_key key source v edge n ≡ success w
      → Agree t u edge n
  unfolding check_edge compare_edge
  check_edge-Agree source edge n v w t u own found less h =
      let after : leb n.key.encoded key.encoded ≡ false =
        lt→leb_false key.encoded n.key.encoded less in
      elim (Option-cases (elevation_channel u)) [
        | inl without ↦ cc (rw (found, check_edge, after, without) at h)
        | inr (destination, other) ↦
            let t' : (compare_samples source destination edge n
                    (validation_error "same-level QSC edge samples are not byte-identical" path key)
                  >> success (u64 (v + 1)))
                ≡ success w =
              rw (found, check_edge, after, other) at h in
            let (s, compared, last) =
              >>=-eq-success (compare_samples source destination edge n _) _ t' in
            record {
              source = source;
              destination = destination;
              of_first = own;
              of_second = other;
              samples = compare_samples-agree source destination edge n _ compared;
            }
      ]

  -- The loop over the edges has checked each of them.
  pub check_edges-Mem :
      (source : DecodedChannel) (es : List QscEdge) (v w : ℕ) (edge : QscEdge) (n : QscTileNeighbor)
      → check_edges path by_key key source es v ≡ success w
      → Memᴰ edge es
      → qsc_tile_neighbor key edge ≡ success n
      → (v' : ℕ) × (w' : ℕ) × (check_edge path by_key key source v' edge n ≡ success w')
  unfolding check_edges
  check_edges-Mem source [] v w edge n h m at = elim m [ ]
  check_edges-Mem source (e ∷ es) v w edge n h m at =
      let (n', near, more) = >>=-eq-success (qsc_tile_neighbor key e) _ h in
      let (w', checked, rest) = >>=-eq-success (check_edge path by_key key source v e n') _ more in
      elim (cases_cons m) [
        | inl same ↦
            let one : n' ≡ n =
              unwrap n' n (sym near ∙ ap (qsc_tile_neighbor key) (sym same) ∙ at) in
            (v, w', ap₂' same one ∙ checked)
        | inr m' ↦ check_edges-Mem source es w' w edge n rest m' at
      ]
    where
      unwrap : (a b : QscTileNeighbor) → success a ≡ success b → a ≡ b
      unwrap a b f = cc

      ap₂' :
          {d e' : QscEdge} {a b : QscTileNeighbor}
          → d ≡ e'
          → a ≡ b
          → check_edge path by_key key source v d b ≡ check_edge path by_key key source v e' a
      ap₂' f g = λ i. check_edge path by_key key source v (f i) (sym g i)
