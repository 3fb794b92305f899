-- ===== src/Validation/Seams.antt =====
-- What `validate_seams` has found out when it succeeds.
use lunar_terrain_builder.Base.{
  ℕ, suc, ◌+◌, ◌<◌, ◌≡◌, ◌≢◌, ◌⊎◌, ◌∙◌, inl, inr, refl, sym, ap, subst, arith, String, true, some,
  [], ◌∷◌, length, All, All-Mem, ltb, ltb→lt, ◌==◌, Bool-cases, Option-cases,
}
use lunar_terrain_builder.Base.Maps.{find}
use mathlib.Core.List.{Memᴰ}
use mathlib.Core.List.Memᴰ.{head, tail, cases_cons}
use lunar_terrain_builder.Error.{success, >>=-eq-success}
use lunar_terrain_builder.Execution.{Moments, check_execution}
use lunar_terrain_builder.TileKey.{LunarTileKey}
use lunar_terrain_builder.TileKey.Layout.{IsKey, encoded-eq}
use lunar_terrain_builder.Topology.{QscEdge, QscTileNeighbor, valid_edge, qsc_tile_neighbor}
use lunar_terrain_builder.Topology.Neighbor.{neighbor_mutual}
use lunar_terrain_builder.Database.Index.{TileIndexEntry}
use lunar_terrain_builder.Database.Tiles.{DecodedTerrainTile}
use lunar_terrain_builder.Validation.{
  TileList, TileMap, core_vertices, elevation_channel, read_u16, serialized_edge_index, mapped,
  edges, check_edges, index_decoded, check_source, check_seams, validate_seams,
}
use lunar_terrain_builder.Validation.Loops.{tile_of, index_decoded-tile_of, tile_of-Mem}
use lunar_terrain_builder.Validation.Edges.{Agree, check_edge-Agree, check_edges-Mem}

module _ (moments : Moments) (path : String) (by_key : TileMap) where
  check_seams-Mem :
      (tiles : TileList) (n v w : ℕ) (entry : TileIndexEntry) (t : DecodedTerrainTile)
      → check_seams moments path by_key tiles n v ≡ success w
      → Memᴰ (entry, t) tiles
      → (v' : ℕ) × (w' : ℕ) × (check_source moments path by_key entry.key (elevation_channel t) v'
          ≡ success w')
  unfolding check_seams
  check_seams-Mem [] n v w entry t h m = elim m [ ]
  check_seams-Mem ((e, tile) ∷ rest) n v w entry t h m =
      let (ok, checked, more) = >>=-eq-success (check_execution (moments n)) _ h in
      let (w', source, others) =
        >>=-eq-success (check_source moments path by_key e.key (elevation_channel tile) v) _ more in
      elim (cases_cons m) [
        | inl same ↦ (
          v,
          w',
          ap
                (λ (p : TileIndexEntry × DecodedTerrainTile).
                  check_source moments path by_key p.0.key (elevation_channel p.1) v)
                same
              ∙ source,
        )
        | inr m' ↦ check_seams-Mem rest (suc n) w' w entry t others m'
      ]

  -- Seen from the tile with the smaller key.
  from_smaller :
      (key : LunarTileKey) (t u : DecodedTerrainTile) (edge : QscEdge) (n : QscTileNeighbor)
      (v w : ℕ)
      → Memᴰ edge edges
      → check_source moments path by_key key (elevation_channel t) v ≡ success w
      → qsc_tile_neighbor key edge ≡ success n
      → find by_key n.key.encoded ≡ some u
      → key.encoded < n.key.encoded
      → Agree t u edge n
  unfolding check_source
  from_smaller key t u edge n v w m h near found less = elim (Option-cases (elevation_channel t)) [
    | inl without ↦ cc (rw (without, check_source) at h)
    | inr (source, own) ↦
        let g : check_edges path by_key key source edges v ≡ success w =
          rw (own, check_source) at h in
        let (v', w', checked) = check_edges-Mem path by_key key source edges v w edge n g m near in
        check_edge-Agree path by_key key source edge n v' w' t u own found less checked
  ]

edges-Mem : (edge : QscEdge) → valid_edge edge ≡ true → Memᴰ edge edges
edges-Mem QscEdge.west h = head refl
edges-Mem QscEdge.east h = tail (head refl)
edges-Mem QscEdge.south h = tail (tail (head refl))
edges-Mem QscEdge.north h = tail (tail (tail (head refl)))
edges-Mem (QscEdge.unnamed n) h = absurd (omega (arith, ltb→lt (n + 4) 4 h))

mapped-mapped :
    (n : QscTileNeighbor) (p : ℕ) (k : LunarTileKey) (e : QscEdge)
    → p < core_vertices
    → (mapped n p < core_vertices)
      × (mapped (record { key = k; touching_edge = e; reversed = n.reversed }) (mapped n p) ≡ p)
unfolding mapped
mapped-mapped n p k e h = elim (Bool-cases n.reversed) [
  | inl turned ↦ rw turned (omega arith, omega arith)
  | inr straight ↦ rw straight (h, refl)
]

-- The same agreement, seen from the other tile.
Agree-back :
    (t u : DecodedTerrainTile) (k : LunarTileKey) (edge : QscEdge) (n : QscTileNeighbor)
    → Agree u t n.touching_edge (record { key = k; touching_edge = edge; reversed = n.reversed })
    → Agree t u edge n
Agree-back t u k edge n a = record {
  source = a.destination;
  destination = a.source;
  of_first = a.of_second;
  of_second = a.of_first;
  samples = λ p lt.
      let (inside, back) = mapped-mapped n p k edge lt in
      sym (
        a.samples (mapped n p) inside
        ∙ ap (λ (q : ℕ). read_u16 a.destination.bytes (serialized_edge_index edge q)) back);
}

order : (a b : ℕ) → (a < b) ⊎ ((a ≡ b) ⊎ (b < a))
order a b = elim (Bool-cases (ltb a b)) [
  | inl less ↦ inl (ltb→lt a b less)
  | inr not_less ↦ elim (Bool-cases (a == b)) [
    | inl equal ↦ inr (inl (ground arith))
    | inr differ ↦ inr (inr (ground arith))
  ]
]

-- Where `validate_seams` succeeds on tiles with well-formed keys, any two different tiles of the
-- list that are neighbours over an edge have elevation channels whose samples along that edge are
-- the same, in the order that the direction flag gives, whichever of the two keys is the smaller.
pub validate_seams-Agree :
    (moments : Moments) (path : String) (tiles : TileList) (count : ℕ) (key : LunarTileKey)
    (edge : QscEdge) (n : QscTileNeighbor) (t u : DecodedTerrainTile)
    → All (λ (p : TileIndexEntry × DecodedTerrainTile). IsKey p.0.key) tiles
    → validate_seams moments path tiles ≡ success count
    → valid_edge edge ≡ true
    → tile_of tiles key.encoded ≡ some t
    → qsc_tile_neighbor key edge ≡ success n
    → tile_of tiles n.key.encoded ≡ some u
    → key ≢ n.key
    → Agree t u edge n
unfolding validate_seams
validate_seams-Agree moments path tiles count key edge n t u keys h valid first near second differ =
    let (by_key, indexed, checked) = >>=-eq-success (index_decoded moments path tiles 0 []) _ h in
    let finds = index_decoded-tile_of moments path tiles 0 [] by_key indexed in
    let (entry, own, m) = tile_of-Mem tiles key t first in
    let (entry', own', m') = tile_of-Mem tiles n.key u second in
    let v : IsKey key = subst IsKey own (All-Mem _ tiles (entry, t) keys m) in
    let (w, source, done) =
      check_seams-Mem moments path by_key tiles (length tiles) 0 count entry t checked m in
    let (w', source', done') =
      check_seams-Mem moments path by_key tiles (length tiles) 0 count entry' u checked m' in
    elim (order key.encoded n.key.encoded) [
      | inl less ↦
          from_smaller moments path by_key key t u edge n w source (edges-Mem edge valid)
            (ap (λ k. check_source moments path by_key k (elevation_channel t) w) (sym own) ∙ done)
            near (finds n.key.encoded ∙ unfold find in second) less
      | inr rest ↦ elim rest [
        | inl equal ↦ absurd (differ (encoded-eq equal))
        | inr more ↦
            let (n', near', valid_key, same_level, touching, back) =
              neighbor_mutual key edge v valid in
            let one : n' ≡ n = unwrap n' n (sym near' ∙ near) in
            let back' : qsc_tile_neighbor n.key n.touching_edge
                ≡ success (record { key = key; touching_edge = edge; reversed = n.reversed }) =
              subst
                (λ (x : QscTileNeighbor).
                  qsc_tile_neighbor x.key x.touching_edge
                  ≡ success (record { key = key; touching_edge = edge; reversed = x.reversed }))
                one back in
            Agree-back t u key edge n (
              from_smaller moments path by_key n.key u t n.touching_edge _ w' source'
                (edges-Mem n.touching_edge
                  (subst (λ (x : QscTileNeighbor). valid_edge x.touching_edge ≡ true) one touching))
                (ap (λ k. check_source moments path by_key k (elevation_channel u) w') (sym own')
                  ∙ done')
                back' (finds key.encoded ∙ unfold find in first) more)
      ]
    ]
  where
    unwrap : (a b : QscTileNeighbor) → success a ≡ success b → a ≡ b
    unwrap a b f = cc
