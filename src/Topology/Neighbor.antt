-- ===== src/Topology/Neighbor.antt =====
-- `qsc_tile_neighbor`: the neighbour of a tile over an edge, and the way back.
use lunar_terrain_builder.Base.{
  ℕ, zero, suc, ◌^◌, ◌≤◌, ◌<◌, ◌≡◌, ◌∙◌, refl, ap, true, false, arith, u8, u32,
}
use lunar_terrain_builder.Error.{ErrorCode, FailsWith, success}
use lunar_terrain_builder.TileKey
use lunar_terrain_builder.TileKey.{LunarTileKey}
use lunar_terrain_builder.TileKey.Layout.{IsKey}
use lunar_terrain_builder.TileKey.Create.{
  IsAt, IsPlace, create_place, create-fields, fields-IsPlace,
}
use lunar_terrain_builder.Topology.{
  QscFace, QscEdge, to_face, face_index, valid_face, valid_edge, QscTileNeighbor, walk, Landing,
  land, qsc_tile_neighbor,
}
use native.Mathlib.Nat.{pow-le-pow_right}

-- One step over an edge on a grid of `axis` tiles a side.
abbrev step : QscFace → QscEdge → ℕ → ℕ → ℕ → Landing
step f e axis x y = land f e axis (walk e axis x y)

record IsBack (f : QscFace) (e : QscEdge) (axis x y : ℕ) (l : Landing) : Type 0 where
  on_cube : valid_face l.face ≡ true
  on_edge : valid_edge l.touching_edge ≡ true
  x_range : l.x < axis
  y_range : l.y < axis
  back :
      step l.face l.touching_edge axis l.x l.y
      ≡ record { face = f; x = x; y = y; touching_edge = e; reversed = l.reversed }

step-IsBack :
    (f : QscFace) (e : QscEdge) (axis x y : ℕ)
    → valid_face f ≡ true
    → valid_edge e ≡ true
    → axis ≤ 2 ^ 28
    → x < axis
    → y < axis
    → IsBack f e axis x y (step f e axis x y)
unfolding land walk
step-IsBack QscFace.front QscEdge.west axis x y hf he ha hx hy = ground arith
step-IsBack _ _ axis x y hf he ha hx hy = ground arith

pub to_face-valid : (n : ℕ) → n ≤ 5 → (valid_face (to_face n) ≡ true) × (face_index (to_face n) ≡ n)
to_face-valid zero h = (refl, refl)
to_face-valid (suc zero) h = (refl, refl)
to_face-valid (suc (suc zero)) h = (refl, refl)
to_face-valid (suc (suc (suc zero))) h = (refl, refl)
to_face-valid (suc (suc (suc (suc zero)))) h = (refl, refl)
to_face-valid (suc (suc (suc (suc (suc zero))))) h = (refl, refl)
to_face-valid (suc (suc (suc (suc (suc (suc n)))))) h = absurd (omega arith)

to_face-index :
    (f : QscFace) → valid_face f ≡ true → (to_face (u8 (face_index f)) ≡ f) × (face_index f ≤ 5)
to_face-index QscFace.front h = (refl, omega arith)
to_face-index QscFace.right h = (refl, omega arith)
to_face-index QscFace.back h = (refl, omega arith)
to_face-index QscFace.left h = (refl, omega arith)
to_face-index QscFace.north h = (refl, omega arith)
to_face-index QscFace.south h = (refl, omega arith)
to_face-index (QscFace.unnamed n) h = ground arith

-- The number of tiles on a side, as `std::uint32_t{1} << level`.
axis-eq : (l : ℕ) → l ≤ 28 → (u32 (2 ^ l) ≡ 2 ^ l) × (2 ^ l ≤ 2 ^ 28)
axis-eq l h =
    let top : 2 ^ l ≤ 2 ^ 28 = pow-le-pow_right (omega arith) {j = 28} h in (omega arith, top)

-- The step of `qsc_tile_neighbor` from a key.
abbrev landing : LunarTileKey → QscEdge → Landing
landing k e =
    step (to_face (TileKey.face k)) e (u32 (2 ^ TileKey.level k)) (TileKey.x k) (TileKey.y k)

-- The landing of a well-formed key is a place of the grid.
landing-IsBack :
    (k : LunarTileKey) (e : QscEdge)
    → IsKey k
    → valid_edge e ≡ true
    → IsBack
        (to_face (TileKey.face k))
        e
        (u32 (2 ^ TileKey.level k))
        (TileKey.x k)
        (TileKey.y k)
        (landing k e)
landing-IsBack k e v he =
    let p = fields-IsPlace k v in
    let (same, top) = axis-eq (TileKey.level k) v.level_ok in
    step-IsBack _ e _ _ _ (to_face-valid (TileKey.face k) v.face_ok).0 he (omega (arith, same, top))
      (omega (arith, same, p.x_range)) (omega (arith, same, p.y_range))

landing-IsPlace :
    (k : LunarTileKey) (e : QscEdge)
    → IsKey k
    → valid_edge e ≡ true
    → IsPlace (u8 (face_index (landing k e).face)) (TileKey.level k) (landing k e).x (landing k e).y
landing-IsPlace k e v he =
    let b = landing-IsBack k e v he in
    let (same, top) = axis-eq (TileKey.level k) v.level_ok in
    record {
      face_range = omega (arith, (to_face-index (landing k e).face b.on_cube).1);
      level_range = v.level_ok;
      x_range = omega (arith, same, b.x_range);
      y_range = omega (arith, same, b.y_range);
    }

-- What `qsc_tile_neighbor` returns: the key at the landing.
neighbor-landing :
    (k : LunarTileKey) (e : QscEdge) (n : LunarTileKey)
    → valid_edge e ≡ true
    → TileKey.create
        (u8 (face_index (landing k e).face))
        (TileKey.level k)
        (landing k e).x
        (landing k e).y
      ≡ success n
    → qsc_tile_neighbor k e
      ≡ success (record {
        key = n;
        touching_edge = (landing k e).touching_edge;
        reversed = (landing k e).reversed;
      })
unfolding qsc_tile_neighbor
neighbor-landing k e n he made = rw (he, made)

neighbor-at :
    (k : LunarTileKey) (e : QscEdge) (l : Landing) (n : LunarTileKey)
    → valid_edge e ≡ true
    → landing k e ≡ l
    → TileKey.create (u8 (face_index l.face)) (TileKey.level k) l.x l.y ≡ success n
    → qsc_tile_neighbor k e
      ≡ success (record { key = n; touching_edge = l.touching_edge; reversed = l.reversed })
neighbor-at k e l n he same made =
    neighbor-landing k e n he (
      ap (λ (m : Landing). TileKey.create (u8 (face_index m.face)) (TileKey.level k) m.x m.y) same
      ∙ made)
    ∙ ap
        (λ (m : Landing).
          success (record { key = n; touching_edge = m.touching_edge; reversed = m.reversed }))
        same

-- From a key at the landing the step over the touching edge comes back to where it started.
landing_back :
    (k : LunarTileKey) (e : QscEdge) (n : LunarTileKey)
    → IsKey k
    → valid_edge e ≡ true
    → IsAt (u8 (face_index (landing k e).face)) (TileKey.level k) (landing k e).x (landing k e).y n
    → landing n (landing k e).touching_edge ≡ record {
      face = to_face (TileKey.face k);
      x = TileKey.x k;
      y = TileKey.y k;
      touching_edge = e;
      reversed = (landing k e).reversed;
    }
landing_back k e n v he at =
    let b = landing-IsBack k e v he in
    rw (at.at_face, at.at_level, at.at_x, at.at_y, (to_face-index (landing k e).face b.on_cube).0)
      b.back

-- For a well-formed key and one of the four edges, the neighbour exists: a well-formed key of the same level.
-- From it, the neighbour over the touching edge is the key itself, back over the edge that was
-- crossed first and with the same direction flag.
pub neighbor_mutual :
    (k : LunarTileKey) (e : QscEdge)
    → IsKey k
    → valid_edge e ≡ true
    → (n : QscTileNeighbor) × (qsc_tile_neighbor k e ≡ success n)
      × IsKey n.key
      × (TileKey.level n.key ≡ TileKey.level k)
      × (valid_edge n.touching_edge ≡ true)
      × (qsc_tile_neighbor n.key n.touching_edge
          ≡ success (record { key = k; touching_edge = e; reversed = n.reversed }))
neighbor_mutual k e v he =
    let (n, made, at) = create_place _ _ _ _ (landing-IsPlace k e v he) in
    let b = landing-IsBack k e v he in
    let back = landing_back k e n v he at in
    let home : u8 (face_index (to_face (TileKey.face k))) ≡ TileKey.face k =
      omega (arith, (to_face-valid (TileKey.face k) v.face_ok).1, v.face_ok) in
    (
      record {
        key = n;
        touching_edge = (landing k e).touching_edge;
        reversed = (landing k e).reversed;
      },
      neighbor-landing k e n he made,
      at.key,
      at.at_level,
      b.on_edge,
      neighbor-at n _ _ k b.on_edge back (rw (home, at.at_level) (create-fields k v)),
    )

-- An edge outside the enumeration is refused.
pub neighbor_refused :
    (k : LunarTileKey) (e : QscEdge)
    → valid_edge e ≡ false
    → FailsWith ErrorCode.invalid_argument (qsc_tile_neighbor k e)
unfolding qsc_tile_neighbor
neighbor_refused k e h = rw h refl
