-- ===== src/Hierarchy/Masks/Children.antt =====
-- The masks that `materialized_child_masks` returns.
use lunar_terrain_builder.Base.{
  ℕ, ◌+◌, ◌-◌, ◌*◌, ◌/◌, ◌%◌, ◌<◌, ◌≡◌, ◌≢◌, ◌↔◌, ◌∙◌, refl, sym, subst, arith, some, List, All,
  All-Mem, get_or, get_elem?,
}
use lunar_terrain_builder.Base.Bits.{bit}
use mathlib.Core.List.{Memᴰ}
use lunar_terrain_builder.Error.{success}
use lunar_terrain_builder.TileKey.{
  LunarTileKey, face, level, x, y, max_level, parent, Children, children, create,
}
use lunar_terrain_builder.TileKey.Layout.{IsKey}
use lunar_terrain_builder.TileKey.Create.{IsAt, create-fields}
use lunar_terrain_builder.TileKey.Family.{
  nth, parent-eq-none_iff, parent_halves, children_quadrant, children-last,
}
use lunar_terrain_builder.Hierarchy.{quadrant, materialized_child_masks}
use lunar_terrain_builder.Hierarchy.Masks.{quadrant-eq}
use lunar_terrain_builder.Hierarchy.Masks.Index.{masks_bit, get_elem?-Mem}

-- Two well-formed keys in the same place are the same.
same_place : (f l a b : ℕ) (j k : LunarTileKey) → IsAt f l a b j → IsAt f l a b k → j ≡ k
same_place f l a b j k p q =
    let e : success j ≡ create f l a b =
      sym (create-fields j p.key) ∙ rw (p.at_face, p.at_level, p.at_x, p.at_y) in
    let e' : success k ≡ create f l a b =
      sym (create-fields k q.key) ∙ rw (q.at_face, q.at_level, q.at_x, q.at_y) in
    cc

-- The tile `t` has a well-formed child in quadrant `q`: the one key with this parent and quadrant.
child-of :
    (t key : LunarTileKey) (q : ℕ) (c : Children)
    → IsKey t
    → q < 4
    → children t ≡ success c
    → (IsKey key × (parent key ≡ some t) × (quadrant key ≡ q)) ↔ (key ≡ nth c q)
child-of t key q c v hq e =
    let inner : level t < max_level = omega (arith, v.level_ok, (children-last t).0 (rw e refl)) in
    let (c', e', at, up') = children_quadrant t q v inner hq in
    let same : c' ≡ c = cc in
    let at' : IsAt (face t) (level t + 1) (2 * x t + q % 2) (2 * y t + q / 2) (nth c q) =
      rw (← same) at in
    let above : parent (nth c q) ≡ some t = rw (← same) up' in
    (
      λ (w, p, here').
          let low : level key ≢ 0 = λ z. cc ((parent-eq-none_iff key).1 z, p) in
          let (t', p', half) = parent_halves key w low in
          let eq : t' ≡ t = cc in
          let half' : IsAt (face key) (level key - 1) (x key / 2) (y key / 2) t = rw (← eq) half in
          same_place _ _ _ _ key (nth c q)
            (record {
              key = w;
              at_face = sym half'.at_face;
              at_level = omega (arith, half'.at_level);
              at_x = omega (arith, half'.at_x, quadrant-eq key, here');
              at_y = omega (arith, half'.at_y, quadrant-eq key, here');
            })
            at',
      λ is_child.
          subst (λ k. IsKey k × (parent k ≡ some t) × (quadrant k ≡ q)) (sym is_child)
            (at'.key, above, omega (arith, quadrant-eq (nth c q), at'.at_x, at'.at_y)),
    )

-- On well-formed tiles, where `materialized_child_masks` succeeds, bit `q` of the mask of a tile
-- above level 28 is set exactly when the list holds the tile's child in place `q`.
pub masks_children :
    (tiles : List LunarTileKey) (masks : List ℕ) (i : ℕ) (t : LunarTileKey) (q : ℕ) (c : Children)
    → All IsKey tiles
    → materialized_child_masks tiles ≡ success masks
    → get_elem? tiles i ≡ some t
    → q < 4
    → children t ≡ success c
    → (bit q (get_or masks i 0) ≡ 1) ↔ Memᴰ (nth c q) tiles
masks_children tiles masks i t q c all h at hq e =
    let v = All-Mem IsKey tiles t all (get_elem?-Mem tiles i t at) in
    let (f, g) = masks_bit tiles masks i t q h at hq in
    (
      λ b.
          let (key, m, up', there) = f b in
          let child = (child-of t key q c v hq e).0 (All-Mem IsKey tiles key all m, up', there) in
          subst (λ k. Memᴰ k tiles) child m,
      λ m.
          let (w, up', there) = (child-of t (nth c q) q c v hq e).1 refl in
          g (nth c q, m, up', there),
    )
