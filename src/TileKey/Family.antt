-- ===== src/TileKey/Family.antt =====
-- `parent` and `children` of a tile: the quadtree below a face.
use lunar_terrain_builder.Base.{
  ℕ, zero, suc, ◌+◌, ◌-◌, ◌*◌, ◌/◌, ◌%◌, ◌^◌, ◌≤◌, ◌<◌, bit_or, ◌≡◌, ◌≢◌, ◌∙◌, ◌↔◌, refl, ap, arith,
  u8, u64, none, some, ◌==◌, true, false,
}
use lunar_terrain_builder.Base.Bits.{shifted-bit_or}
use lunar_terrain_builder.Error.{success, has_value}
use lunar_terrain_builder.TileKey.{
  LunarTileKey, face, level, morton, x, y, max_level, parent, Children, child_prefix, children,
}
use lunar_terrain_builder.TileKey.Morton.{
  evens, odds, pow-double-suc, evens-child, odds-child, evens-parent, odds-parent,
}
use lunar_terrain_builder.TileKey.Layout.{
  IsKey, packed, join_fields, x-evens, y-odds, face-packed, level-packed, morton-packed, morton-lt,
  code-lt, packed-IsKey, packed-fields, encoded-eq,
}
use lunar_terrain_builder.TileKey.Create.{IsAt}

-- The child in place `i` of the array; the places 0 to 3 are its only ones.
abbrev pub nth : Children → ℕ → LunarTileKey
nth c zero = c.child0
nth c (suc zero) = c.child1
nth c (suc (suc zero)) = c.child2
nth c (suc (suc (suc i))) = c.child3

-- The child in quadrant `i`, by its fields.
abbrev pub quadrant_key : LunarTileKey → ℕ → LunarTileKey
quadrant_key k i = packed (face k) (suc (level k)) (4 * morton k + i)

module _ (k : LunarTileKey) (v : IsKey k) where
  code_shift : level k < max_level → u64 (morton k * 2 ^ 2) ≡ morton k * 2 ^ 2
  code_shift h = omega (arith, morton-lt k)

  child_code : (i : ℕ) → i < 4 → 4 * morton k + i < 2 ^ (2 * suc (level k))
  child_code i h = omega (arith, pow-double-suc (level k), v.code_fits)

  child_small : (i : ℕ) → level k < max_level → i < 4 → 4 * morton k + i < 2 ^ 56
  child_small i h hi = code-lt (suc (level k)) _ h (child_code i hi)

  prefix-packed : level k < max_level → child_prefix k ≡ (quadrant_key k 0).encoded
  unfolding child_prefix
  prefix-packed h =
      let next : u8 (level k + 1) ≡ suc (level k) = omega arith in
      rw (next, code_shift h)
        (join_fields (face k) (suc (level k)) (morton k * 2 ^ 2) (omega (arith, v.face_ok))
            (omega arith) (omega (arith, child_small 0 h (omega arith)))
          ∙ omega arith)

  pub quadrant-IsKey : (i : ℕ) → level k < max_level → i < 4 → IsKey (quadrant_key k i)
  quadrant-IsKey i h hi = packed-IsKey _ _ _ v.face_ok h (child_code i hi)

  -- `prefix | i` writes the quadrant into the two bits that the shift left empty.
  prefix-bit_or :
      (i : ℕ) → level k < max_level → i < 4 → bit_or (child_prefix k) i ≡ (quadrant_key k i).encoded
  prefix-bit_or i h hi =
      let quarter : child_prefix k ≡ (face k * 2 ^ 59 + suc (level k) * 2 ^ 54 + morton k) * 2 ^ 2 =
        omega (arith, prefix-packed h) in
      rw quarter (shifted-bit_or 2 i _ hi ∙ omega arith)

  abbrev quadrants : Children
  quadrants = record {
    child0 = quadrant_key k 0;
    child1 = quadrant_key k 1;
    child2 = quadrant_key k 2;
    child3 = quadrant_key k 3;
  }

  children-quadrants : level k < max_level → children k ≡ success quadrants
  unfolding children
  children-quadrants h =
      let more : (level k == max_level) ≡ false = ground arith in
      rw (
        more,
        prefix-bit_or 1 h (omega arith),
        prefix-bit_or 2 h (omega arith),
        prefix-bit_or 3 h (omega arith),
        prefix-packed h,
      )

  nth-quadrants : (i : ℕ) → i < 4 → nth quadrants i ≡ quadrant_key k i
  nth-quadrants zero h = refl
  nth-quadrants (suc zero) h = refl
  nth-quadrants (suc (suc zero)) h = refl
  nth-quadrants (suc (suc (suc zero))) h = refl
  nth-quadrants (suc (suc (suc (suc i)))) h = absurd (omega arith)

  quadrant-IsAt :
      (i : ℕ)
      → level k < max_level
      → i < 4
      → IsAt (face k) (level k + 1) (2 * x k + i % 2) (2 * y k + i / 2) (quadrant_key k i)
  quadrant-IsAt i h hi =
      let small = child_small i h hi in
      let lev =
        level-packed (face k) (suc (level k)) _ (omega (arith, v.face_ok)) (omega arith) small in
      let code =
        morton-packed (face k) (suc (level k)) _ (omega (arith, v.face_ok)) (omega arith) small in
      record {
        key = quadrant-IsKey i h hi;
        at_face =
            face-packed (face k) (suc (level k)) _ (omega (arith, v.face_ok)) (omega arith) small;
        at_level = omega (arith, lev);
        at_x =
            x-evens _ (rw lev h)
            ∙ rw (lev, code, x-evens k v.level_ok) (evens-child (level k) (morton k) i hi);
        at_y =
            y-odds _ (rw lev h)
            ∙ rw (lev, code, y-odds k v.level_ok) (odds-child (level k) (morton k) i hi);
      }

-- The tile one level up, by its fields.
abbrev pub parent_key : LunarTileKey → LunarTileKey
parent_key k = packed (face k) (level k - 1) (morton k / 4)

module _ (k : LunarTileKey) (v : IsKey k) (below : level k ≢ 0) where
  parent_level : suc (level k - 1) ≡ level k
  parent_level = omega arith

  parent_code : morton k / 4 < 2 ^ (2 * (level k - 1))
  parent_code =
      let fits : morton k < 2 ^ (2 * suc (level k - 1)) = rw parent_level v.code_fits in
      omega (arith, fits, pow-double-suc (level k - 1))

  parent_small : morton k / 4 < 2 ^ 56
  parent_small = omega (arith, morton-lt k)

  pub parent-packed : parent k ≡ some (parent_key k)
  unfolding parent
  parent-packed =
      let more : (level k == 0) ≡ false = ground arith in
      rw (
        more,
        join_fields (face k) (level k - 1) (morton k / 4) (omega (arith, v.face_ok))
            (omega (arith, v.level_ok)) parent_small,
      )

  pub parent_key-IsAt : IsAt (face k) (level k - 1) (x k / 2) (y k / 2) (parent_key k)
  parent_key-IsAt =
      let lev =
        level-packed (face k) (level k - 1) _ (omega (arith, v.face_ok)) (omega (arith, v.level_ok))
          parent_small in
      let code =
        morton-packed (face k) (level k - 1) _ (omega (arith, v.face_ok))
          (omega (arith, v.level_ok)) parent_small in
      let fits : level k - 1 ≤ 28 = omega (arith, v.level_ok) in
      record {
        key = packed-IsKey _ _ _ v.face_ok fits parent_code;
        at_face =
            face-packed (face k) (level k - 1) _ (omega (arith, v.face_ok))
              (omega (arith, v.level_ok)) parent_small;
        at_level = lev;
        at_x =
            x-evens _ (rw lev fits)
            ∙ rw (lev, code, x-evens k v.level_ok)
                (evens-parent (level k - 1) (morton k)
                  ∙ ap (λ (l : ℕ). evens l (morton k) / 2) parent_level);
        at_y =
            y-odds _ (rw lev fits)
            ∙ rw (lev, code, y-odds k v.level_ok)
                (odds-parent (level k - 1) (morton k)
                  ∙ ap (λ (l : ℕ). odds l (morton k) / 2) parent_level);
      }

  pub parent_key-morton : morton (parent_key k) ≡ morton k / 4
  parent_key-morton =
      morton-packed (face k) (level k - 1) _ (omega (arith, v.face_ok)) (omega (arith, v.level_ok))
        parent_small

  -- The parent of a well-formed key below the root is the well-formed key of the same face, one
  -- level up, at half of each coordinate.
  pub parent_halves :
      (p : LunarTileKey) × (parent k ≡ some p) × IsAt (face k) (level k - 1) (x k / 2) (y k / 2) p
  parent_halves = (parent_key k, parent-packed, parent_key-IsAt)

  -- A key is the child of the tile one level up in the quadrant of its last two Morton bits.
  pub parent_quadrant : quadrant_key (parent_key k) (morton k % 4) ≡ k
  parent_quadrant =
      let at = parent_key-IsAt in
      let lev =
        level-packed (face k) (level k - 1) _ (omega (arith, v.face_ok)) (omega (arith, v.level_ok))
          parent_small in
      let code =
        morton-packed (face k) (level k - 1) _ (omega (arith, v.face_ok))
          (omega (arith, v.level_ok)) parent_small in
      encoded-eq (
        omega (
          arith,
          at.at_face,
          lev,
          code,
          ap (λ (j : LunarTileKey). j.encoded) (packed-fields k v.fits),
        ))

-- A tile has no parent exactly when its level is 0.
pub parent-eq-none_iff : (k : LunarTileKey) → (parent k ≡ none) ↔ (level k ≡ 0)
unfolding parent
parent-eq-none_iff k = (λ h. ground arith, λ h. ground arith)

module _ (k : LunarTileKey) (i : ℕ) (v : IsKey k) (h : level k < max_level) (hi : i < 4) where
  parent-quadrant_key : parent (quadrant_key k i) ≡ some k
  parent-quadrant_key =
      let at = quadrant-IsAt k v i h hi in
      let code =
        morton-packed (face k) (suc (level k)) _ (omega (arith, v.face_ok)) (omega arith)
          (child_small k v i h hi) in
      parent-packed (quadrant_key k i) at.key (omega (arith, at.at_level))
      ∙ ap some (
          encoded-eq (
            omega (
              arith,
              at.at_face,
              at.at_level,
              code,
              ap (λ (j : LunarTileKey). j.encoded) (packed-fields k v.fits),
            )))

  -- Below level 28 the array of children holds, in place i, the well-formed key one level down at
  -- (2x + i % 2, 2y + i / 2) on the same face, and its parent is the tile itself.
  pub children_quadrant :
      (c : Children) × (children k ≡ success c)
      × IsAt (face k) (level k + 1) (2 * x k + i % 2) (2 * y k + i / 2) (nth c i)
      × (parent (nth c i) ≡ some k)
  children_quadrant = (
    quadrants k v,
    children-quadrants k v h,
    rw (nth-quadrants k v i hi) (quadrant-IsAt k v i h hi),
    rw (nth-quadrants k v i hi) parent-quadrant_key,
  )

-- `children` succeeds exactly when the level is not the last one, 28.
pub children-last : (k : LunarTileKey) → (has_value (children k) ≡ true) ↔ (level k ≢ max_level)
unfolding children
children-last k = (λ h. ground arith, λ h. ground arith)
