-- ===== src/Hierarchy/Masks/Small.antt =====
-- Which bits a mask may have, and the masks of the last level.
use lunar_terrain_builder.Base.{
  ℕ, zero, suc, ◌/◌, ◌%◌, ◌^◌, ◌<◌, ◌≤◌, ◌≡◌, ◌≢◌, inl, inr, ap, subst, arith, some, List, [], ◌∷◌,
  All, All-Mem, length, get_or, get_elem?, set, replicate, Option-cases, bit_or, u8,
}
use lunar_terrain_builder.Base.Bits.{bit, bit_or_digit, bit_or-zero}
use native.Mathlib.Nat.{pow-le-pow_right}
use native.Mathlib.Decide.{ℕ_discrete}
use mathlib.Core.List.{Memᴰ}
use lunar_terrain_builder.Error.{success}
use lunar_terrain_builder.TileKey.{LunarTileKey, level, max_level, parent}
use lunar_terrain_builder.TileKey.Layout.{IsKey}
use lunar_terrain_builder.TileKey.Family.{parent_halves, parent-eq-none_iff}
use lunar_terrain_builder.Hierarchy.{
  KeyMap, find_index, quadrant, mark, mark_children, materialized_child_masks,
}
use lunar_terrain_builder.Hierarchy.Masks.{quadrant-eq}
use lunar_terrain_builder.Hierarchy.Masks.Index.{masks_bit, materialized-parts}

abbrev pub IsMask : ℕ → Type 0
IsMask m = m < 16

bit_or-IsMask : (a b : ℕ) → a < 16 → b < 16 → bit_or a b < 16
bit_or-IsMask a b ha hb =
    let za : a / 2 / 2 / 2 / 2 ≡ 0 = omega arith in
    let zb : b / 2 / 2 / 2 / 2 ≡ 0 = omega arith in
    let top : bit_or (a / 2 / 2 / 2 / 2) (b / 2 / 2 / 2 / 2) ≡ 0 = rw (za, zb) (bit_or-zero 0) in
    omega (
      arith,
      top,
      bit_or_digit a b,
      bit_or_digit (a / 2) (b / 2),
      bit_or_digit (a / 2 / 2) (b / 2 / 2),
      bit_or_digit (a / 2 / 2 / 2) (b / 2 / 2 / 2),
    )

set-IsMask : (masks : List ℕ) (i m : ℕ) → All IsMask masks → IsMask m → All IsMask (set masks i m)
set-IsMask [] i m all h = tt
set-IsMask (x ∷ masks) zero m all h = (h, all.1)
set-IsMask (x ∷ masks) (suc i) m all h = (all.0, set-IsMask masks i m all.1 h)

pub get_or-IsMask : (masks : List ℕ) (i : ℕ) → All IsMask masks → IsMask (get_or masks i 0)
get_or-IsMask [] i all = omega arith
get_or-IsMask (x ∷ masks) zero all = all.0
get_or-IsMask (x ∷ masks) (suc i) all = get_or-IsMask masks i all.1

mark-IsMask : (masks : List ℕ) (i q : ℕ) → q < 4 → All IsMask masks → All IsMask (mark masks i q)
unfolding mark
mark-IsMask masks i q h all =
    let small : 2 ^ q ≤ 2 ^ 3 = pow-le-pow_right (omega arith) {j = 3} (omega arith) in
    let both =
      bit_or-IsMask (get_or masks i 0) (u8 (2 ^ q)) (get_or-IsMask masks i all) (omega arith) in
    set-IsMask masks i _ all (omega (arith, both))

mark_children-IsMask :
    (by_key : KeyMap) (tiles : List LunarTileKey) (masks out : List ℕ)
    → mark_children by_key tiles masks ≡ success out
    → All IsMask masks
    → All IsMask out
unfolding mark_children
mark_children-IsMask by_key [] masks out h all =
    let same : masks ≡ out = cc in subst (All IsMask) same all
mark_children-IsMask by_key (key ∷ tiles) masks out h all = elim (Option-cases (parent key)) [
  | inl root ↦ mark_children-IsMask by_key tiles masks out (rw (root, mark_children) at h) all
  | inr (p, above) ↦ elim (Option-cases (find_index by_key p.encoded)) [
    | inl orphan ↦ cc (rw (above, orphan, mark_children) at h)
    | inr (i, found) ↦
        mark_children-IsMask by_key tiles (mark masks i (quadrant key)) out
          (rw (above, found, mark_children) at h)
          (mark-IsMask masks i (quadrant key) (omega (arith, quadrant-eq key)) all)
  ]
]

blank-IsMask : (n : ℕ) → All IsMask (replicate n 0)
blank-IsMask zero = tt
blank-IsMask (suc n) = (omega arith, blank-IsMask n)

digit : (n : ℕ) → n % 2 ≢ 1 → n % 2 ≡ 0
digit n h = omega arith

module _ (tiles : List LunarTileKey) (masks : List ℕ)
    (made : materialized_child_masks tiles ≡ success masks) where
  pub masks-IsMask : All IsMask masks
  masks-IsMask =
      let (by_key, indexed, marked) = materialized-parts tiles masks made in
      mark_children-IsMask by_key tiles (replicate (length tiles) 0) masks marked
        (blank-IsMask (length tiles))

  pub masks_last :
      (i : ℕ) (t : LunarTileKey)
      → All IsKey tiles
      → get_elem? tiles i ≡ some t
      → max_level ≤ level t
      → get_or masks i 0 ≡ 0
  masks_last i t keys at last =
      let small = get_or-IsMask masks i masks-IsMask in
      omega (
        arith,
        small,
        unset 0 (omega arith),
        unset 1 (omega arith),
        unset 2 (omega arith),
        unset 3 (omega arith),
      )
    where
      childless : (key : LunarTileKey) → Memᴰ key tiles → parent key ≡ some t → ⊥
      childless key m up' =
          let v = All-Mem IsKey tiles key keys m in
          let (p, up'', half) =
            parent_halves key v (λ root. cc ((parent-eq-none_iff key).1 root, up')) in
          let same : p ≡ t = cc in omega (arith, ap level same, half.at_level, v.level_ok, last)

      unset : (q : ℕ) → q < 4 → bit q (get_or masks i 0) ≡ 0
      unset q h = elim (ℕ_discrete (bit q (get_or masks i 0)) 1) [
        | yes b ↦
            let (key, m, up', there) = (masks_bit tiles masks i t q made at h).0 b in
            absurd (childless key m up')
        | no different ↦ digit _ different
      ]
