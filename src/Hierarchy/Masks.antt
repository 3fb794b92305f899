-- ===== src/Hierarchy/Masks.antt =====
-- The child masks against the list of tiles.
pub mod Index
pub mod Children
pub mod Closed
pub mod Small
use lunar_terrain_builder.Base.{
  ℕ, zero, suc, ◌+◌, ◌-◌, ◌*◌, ◌/◌, ◌%◌, ◌^◌, ◌≤◌, ◌<◌, ◌≡◌, ◌≢◌, ◌⊎◌, ◌↔◌, inl, inr, ◌∙◌, refl,
  sym, ap, subst, arith, max, ◌==◌, Bool, true, false, Option, none, some, List, [], ◌∷◌, All,
  length, length-set, get_or, get_or-set, get_elem?, set, replicate, Bool-cases, Option-cases,
  some-injective, u8, u32, bit_or, bit_and,
}
use lunar_terrain_builder.Base.Bits.{
  bit, bit_or-bit, bit_and-one, bit_or-shifted, pow-bit_self, pow-bit_other,
}
use native.Mathlib.Nat.{pow-le-pow_right}
use native.Mathlib.Decide.{ℕ_discrete}
use mathlib.Core.List.{Memᴰ}
use mathlib.Core.List.Memᴰ.{head, tail, cases_cons}
use lunar_terrain_builder.Error.{Result, success, failure, Result-cases}
use lunar_terrain_builder.TileKey.{LunarTileKey, level, x, y, parent}
use lunar_terrain_builder.TileKey.Layout.{IsKey, encoded-eq}
use lunar_terrain_builder.Hierarchy.{
  KeyMap, find_index, unsorted, is_some, index_tiles, quadrant, mark, mark_children,
  materialized_child_masks,
}

small_bit : (k n : ℕ) → k < 4 → bit k (u8 n) ≡ bit k n
small_bit zero n h = omega arith
small_bit (suc zero) n h = omega arith
small_bit (suc (suc zero)) n h = omega arith
small_bit (suc (suc (suc zero))) n h = omega arith
small_bit (suc (suc (suc (suc k)))) n h = absurd (omega arith)

pub quadrant-eq : (key : LunarTileKey) → quadrant key ≡ x key % 2 + 2 * (y key % 2)
unfolding quadrant
quadrant-eq key =
    let even : u32 (bit_and (y key) 1 * 2 ^ 1) ≡ y key % 2 * 2 ^ 1 =
      omega (arith, bit_and-one (y key)) in
    rw (even, bit_and-one (x key), bit_or-shifted 1 (x key % 2) (y key % 2) (omega arith))
      (omega arith)

-- A mark sets one bit.
mark-bit :
    (masks : List ℕ) (j i q k : ℕ)
    → j < length masks
    → q < 4
    → k < 4
    → (bit k (get_or (mark masks j q) i 0) ≡ 1)
      ↔ ((bit k (get_or masks i 0) ≡ 1) ⊎ (j ≡ i) × (q ≡ k))
unfolding mark
mark-bit masks j i q k h hq hk =
    let small : 2 ^ q ≤ 2 ^ 3 = pow-le-pow_right (omega arith) {j = 3} (omega arith) in
    let word : u8 (2 ^ q) ≡ 2 ^ q = omega arith in
    let here' = get_or-set masks j i (u8 (bit_or (get_or masks j 0) (u8 (2 ^ q)))) 0 h in
    elim (ℕ_discrete j i) [
      | no other ↦
          let same : get_or (set masks j (u8 (bit_or (get_or masks j 0) (u8 (2 ^ q))))) i 0
              ≡ get_or masks i 0 =
            ground (arith, here') in
          rw same (inl, λ c. elim c [ inl b ↦ b | inr (e, f) ↦ absurd (other e) ])
      | yes same ↦
          let set_here : get_or (set masks j (u8 (bit_or (get_or masks j 0) (u8 (2 ^ q))))) i 0
              ≡ u8 (bit_or (get_or masks j 0) (2 ^ q)) =
            ground (arith, here', word) in
          let old : get_or masks j 0 ≡ get_or masks i 0 = ap (λ (n : ℕ). get_or masks n 0) same in
          let value : bit k (get_or (set masks j (u8 (bit_or (get_or masks j 0) (u8 (2 ^ q))))) i 0)
              ≡ max (bit k (get_or masks i 0)) (bit k (2 ^ q)) =
            ap (bit k) set_here
            ∙ small_bit k _ hk
            ∙ bit_or-bit k (get_or masks j 0) (2 ^ q)
            ∙ ap (λ (n : ℕ). max (bit k n) (bit k (2 ^ q))) old in
          elim (ℕ_discrete q k) [
            | yes equal ↦
                let one : bit k (2 ^ q) ≡ 1 =
                  ap (λ (n : ℕ). bit k (2 ^ n)) equal ∙ pow-bit_self k in
                (λ b. inr (same, equal), λ c. omega (arith, value, one))
            | no different ↦
                let nothing = pow-bit_other q k different in
                (
                  λ b. inl (omega (arith, value, nothing)),
                  λ c. elim c [
                    | inl b ↦ omega (arith, value, nothing)
                    | inr (e, f) ↦ absurd (different f)
                  ],
                )
          ]
    ]

-- A tile of the list is the child in quadrant `k` of the tile with index `i`.
abbrev pub ChildAt : KeyMap → List LunarTileKey → ℕ → ℕ → Type 0
ChildAt by_key tiles i k =
    (key : LunarTileKey) × (p : LunarTileKey) × Memᴰ key tiles
    × (parent key ≡ some p)
    × (find_index by_key p.encoded ≡ some i)
    × (quadrant key ≡ k)

length-mark : (masks : List ℕ) (j q : ℕ) → length (mark masks j q) ≡ length masks
unfolding mark
length-mark masks j q = length-set {0} masks j (u8 (bit_or (get_or masks j 0) (u8 (2 ^ q))))

module _ (by_key : KeyMap) (i k : ℕ) (hk : k < 4) where
  pub mark_children-bit :
      (tiles : List LunarTileKey) (masks out : List ℕ)
      → ((e j : ℕ) → find_index by_key e ≡ some j → j < length masks)
      → mark_children by_key tiles masks ≡ success out
      → (bit k (get_or out i 0) ≡ 1) ↔ ((bit k (get_or masks i 0) ≡ 1) ⊎ ChildAt by_key tiles i k)
  unfolding mark_children
  mark_children-bit [] masks out bound e =
      let same : masks ≡ out = ground arith in
      rw (← same) (inl, λ c. elim c [ inl b ↦ b | inr (key, p, m, a, b, c) ↦ elim m [ ] ])
  mark_children-bit (key ∷ tiles) masks out bound e = elim (Option-cases (parent key)) [
    | inl root ↦
        let (f, g) = mark_children-bit tiles masks out bound (rw (root, mark_children) at e) in
        (
          λ b. elim (f b) [
            | inl old ↦ inl old
            | inr (key', p, m, a, b', c) ↦ inr (key', p, tail m, a, b', c)
          ],
          λ c. elim c [
            | inl old ↦ g (inl old)
            | inr (key', p, m, up', at', there) ↦ elim (cases_cons m) [
              | inl same ↦ cc (ap parent same, root, up')
              | inr m' ↦ g (inr (key', p, m', up', at', there))
            ]
          ],
        )
    | inr (p, above) ↦ elim (Option-cases (find_index by_key p.encoded)) [
      | inl orphan ↦ cc (rw (above, orphan, mark_children) at e)
      | inr (j, found) ↦
          let small : quadrant key < 4 = omega (arith, quadrant-eq key) in
          let inside = bound p.encoded j found in
          let kept : length (mark masks j (quadrant key)) ≡ length masks =
            length-mark masks j (quadrant key) in
          let (f, g) =
            mark_children-bit tiles (mark masks j (quadrant key)) out
              (λ e' j' found'. omega (arith, bound e' j' found', kept))
              (rw (above, found, mark_children) at e) in
          let (f', g') = mark-bit masks j i (quadrant key) k inside small hk in
          (
            λ b. elim (f b) [
              | inr (key', p', m, a, b', c) ↦ inr (key', p', tail m, a, b', c)
              | inl marked ↦ elim (f' marked) [
                | inl old ↦ inl old
                | inr (here', there) ↦ inr (key, p, head refl, above, found ∙ ap some here', there)
              ]
            ],
            λ c. elim c [
              | inl old ↦ g (inl (g' (inl old)))
              | inr (key', p', m, up', at', there) ↦ elim (cases_cons m) [
                | inr m' ↦ g (inr (key', p', m', up', at', there))
                | inl same ↦
                    let above' : p' ≡ p = some-injective p' p (sym up' ∙ ap parent same ∙ above) in
                    let index : j ≡ i = some-injective j i (
                      sym found
                      ∙ ap (λ (t : LunarTileKey). find_index by_key t.encoded) (sym above')
                      ∙ at') in
                    g (inl (g' (inr (index, sym (ap quadrant same) ∙ there))))
              ]
            ],
          )
    ]
  ]
