-- ===== src/Validation/Computed.antt =====
-- The mask that `validate_hierarchy` expects of a tile, against the one that
-- `materialized_child_masks` computes.
use lunar_terrain_builder.Base.{
  ℕ, ◌<◌, ◌≡◌, ◌↔◌, ◌∙◌, inl, inr, refl, sym, ap, arith, Bool, true, false, some, List, All, get_or,
  get_elem?,
}
use lunar_terrain_builder.Base.Bits.{bit}
use lunar_terrain_builder.Base.Maps.{find, is_found}
use native.Mathlib.Decide.{ℕ_discrete}
use mathlib.Core.List.{Memᴰ}
use lunar_terrain_builder.Error.{success, Result-cases, has_value}
use lunar_terrain_builder.TileKey.{LunarTileKey, level, max_level, Children, children}
use lunar_terrain_builder.TileKey.Family.{nth, children-last}
use lunar_terrain_builder.TileKey.Layout.{IsKey}
use lunar_terrain_builder.Hierarchy.{materialized_child_masks}
use lunar_terrain_builder.Hierarchy.Masks.Children.{masks_children}
use lunar_terrain_builder.Hierarchy.Masks.Small.{masks-IsMask, get_or-IsMask, masks_last}
use lunar_terrain_builder.Validation.{TileList, EntryMap, has_key, child_bits, expected_mask}
use lunar_terrain_builder.Validation.Loops.{entry_of}
use lunar_terrain_builder.Validation.Masks.{
  one_if_iff, one_if-le, child_bits-sum, child_bits-bit, is_found-entry_of,
}
use lunar_terrain_builder.Validation.Listed.{keys_of, Lists-Mem, mask-eq, same_digit}

module _ (tiles : TileList) (by_key : EntryMap)
    (finds : (k : ℕ) → find by_key k ≡ entry_of tiles k) where
  pub has_key-Mem : (k : LunarTileKey) → (has_key by_key k ≡ true) ↔ Memᴰ k (keys_of tiles)
  has_key-Mem k =
      let e : has_key by_key k ≡ is_found (entry_of tiles k.encoded) =
        ap is_found (finds k.encoded) in
      let (f, g) = is_found-entry_of tiles k in
      let (f', g') = Lists-Mem tiles k in (λ h. f' (f (sym e ∙ h)), λ m. e ∙ g (g' m))

module _ (tiles : TileList) (masks : List ℕ) (keys : All IsKey (keys_of tiles))
    (made : materialized_child_masks (keys_of tiles) ≡ success masks) (by_key : EntryMap)
    (finds : (k : ℕ) → find by_key k ≡ entry_of tiles k) where
  module _ (i : ℕ) (key : LunarTileKey) (at : get_elem? (keys_of tiles) i ≡ some key) where
    child_bits-mask :
        (c : Children)
        → children key ≡ success c
        → child_bits (λ q. has_key by_key (nth c q)) ≡ get_or masks i 0
    child_bits-mask c kids =
        let present : ℕ → Bool = λ q. has_key by_key (nth c q) in
        let small = get_or-IsMask masks i (masks-IsMask (keys_of tiles) masks made) in
        mask-eq _ _
          (omega (
            arith,
            child_bits-sum present,
            one_if-le (present 0),
            one_if-le (present 1),
            one_if-le (present 2),
            one_if-le (present 3),
          ))
          small (same 0 (omega arith)) (same 1 (omega arith)) (same 2 (omega arith))
          (same 3 (omega arith))
      where
        same :
            (q : ℕ)
            → q < 4
            → bit q (child_bits (λ n. has_key by_key (nth c n))) ≡ bit q (get_or masks i 0)
        same q h =
            let (f, g) = has_key-Mem tiles by_key finds (nth c q) in
            let (to, from) = masks_children (keys_of tiles) masks i key q c keys made at h kids in
            let (one, back) = one_if_iff (has_key by_key (nth c q)) in
            let e = child_bits-bit (λ n. has_key by_key (nth c n)) q h in
            same_digit _ _ (omega arith) (omega arith)
              (λ b. from (f (one (sym e ∙ b))), λ b. e ∙ back (g (to b)))

    pub expected_mask-mask : expected_mask by_key key ≡ get_or masks i 0
    unfolding expected_mask
    expected_mask-mask = elim (Result-cases (children key)) [
      | inl (c, kids) ↦ rw (kids, expected_mask) (child_bits-mask c kids)
      | inr (e, none') ↦
          let last : level key ≡ max_level = elim (ℕ_discrete (level key) max_level) [
            | yes l ↦ l
            | no ne ↦
                let some' = (children-last key).1 ne in
                let refused : has_value (children key) ≡ false = rw none' refl in cc
          ] in
          rw (none', expected_mask)
            (sym (masks_last (keys_of tiles) masks made i key keys at (omega (arith, last))))
    ]
