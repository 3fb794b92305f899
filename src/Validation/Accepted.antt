-- ===== src/Validation/Accepted.antt =====
-- `validate_hierarchy` on the masks that `materialized_child_masks` computes.
use lunar_terrain_builder.Base.{
  ℕ, suc, ◌≡◌, ◌∙◌, inl, inr, refl, String, true, false, not, ◌&&◌, some, [], ◌∷◌, length, All,
  get_elem?, ltb, ◌/=◌, Option-cases,
}
use lunar_terrain_builder.Base.Maps.{find, emplace_new}
use mathlib.Core.List.{Memᴰ}
use mathlib.Core.List.Memᴰ.{head, tail}
use lunar_terrain_builder.Error.{success}
use lunar_terrain_builder.Execution.{Moments, check_execution}
use lunar_terrain_builder.TileKey.{LunarTileKey, level, parent}
use lunar_terrain_builder.TileKey.Family.{parent-eq-none_iff}
use lunar_terrain_builder.TileKey.Layout.{IsKey}
use lunar_terrain_builder.Hierarchy.{materialized_child_masks}
use lunar_terrain_builder.Hierarchy.Masks.Index.{get_elem?-Mem}
use lunar_terrain_builder.Hierarchy.Masks.Closed.{masks_closed}
use lunar_terrain_builder.Database.Index.{TileIndexEntry}
use lunar_terrain_builder.Database.Tiles.{DecodedTerrainTile}
use lunar_terrain_builder.Validation.{
  TileList, EntryMap, has_key, expected_mask, parent_present, index_entries, check_entry,
  check_entries, validate_hierarchy,
}
use lunar_terrain_builder.Validation.Loops.{entry_of, index_entries-entry_of}
use lunar_terrain_builder.Validation.Listed.{
  keys_of, masks_of, place_of, eq→/=, and_false, no_level,
}
use lunar_terrain_builder.Validation.Computed.{has_key-Mem, expected_mask-mask}

module _ (moments : Moments) (path : String) (tiles : TileList)
    (undisturbed : (i : ℕ) → check_execution (moments i) ≡ success tt) where
  index_entries-succeeds :
      (ts : TileList) (n : ℕ) (by_key : EntryMap)
      → (out : EntryMap) × (index_entries moments path ts n by_key ≡ success out)
  unfolding index_entries
  index_entries-succeeds [] n by_key = (by_key, refl)
  index_entries-succeeds ((entry, tile) ∷ rest) n by_key =
      let (out, e) =
        index_entries-succeeds rest (suc n) (emplace_new by_key entry.key.encoded entry) in
      (out, rw (undisturbed n, e) refl)

  check_entries-succeeds :
      (by_key : EntryMap) (count : ℕ) (ts : TileList) (n : ℕ)
      → ((entry : TileIndexEntry) (t : DecodedTerrainTile)
          → Memᴰ (entry, t) ts
          → check_entry moments path by_key count entry ≡ success tt)
      → check_entries moments path by_key count ts n ≡ success tt
  unfolding check_entries
  check_entries-succeeds by_key count [] n fine = refl
  check_entries-succeeds by_key count ((entry, tile) ∷ rest) n fine =
      rw (undisturbed n, fine entry tile (head refl))
        (check_entries-succeeds by_key count rest (suc n) (λ e t m. fine e t (tail m)))

  module _ (keys : All IsKey (keys_of tiles))
      (made : materialized_child_masks (keys_of tiles) ≡ success (masks_of tiles))
      (by_key : EntryMap) (finds : (k : ℕ) → find by_key k ≡ entry_of tiles k) where
    module _ (i : ℕ) (key : LunarTileKey) (at : get_elem? (keys_of tiles) i ≡ some key) where
      orphan_test :
          (ltb 1 (length tiles) && level key /= 0 && not (parent_present by_key key)) ≡ false
      unfolding parent_present
      orphan_test = elim (Option-cases (parent key)) [
        | inl root ↦ no_level (length tiles) (level key) _ ((parent-eq-none_iff key).0 root)
        | inr (p, up') ↦
            let found : has_key by_key p ≡ true = (has_key-Mem tiles by_key finds p).1 (
              masks_closed (keys_of tiles) (masks_of tiles) key p made (get_elem?-Mem _ i key at)
                up') in
            let there : parent_present by_key key ≡ true = rw (up', parent_present) found in
            rw there (and_false (ltb 1 (length tiles)) (level key /= 0))
      ]

    check_entry-succeeds :
        (entry : TileIndexEntry) (t : DecodedTerrainTile)
        → Memᴰ (entry, t) tiles
        → check_entry moments path by_key (length tiles) entry ≡ success tt
    unfolding check_entry
    check_entry-succeeds entry t m =
        let (i, at, mask) = place_of tiles entry t m in
        let fits : (expected_mask by_key entry.key /= entry.materialized_child_mask) ≡ false =
          eq→/= _ _ (
            expected_mask-mask tiles (masks_of tiles) keys made by_key finds i entry.key at
            ∙ mask) in
        rw (fits, orphan_test i entry.key at) refl

  pub validate_hierarchy-accepts :
      All IsKey (keys_of tiles)
      → materialized_child_masks (keys_of tiles) ≡ success (masks_of tiles)
      → validate_hierarchy moments path tiles ≡ success tt
  unfolding validate_hierarchy find
  validate_hierarchy-accepts keys made =
      let (by_key, indexed) = index_entries-succeeds tiles 0 [] in
      let finds = index_entries-entry_of moments path tiles 0 [] by_key indexed in
      rw indexed (
        check_entries-succeeds by_key (length tiles) tiles (length tiles)
          (check_entry-succeeds keys made by_key finds))
