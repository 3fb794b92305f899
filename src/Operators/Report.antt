-- ===== src/Operators/Report.antt =====
-- What a change of the report does to `identical`.
use lunar_terrain_builder.Base.{ℕ, ◌≡◌, refl, arith, true, false, List, [], ◌∷◌, ◌++◌}
use lunar_terrain_builder.TileKey.{LunarTileKey}
use lunar_terrain_builder.TileKey.Text.{bytes_eq}
use lunar_terrain_builder.Database.Index.{TileIndexEntry}
use lunar_terrain_builder.Database.Tiles.{DecodedTerrainTile}
use lunar_terrain_builder.Operators.{
  DiffReport, is_empty, identical, remove_dataset, add_dataset, note_dependency, placed_elsewhere,
  note_layout, note_provenance, remove_tile, add_tile, settle_layout,
}

is_empty-snoc {ℓ} : {A : Type ℓ} (xs : List A) (x : A) → is_empty (xs ++ x ∷ []) ≡ false
unfolding is_empty
is_empty-snoc [] x = refl
is_empty-snoc (y ∷ xs) x = refl

module _ (r : DiffReport) where
  pub removed_dataset : (id : ℕ) → identical (remove_dataset r id) ≡ true → ⊥
  unfolding identical remove_dataset
  removed_dataset id h = ground (arith, is_empty-snoc r.removed_datasets id)

  pub added_dataset : (id : ℕ) → identical (add_dataset r id) ≡ true → ⊥
  unfolding identical add_dataset
  added_dataset id h = ground (arith, is_empty-snoc r.added_datasets id)

  pub removed_tile : (key : LunarTileKey) → identical (remove_tile r key) ≡ true → ⊥
  unfolding identical remove_tile
  removed_tile key h = ground arith

  pub added_tile : (key : LunarTileKey) → identical (add_tile r key) ≡ true → ⊥
  unfolding identical add_tile
  added_tile key h = ground arith

  pub changed_content :
      (key : LunarTileKey)
      → identical (record r { content_changes = r.content_changes ++ key ∷ [] }) ≡ true
      → ⊥
  unfolding identical
  changed_content key h = ground (arith, is_empty-snoc r.content_changes key)

  pub kept_provenance :
      (before after : DecodedTerrainTile) (key : LunarTileKey)
      → identical (note_provenance before after key r) ≡ true
      → identical r ≡ true
  unfolding identical note_provenance
  kept_provenance before after key h = ground (arith, is_empty-snoc r.provenance_changes key)

  pub kept_dependency :
      (b a : TileIndexEntry)
      → identical (note_dependency b a r) ≡ true
      → (bytes_eq b.dependency_hash_prefix a.dependency_hash_prefix ≡ true) × (identical r ≡ true)
  unfolding identical note_dependency
  kept_dependency b a h = ground (arith, is_empty-snoc r.dependency_changes b.key)

  pub kept_layout :
      (b a : TileIndexEntry)
      → identical (note_layout b a r) ≡ true
      → (placed_elsewhere b a ≡ false) × (identical r ≡ true)
  unfolding identical note_layout
  kept_layout b a h = ground (arith, is_empty-snoc r.package_layout_changes b.key)

  pub settled : identical (settle_layout r) ≡ identical r
  unfolding identical settle_layout
  settled = ground arith
