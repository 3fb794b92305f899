-- ===== src/Hierarchy/Masks/Closed.antt =====
-- The parents of the tiles in a list that gets its masks.
use lunar_terrain_builder.Base.{
  ℕ, ◌≡◌, inl, inr, ◌∙◌, sym, ap, subst, none, some, List, [], ◌∷◌, Option-cases, some-injective,
}
use mathlib.Core.List.{Memᴰ}
use mathlib.Core.List.Memᴰ.{cases_cons}
use lunar_terrain_builder.Error.{success}
use lunar_terrain_builder.TileKey.{LunarTileKey, parent}
use lunar_terrain_builder.TileKey.Layout.{encoded-eq}
use lunar_terrain_builder.Hierarchy.{
  KeyMap, find_index, quadrant, mark, mark_children, materialized_child_masks,
}
use lunar_terrain_builder.Hierarchy.Masks.Index.{
  index_tiles-find, get_elem?-Mem, find_index-nil, materialized-parts,
}

-- Where the second loop goes through, every parent has an index.
mark_children-found :
    (by_key : KeyMap) (tiles : List LunarTileKey) (masks out : List ℕ) (key p : LunarTileKey)
    → mark_children by_key tiles masks ≡ success out
    → Memᴰ key tiles
    → parent key ≡ some p
    → (i : ℕ) × (find_index by_key p.encoded ≡ some i)
unfolding mark_children
mark_children-found by_key [] masks out key p h m up' = elim m [ ]
mark_children-found by_key (k ∷ tiles) masks out key p h m up' = elim (Option-cases (parent k)) [
  | inl root ↦ elim (cases_cons m) [
    | inl same ↦ cc (ap parent same, root, up')
    | inr m' ↦
        mark_children-found by_key tiles masks out key p (rw (root, mark_children) at h) m' up'
  ]
  | inr (q, above) ↦ elim (Option-cases (find_index by_key q.encoded)) [
    | inl orphan ↦ cc (rw (above, orphan, mark_children) at h)
    | inr (j, found) ↦ elim (cases_cons m) [
      | inl same ↦
          let equal : q ≡ p = some-injective q p (sym above ∙ ap parent (sym same) ∙ up') in
          (j, ap (λ (t : LunarTileKey). find_index by_key t.encoded) (sym equal) ∙ found)
      | inr m' ↦
          mark_children-found by_key tiles (mark masks j (quadrant k)) out key p
            (rw (above, found, mark_children) at h) m' up'
    ]
  ]
]

-- Where `materialized_child_masks` succeeds, the list holds the parent of each of its tiles that has
-- one.
pub masks_closed :
    (tiles : List LunarTileKey) (masks : List ℕ) (key p : LunarTileKey)
    → materialized_child_masks tiles ≡ success masks
    → Memᴰ key tiles
    → parent key ≡ some p
    → Memᴰ p tiles
masks_closed tiles masks key p h m up' =
    let (by_key, indexed, marked) = materialized-parts tiles masks h in
    let (i, found) = mark_children-found by_key tiles _ masks key p marked m up' in
    elim ((index_tiles-find none 0 tiles [] by_key indexed p.encoded i).0 found) [
      | inl nothing ↦ absurd (find_index-nil p.encoded i nothing)
      | inr (t, j, at, code, place) ↦
          subst (λ k. Memᴰ k tiles) (encoded-eq code) (get_elem?-Mem tiles j t at)
    ]
