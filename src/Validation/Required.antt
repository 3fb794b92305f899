-- ===== src/Validation/Required.antt =====
-- The masks of the tiles that `validate_hierarchy` accepts, against `materialized_child_masks`.
use lunar_terrain_builder.Base.{
  ℕ, zero, suc, ◌+◌, ◌<◌, ◌≤◌, ◌≡◌, ◌≢◌, ◌⊎◌, ◌↔◌, ◌∙◌, inl, inr, refl, sym, ap, ap₂, subst, arith,
  String, false, Option, none, some, List, [], ◌∷◌, length, length-set, length-replicate, replicate,
  All, Pairwise, All-map, All-Mem, get_or, get_elem?, /=→eq, Option-cases, some-injective,
}
use mathlib.Core.List.{Memᴰ}
use mathlib.Core.List.Memᴰ.{head, tail}
use lunar_terrain_builder.Error.{success, >>=-eq-success, fail_if-eq-success}
use lunar_terrain_builder.Execution.{Moments, check_execution}
use lunar_terrain_builder.TileKey.{LunarTileKey, level, parent}
use lunar_terrain_builder.TileKey.Family.{parent-eq-none_iff}
use lunar_terrain_builder.TileKey.Layout.{IsKey}
use lunar_terrain_builder.Hierarchy.{
  KeyMap, find_index, unsorted, is_some, index_tiles, quadrant, mark, mark_children,
  materialized_child_masks,
}
use lunar_terrain_builder.Hierarchy.Masks.Index.{index_tiles-find}
use lunar_terrain_builder.Database.Index.{TileIndexEntry}
use lunar_terrain_builder.Database.Tiles.{DecodedTerrainTile}
use lunar_terrain_builder.Base.Maps.{find}
use lunar_terrain_builder.Validation.{TileList, index_entries, check_entry, validate_hierarchy}
use lunar_terrain_builder.Validation.Loops.{index_entries-entry_of}
use lunar_terrain_builder.Validation.Masks.{Lists, validate_hierarchy-closed, check_entries-Mem}
use lunar_terrain_builder.Validation.Listed.{keys_of, masks_of, Lists-Mem}
use lunar_terrain_builder.Validation.Computed.{expected_mask-mask}
use lunar_terrain_builder.Validation.Accepted.{validate_hierarchy-accepts}

-- The order of the tile index.
abbrev pub Before : LunarTileKey → LunarTileKey → Type 0
Before a b = a.encoded < b.encoded

-- The first loop of `materialized_child_masks` goes through on keys in order.
absent_next :
    (key t : LunarTileKey) (index : ℕ) (by_key : KeyMap)
    → Before key t
    → find_index by_key t.encoded ≡ none
    → find_index ((key.encoded, index) ∷ by_key) t.encoded ≡ none
unfolding find_index
absent_next key t index by_key h absent = ground arith

sorted_next : (key t : LunarTileKey) → Before key t → unsorted (some key) t ≡ false
unfolding unsorted
sorted_next key t h = ground arith

both_All {ℓ κ ι μ} :
    {A : Type ℓ} {P : A → Type κ} {Q : A → Type ι} {R : A → Type μ}
    → ((a : A) → P a → Q a → R a)
    → (xs : List A) → All P xs
    → All Q xs
    → All R xs
both_All f [] p q = tt
both_All f (x ∷ xs) p q = (f x p.0 q.0, both_All f xs p.1 q.1)

index_tiles-succeeds :
    (before : Option LunarTileKey) (index : ℕ) (tiles : List LunarTileKey) (by_key : KeyMap)
    → Pairwise Before tiles
    → All (λ t. unsorted before t ≡ false) tiles
    → All (λ (t : LunarTileKey). find_index by_key t.encoded ≡ none) tiles
    → (out : KeyMap) × (index_tiles before index tiles by_key ≡ success out)
unfolding index_tiles is_some
index_tiles-succeeds before index [] by_key order sorted new' = (by_key, refl)
index_tiles-succeeds before index (key ∷ rest) by_key order sorted new' =
    let (out, e) =
      index_tiles-succeeds (some key) (index + 1) rest ((key.encoded, index) ∷ by_key) order.1
        (All-map (Before key) (λ t. unsorted (some key) t ≡ false) (sorted_next key) rest order.0)
        (both_All (λ t h absent. absent_next key t index by_key h absent) rest order.0 new'.1) in
    (out, rw (sorted.0, new'.0, e) refl)

-- The second loop goes through where every parent has an index.
mark_children-succeeds :
    (by_key : KeyMap) (tiles : List LunarTileKey) (masks : List ℕ)
    → ((key p : LunarTileKey)
        → Memᴰ key tiles
        → parent key ≡ some p
        → (i : ℕ) × (find_index by_key p.encoded ≡ some i))
    → (out : List ℕ) × (mark_children by_key tiles masks ≡ success out)
      × (length out ≡ length masks)
unfolding mark_children mark
mark_children-succeeds by_key [] masks found = (masks, refl, refl)
mark_children-succeeds by_key (key ∷ rest) masks found = elim (Option-cases (parent key)) [
  | inl root ↦
      let (out, e, n) = mark_children-succeeds by_key rest masks (λ k p m. found k p (tail m)) in
      (out, rw (root, mark_children) e, n)
  | inr (p, up') ↦
      let (i, at) = found key p (head refl) up' in
      let (out, e, n) =
        mark_children-succeeds by_key rest (mark masks i (quadrant key))
          (λ k p m. found k p (tail m)) in
      (out, rw (up', at, mark_children) e, n ∙ length-set masks i _)
]

Mem-Stands :
    (tiles : List LunarTileKey) (t : LunarTileKey)
    → Memᴰ t tiles
    → (j : ℕ) × (get_elem? tiles j ≡ some t)
Mem-Stands [] t m = elim m [ ]
Mem-Stands (s ∷ tiles) t (head same) = (0, ap some (sym same))
Mem-Stands (s ∷ tiles) t (tail m) = let (j, e) = Mem-Stands tiles t m in (suc j, e)

first_All : (tiles : List LunarTileKey) → All (λ t. unsorted none t ≡ false) tiles
unfolding unsorted
first_All [] = tt
first_All (t ∷ tiles) = (refl, first_All tiles)

absent_All :
    (tiles : List LunarTileKey) → All (λ (t : LunarTileKey). find_index [] t.encoded ≡ none) tiles
unfolding find_index
absent_All [] = tt
absent_All (t ∷ tiles) = (refl, absent_All tiles)

materialized_child_masks-succeeds :
    (tiles : List LunarTileKey)
    → Pairwise Before tiles
    → ((key p : LunarTileKey) → Memᴰ key tiles → parent key ≡ some p → Memᴰ p tiles)
    → (masks : List ℕ) × (materialized_child_masks tiles ≡ success masks)
      × (length masks ≡ length tiles)
unfolding materialized_child_masks
materialized_child_masks-succeeds tiles order closed =
    let (by_key, e) =
      index_tiles-succeeds none 0 tiles [] order (first_All tiles) (absent_All tiles) in
    let (masks, f, n) =
      mark_children-succeeds by_key tiles (replicate (length tiles) 0) (λ key p m up'.
        let (j, at) = Mem-Stands tiles p (closed key p m up') in
        (
          j,
          (index_tiles-find none 0 tiles [] by_key e p.encoded j).1
              (inr (p, j, at, refl, omega arith)),
        )) in
    (masks, rw (e, f) refl, n ∙ length-replicate (length tiles) 0)

get_or-ext :
    (xs ys : List ℕ)
    → length xs ≡ length ys
    → ((i : ℕ) → i < length xs → get_or xs i 0 ≡ get_or ys i 0)
    → xs ≡ ys
get_or-ext [] [] n h = refl
get_or-ext [] (y ∷ ys) n h = absurd (omega (arith, n))
get_or-ext (x ∷ xs) [] n h = absurd (omega (arith, n))
get_or-ext (x ∷ xs) (y ∷ ys) n h =
    ap₂ ◌∷◌ (h 0 (omega arith))
      (get_or-ext xs ys (omega (arith, n)) (λ i lt. h (suc i) (omega (arith, lt))))

one_or_several : (n : ℕ) → (n ≤ 1) ⊎ (1 < n)
one_or_several n = ground arith

length-keys_of : (tiles : TileList) → length (keys_of tiles) ≡ length tiles
length-keys_of [] = refl
length-keys_of (p ∷ tiles) = ap suc (length-keys_of tiles)

length-masks_of : (tiles : TileList) → length (masks_of tiles) ≡ length tiles
length-masks_of [] = refl
length-masks_of (p ∷ tiles) = ap suc (length-masks_of tiles)

entry_at :
    (tiles : TileList) (i : ℕ)
    → i < length tiles
    → (entry : TileIndexEntry) × (t : DecodedTerrainTile) × Memᴰ (entry, t) tiles
      × (get_elem? (keys_of tiles) i ≡ some entry.key)
      × (get_or (masks_of tiles) i 0 ≡ entry.materialized_child_mask)
entry_at [] i h = absurd (omega (arith, h))
entry_at ((entry, t) ∷ tiles) zero h = (entry, t, head refl, refl, refl)
entry_at (p ∷ tiles) (suc i) h =
    let (entry, t, m, k, v) = entry_at tiles i (omega (arith, h)) in (entry, t, tail m, k, v)

module _ (moments : Moments) (path : String) (tiles : TileList) (keys : All IsKey (keys_of tiles))
    (order : Pairwise Before (keys_of tiles))
    (alone : length tiles ≤ 1 → All (λ k. level k ≡ 0) (keys_of tiles)) where
  accepted-closed :
      validate_hierarchy moments path tiles ≡ success tt
      → (key p : LunarTileKey) → Memᴰ key (keys_of tiles)
      → parent key ≡ some p
      → Memᴰ p (keys_of tiles)
  unfolding Lists
  accepted-closed h key p m up' =
      let (entry, t, m', same) = (Lists-Mem tiles key).1 m in
      let deep : level key ≢ 0 = λ root. cc ((parent-eq-none_iff key).1 root, up') in
      let several : 1 < length tiles = elim (one_or_several (length tiles)) [
        | inl few ↦ absurd (deep (All-Mem (λ k. level k ≡ 0) (keys_of tiles) key (alone few) m))
        | inr many ↦ many
      ] in
      let (q, up'', there) =
        (validate_hierarchy-closed moments path tiles entry t h m').1 several
          (λ root. deep (ap level (sym same) ∙ root)) in
      let equal : q ≡ p = some-injective q p (sym up'' ∙ ap parent same ∙ up') in
      subst (λ k. Memᴰ k (keys_of tiles)) equal ((Lists-Mem tiles q).0 there)

  validate_hierarchy-requires :
      validate_hierarchy moments path tiles ≡ success tt
      → materialized_child_masks (keys_of tiles) ≡ success (masks_of tiles)
  unfolding validate_hierarchy check_entry find
  validate_hierarchy-requires h =
      let (masks, made, n) =
        materialized_child_masks-succeeds (keys_of tiles) order (accepted-closed h) in
      let (by_key, indexed, checked) = >>=-eq-success (index_entries moments path tiles 0 []) _ h in
      let finds = index_entries-entry_of moments path tiles 0 [] by_key indexed in
      made
      ∙ ap success (
          get_or-ext masks (masks_of tiles) (n ∙ length-keys_of tiles ∙ sym (length-masks_of tiles))
            (λ i lt.
              let (entry, t, m, at, mask) =
                entry_at tiles i (omega (arith, lt, n, length-keys_of tiles)) in
              let fine =
                check_entries-Mem moments path by_key (length tiles) tiles (length tiles) entry t
                  checked m in
              let (mask_ok, _) = fail_if-eq-success _ _ _ fine in
              sym (expected_mask-mask tiles masks keys made by_key finds i entry.key at)
              ∙ /=→eq _ _ mask_ok
              ∙ sym mask))

-- For tiles with well-formed keys in strictly increasing order, where a tile that is alone is a root
-- and no check of the execution stops the call, `validate_hierarchy` accepts the tiles exactly when
-- `materialized_child_masks` succeeds on their keys with the masks that they have.
pub validate_hierarchy-accepts_iff :
    (moments : Moments) (path : String) (tiles : TileList)
    → ((i : ℕ) → check_execution (moments i) ≡ success tt)
    → All IsKey (keys_of tiles)
    → Pairwise Before (keys_of tiles)
    → (length tiles ≤ 1 → All (λ k. level k ≡ 0) (keys_of tiles))
    → (validate_hierarchy moments path tiles ≡ success tt)
      ↔ (materialized_child_masks (keys_of tiles) ≡ success (masks_of tiles))
validate_hierarchy-accepts_iff moments path tiles undisturbed keys order alone = (
  validate_hierarchy-requires moments path tiles keys order alone,
  validate_hierarchy-accepts moments path tiles undisturbed keys,
)
