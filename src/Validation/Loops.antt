-- ===== src/Validation/Loops.antt =====
-- The maps that the validators build, and what a loop has checked when it ends.
use lunar_terrain_builder.Base.{
  ℕ, zero, suc, ◌<◌, ◌≡◌, ◌∙◌, inl, inr, refl, sym, ap, arith, String, Bool, true, false, Option,
  none, some, [], ◌∷◌, ◌==◌, if◌then◌else◌, Bool-cases,
}
use lunar_terrain_builder.Base.Maps.{find, emplace_new, or_else, find-emplace_new}
use mathlib.Core.List.{Memᴰ}
use mathlib.Core.List.Memᴰ.{head, tail}
use lunar_terrain_builder.Error.{Error, success, fail_if, >>=-eq-success}
use lunar_terrain_builder.Error.Loops.{try_up}
use lunar_terrain_builder.Execution.{Moments, check_execution}
use lunar_terrain_builder.TileKey.{LunarTileKey}
use lunar_terrain_builder.TileKey.Layout.{encoded-eq}
use lunar_terrain_builder.Database.Index.{TileIndexEntry}
use lunar_terrain_builder.Database.Tiles.{DecodedTerrainTile}
use lunar_terrain_builder.Validation.{TileList, TileMap, EntryMap, index_decoded, index_entries}

-- A loop of tests that goes through has found each of them false.
pub tests_false :
    (n : ℕ) (test : ℕ → Bool) (e : Error)
    → try_up n (λ i s. fail_if (test i) e) tt ≡ success tt
    → (i : ℕ) → i < n
    → test i ≡ false
tests_false zero test e h i lt = absurd (omega arith)
tests_false (suc n) test e h i lt =
    let (s, before, last) =
      >>=-eq-success (try_up n (λ i s. fail_if (test i) e) tt) (λ s. fail_if (test n) e) h in
    elim (Bool-cases (i == n)) [
      | inl now ↦ let place : i ≡ n = ground arith in ap test place ∙ passed (test n) last
      | inr earlier ↦ tests_false n test e before i (ground arith)
    ]
  where
    passed : (b : Bool) → fail_if b e ≡ success tt → b ≡ false
    passed true h = cc
    passed false h = refl

-- The first tile and the first entry of the list with these bits as their key.
unfoldable pub tile_of : TileList → ℕ → Option DecodedTerrainTile
tile_of [] k = none
tile_of ((entry, tile) ∷ rest) k = if entry.key.encoded == k then some tile else tile_of rest k

unfoldable pub entry_of : TileList → ℕ → Option TileIndexEntry
entry_of [] k = none
entry_of ((entry, tile) ∷ rest) k = if entry.key.encoded == k then some entry else entry_of rest k

or_else_assoc {ℓ} :
    {A : Type ℓ} (a b c : Option A) → or_else (or_else a b) c ≡ or_else a (or_else b c)
or_else_assoc none b c = refl
or_else_assoc (some a) b c = refl

or_else-if {ℓ} :
    {A : Type ℓ} (b : Bool) (a : A) (o : Option A)
    → or_else (if b then some a else none) o ≡ (if b then some a else o)
or_else-if true a o = refl
or_else-if false a o = refl

module _ (moments : Moments) (path : String) where
  pub index_decoded-tile_of :
      (tiles : TileList) (n : ℕ) (by_key out : TileMap)
      → index_decoded moments path tiles n by_key ≡ success out
      → (k : ℕ) → find out k ≡ or_else (find by_key k) (tile_of tiles k)
  unfolding index_decoded tile_of
  index_decoded-tile_of [] n by_key out h k =
      let e : out ≡ by_key = cc in ap (λ (m : TileMap). find m k) e ∙ last (find by_key k)
    where
      last : (o : Option DecodedTerrainTile) → o ≡ or_else o none
      last none = refl
      last (some t) = refl
  index_decoded-tile_of ((entry, tile) ∷ rest) n by_key out h k =
      let (ok, checked, more) = >>=-eq-success (check_execution (moments n)) _ h in
      index_decoded-tile_of rest (suc n) (emplace_new by_key entry.key.encoded tile) out more k
      ∙ ap (λ o. or_else o (tile_of rest k)) (find-emplace_new by_key entry.key.encoded k tile)
      ∙ or_else_assoc (find by_key k) _ _
      ∙ ap (or_else (find by_key k)) (or_else-if (entry.key.encoded == k) tile (tile_of rest k))

  pub index_entries-entry_of :
      (tiles : TileList) (n : ℕ) (by_key out : EntryMap)
      → index_entries moments path tiles n by_key ≡ success out
      → (k : ℕ) → find out k ≡ or_else (find by_key k) (entry_of tiles k)
  unfolding index_entries entry_of
  index_entries-entry_of [] n by_key out h k =
      let e : out ≡ by_key = cc in ap (λ (m : EntryMap). find m k) e ∙ last (find by_key k)
    where
      last : (o : Option TileIndexEntry) → o ≡ or_else o none
      last none = refl
      last (some t) = refl
  index_entries-entry_of ((entry, tile) ∷ rest) n by_key out h k =
      let (ok, checked, more) = >>=-eq-success (check_execution (moments n)) _ h in
      index_entries-entry_of rest (suc n) (emplace_new by_key entry.key.encoded entry) out more k
      ∙ ap (λ o. or_else o (entry_of rest k)) (find-emplace_new by_key entry.key.encoded k entry)
      ∙ or_else_assoc (find by_key k) _ _
      ∙ ap (or_else (find by_key k)) (or_else-if (entry.key.encoded == k) entry (entry_of rest k))

-- A tile that is found stands in the list.
pub tile_of-Mem :
    (tiles : TileList) (key : LunarTileKey) (t : DecodedTerrainTile)
    → tile_of tiles key.encoded ≡ some t
    → (entry : TileIndexEntry) × (entry.key ≡ key) × Memᴰ (entry, t) tiles
unfolding tile_of
tile_of-Mem [] key t h = cc
tile_of-Mem ((entry, tile) ∷ rest) key t h = elim (Bool-cases (entry.key.encoded == key.encoded)) [
  | inl here' ↦
      let same : tile ≡ t = ground arith in
      (entry, encoded-eq (ground arith), head (λ i. (entry, sym same i)))
  | inr there ↦ let (entry', e, m) = tile_of-Mem rest key t (ground arith) in (entry', e, tail m)
]
