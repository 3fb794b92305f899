-- ===== src/Operators/Matched.antt =====
-- The tiles of one index whose entry in another index passes a test.
use lunar_terrain_builder.Base.{
  ◌<◌, ◌≡◌, refl, ap, ap₂, arith, Bool, true, false, Option, none, some, List, [], ◌∷◌, ◌++◌, All,
  All-map, ltb, ◌==◌,
}
use lunar_terrain_builder.TileKey.{LunarTileKey}
use lunar_terrain_builder.Database.Index.{TileIndexEntry}
use lunar_terrain_builder.Database.Index.Order.{IsIndex}
use lunar_terrain_builder.Database.Query.{lookup}

-- The key, where the test holds.
unfoldable pub only : Bool → LunarTileKey → List LunarTileKey
only true key = key ∷ []
only false key = []

module _ (test : TileIndexEntry → TileIndexEntry → Bool) where
  pub in_other : TileIndexEntry → Option TileIndexEntry → List LunarTileKey
  in_other b none = []
  in_other b (some a) = only (test b a) b.key

  -- The keys of the entries for which the other index has an entry, and the test holds of both.
  unfoldable pub matched : List TileIndexEntry → List TileIndexEntry → List LunarTileKey
  unfolding in_other only
  matched [] after = []
  matched (b ∷ before) after = in_other b (lookup after b.key) ++ matched before after

  pub matched-nil : (before : List TileIndexEntry) → matched before [] ≡ []
  unfolding matched lookup
  matched-nil [] = refl
  matched-nil (b ∷ before) = matched-nil before

  lookup-skip :
      (a : TileIndexEntry) (after : List TileIndexEntry) (key : LunarTileKey)
      → a.key.encoded < key.encoded
      → lookup (a ∷ after) key ≡ lookup after key
  unfolding lookup
  lookup-skip a after key h = let e : ltb a.key.encoded key.encoded ≡ true = ground arith in rw e

  pub matched-above :
      (a : TileIndexEntry) (before after : List TileIndexEntry)
      → All (λ (e : TileIndexEntry). a.key.encoded < e.key.encoded) before
      → matched before (a ∷ after) ≡ matched before after
  unfolding matched
  matched-above a [] after all = refl
  matched-above a (b ∷ before) after all =
      ap₂ (◌++◌) (ap (in_other b) (lookup-skip a after b.key all.0))
        (matched-above a before after all.1)

  module _ (b a : TileIndexEntry) (before after : List TileIndexEntry) where
    pub matched-less :
        b.key.encoded < a.key.encoded
        → matched (b ∷ before) (a ∷ after) ≡ matched before (a ∷ after)
    unfolding matched lookup
    matched-less h =
        let less : ltb a.key.encoded b.key.encoded ≡ false = ground arith in
        let differs : (a.key.encoded == b.key.encoded) ≡ false = ground arith in
        rw (less, lookup, differs) refl

    pub matched-more :
        a.key.encoded < b.key.encoded
        → IsIndex (b ∷ before)
        → matched (b ∷ before) (a ∷ after) ≡ matched (b ∷ before) after
    unfolding IsIndex
    matched-more h sorted = matched-above a (b ∷ before) after (
      h,
      All-map (λ (e : TileIndexEntry). b.key.encoded < e.key.encoded)
          (λ (e : TileIndexEntry). a.key.encoded < e.key.encoded) (λ e m. omega arith) before
          sorted.0,
    )

    pub matched_same :
        b.key.encoded ≡ a.key.encoded
        → IsIndex (b ∷ before)
        → matched (b ∷ before) (a ∷ after) ≡ only (test b a) b.key ++ matched before after
    unfolding matched lookup IsIndex
    matched_same h sorted =
        let less : ltb a.key.encoded b.key.encoded ≡ false = ground arith in
        let equal : (a.key.encoded == b.key.encoded) ≡ true = ground arith in
        rw (less, lookup, equal)
          (ap (λ (t : List LunarTileKey). only (test b a) b.key ++ t)
            (matched-above a before after (
              All-map (λ (e : TileIndexEntry). b.key.encoded < e.key.encoded)
                (λ (e : TileIndexEntry). a.key.encoded < e.key.encoded) (λ e m. omega arith) before
                sorted.0)))
