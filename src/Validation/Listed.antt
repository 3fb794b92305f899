-- ===== src/Validation/Listed.antt =====
-- The keys and the masks of a list of tiles, and the comparison of masks.
use lunar_terrain_builder.Base.{
  ℕ, zero, suc, ◌<◌, ◌≡◌, ◌↔◌, ◌∙◌, refl, sym, ap, arith, Bool, true, false, not, ◌&&◌, some, List,
  [], ◌∷◌, map, get_or, get_elem?, ltb, ◌/=◌,
}
use lunar_terrain_builder.Base.Bits.{bit}
use mathlib.Core.List.{Memᴰ}
use mathlib.Core.List.Memᴰ.{head, tail}
use lunar_terrain_builder.TileKey.{LunarTileKey}
use lunar_terrain_builder.Database.Index.{TileIndexEntry}
use lunar_terrain_builder.Database.Tiles.{DecodedTerrainTile}
use lunar_terrain_builder.Validation.{TileList}
use lunar_terrain_builder.Validation.Masks.{Lists}

abbrev pub keys_of : TileList → List LunarTileKey
keys_of = map (λ (p : TileIndexEntry × DecodedTerrainTile). p.0.key)

abbrev pub masks_of : TileList → List ℕ
masks_of = map (λ (p : TileIndexEntry × DecodedTerrainTile). p.0.materialized_child_mask)

pub Lists-Mem : (tiles : TileList) (key : LunarTileKey) → Lists tiles key ↔ Memᴰ key (keys_of tiles)
unfolding Lists
Lists-Mem tiles key = (to tiles, from tiles)
  where
    to : (ts : TileList) → Lists ts key → Memᴰ key (keys_of ts)
    to [] (e, t, m, k) = elim m [ ]
    to (p ∷ ts) (e, t, head same, k) =
        head (sym k ∙ ap (λ (p : TileIndexEntry × DecodedTerrainTile). p.0.key) same)
    to (p ∷ ts) (e, t, tail m, k) = tail (to ts (e, t, m, k))

    from : (ts : TileList) → Memᴰ key (keys_of ts) → Lists ts key
    from [] m = elim m [ ]
    from (p ∷ ts) (head same) = (p.0, p.1, head refl, sym same)
    from (p ∷ ts) (tail m) = let (e, t, m', k) = from ts m in (e, t, tail m', k)

-- Where a tile of the list has its key and its mask.
pub place_of :
    (tiles : TileList) (entry : TileIndexEntry) (t : DecodedTerrainTile)
    → Memᴰ (entry, t) tiles
    → (i : ℕ) × (get_elem? (keys_of tiles) i ≡ some entry.key)
      × (get_or (masks_of tiles) i 0 ≡ entry.materialized_child_mask)
place_of [] entry t m = elim m [ ]
place_of (p ∷ tiles) entry t (head same) = (
  0,
  ap (λ (p : TileIndexEntry × DecodedTerrainTile). some p.0.key) (sym same),
  ap (λ (p : TileIndexEntry × DecodedTerrainTile). p.0.materialized_child_mask) (sym same),
)
place_of (p ∷ tiles) entry t (tail m) = let (i, k, v) = place_of tiles entry t m in (suc i, k, v)

-- Two masks of four bits with the same bits.
pub mask-eq :
    (m n : ℕ)
    → m < 16
    → n < 16
    → bit 0 m ≡ bit 0 n
    → bit 1 m ≡ bit 1 n
    → bit 2 m ≡ bit 2 n
    → bit 3 m ≡ bit 3 n
    → m ≡ n
mask-eq m n hm hn a b c d = omega arith

pub same_digit : (a b : ℕ) → a < 2 → b < 2 → ((a ≡ 1) ↔ (b ≡ 1)) → a ≡ b
same_digit zero zero ha hb h = refl
same_digit zero (suc zero) ha hb h = h.1 refl
same_digit (suc zero) zero ha hb h = sym (h.0 refl)
same_digit (suc zero) (suc zero) ha hb h = refl
same_digit (suc (suc a)) b ha hb h = absurd (omega arith)
same_digit a (suc (suc b)) ha hb h = absurd (omega arith)

pub eq→/= : (a b : ℕ) → a ≡ b → (a /= b) ≡ false
eq→/= a b h = ground arith

pub and_false : (a b : Bool) → (a && b && not true) ≡ false
and_false true true = refl
and_false true false = refl
and_false false b = refl

pub no_level : (n l : ℕ) (b : Bool) → l ≡ 0 → (ltb 1 n && l /= 0 && b) ≡ false
no_level n l b h = let e : (l /= 0) ≡ false = ground arith in rw e (and_false' (ltb 1 n) b)
  where
    and_false' : (a c : Bool) → (a && false && c) ≡ false
    and_false' true c = refl
    and_false' false c = refl
