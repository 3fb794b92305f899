-- ===== src/Database/Index/Order.antt =====
-- The order of a parsed tile index.
use lunar_terrain_builder.Base.{
  ℕ, ◌*◌, ◌<◌, ◌≡◌, ◌∙◌, sym, ap, subst, arith, String, false, List, [], ◌∷◌, ◌++◌, All, inl, inr,
  subspan,
}
use lunar_terrain_builder.Error.{success, Result-cases}
use lunar_terrain_builder.Error.Loops.{try_up, try_up_keeps}
use lunar_terrain_builder.TileKey.{LunarTileKey, from_encoded}
use lunar_terrain_builder.Database.Bytes.{read_u64}
use lunar_terrain_builder.Database.Header.{DatabaseHeader}
use lunar_terrain_builder.Database.Chunks.{ChunkInfo}
use lunar_terrain_builder.Database.Packs.{PackInfo}
use lunar_terrain_builder.Database.Index.{
  TileIndexEntry, tile_index_record, entry_fields, key_out_of_order, scan_entry, parse_tile_index,
}

-- The keys increase strictly.
unfoldable pub IsIndex : List TileIndexEntry → Type 0
IsIndex [] = Unit
IsIndex (e ∷ rest) = All (λ (f : TileIndexEntry). e.key.encoded < f.key.encoded) rest × IsIndex rest

earlier_keys :
    (entries : List TileIndexEntry) (key : LunarTileKey)
    → IsIndex entries
    → key_out_of_order entries key ≡ false
    → All (λ (f : TileIndexEntry). f.key.encoded < key.encoded) entries
unfolding IsIndex key_out_of_order
earlier_keys [] key sorted last = tt
earlier_keys (e ∷ []) key sorted last = (ground arith, tt)
earlier_keys (e ∷ (f ∷ rest)) key sorted last =
    let after = earlier_keys (f ∷ rest) key sorted.1 last in
    (omega (arith, sorted.0.0, after.0), after)

All-snoc :
    (P : TileIndexEntry → Type 0) (entries : List TileIndexEntry) (e : TileIndexEntry)
    → All P entries
    → P e
    → All P (entries ++ e ∷ [])
All-snoc P [] e all p = (p, tt)
All-snoc P (f ∷ rest) e all p = (all.0, All-snoc P rest e all.1 p)

IsIndex-snoc :
    (entries : List TileIndexEntry) (e : TileIndexEntry)
    → IsIndex entries
    → All (λ (f : TileIndexEntry). f.key.encoded < e.key.encoded) entries
    → IsIndex (entries ++ e ∷ [])
unfolding IsIndex
IsIndex-snoc [] e sorted before = (tt, tt)
IsIndex-snoc (f ∷ rest) e sorted before =
    (All-snoc _ rest e sorted.0 before.0, IsIndex-snoc rest e sorted.1 before.1)

module _ (tidx : ChunkInfo) (header : DatabaseHeader) (packs : List PackInfo) (datasets : List ℕ)
    (path : String) where
  scan_entry-appends :
      (index : ℕ) (entries result : List TileIndexEntry)
      → scan_entry tidx header packs datasets path index entries ≡ success result
      → (e : TileIndexEntry) × (result ≡ entries ++ e ∷ [])
        × (key_out_of_order entries e.key ≡ false)
  unfolding scan_entry entry_fields
  scan_entry-appends index entries result h =
      elim (Result-cases (
        from_encoded
          (read_u64 (subspan tidx.bytes (index * tile_index_record) tile_index_record) 0))) [
            | inl (key, e) ↦ (
              entry_fields key (subspan tidx.bytes (index * tile_index_record) tile_index_record),
              ground arith,
              ground arith,
            )
            | inr (err, e) ↦ absurd (ground arith)
          ]

  scan_entry-IsIndex :
      (index : ℕ) (entries result : List TileIndexEntry)
      → IsIndex entries
      → scan_entry tidx header packs datasets path index entries ≡ success result
      → IsIndex result
  scan_entry-IsIndex index entries result sorted h =
      let (e, appended, last) = scan_entry-appends index entries result h in
      subst IsIndex (sym appended)
        (IsIndex-snoc entries e sorted (earlier_keys entries e.key sorted last))

-- Where `parse_tile_index` succeeds, the keys of its entries increase strictly.
pub parse_tile_index-IsIndex :
    (tidx : ChunkInfo) (header : DatabaseHeader) (packs : List PackInfo) (datasets : List ℕ)
    (path : String) (entries : List TileIndexEntry)
    → parse_tile_index tidx header packs datasets path ≡ success entries
    → IsIndex entries
unfolding parse_tile_index
parse_tile_index-IsIndex tidx header packs datasets path entries h =
    try_up_keeps IsIndex header.tile_count (scan_entry tidx header packs datasets path)
      (scan_entry-IsIndex tidx header packs datasets path) [] entries (unfold IsIndex in tt) scanned
  where
    scanned :
        try_up header.tile_count (scan_entry tidx header packs datasets path) [] ≡ success entries
    scanned =
        elim (Result-cases
          (try_up header.tile_count (scan_entry tidx header packs datasets path) [])) [
            | inl (es, e) ↦ let same : es ≡ entries = ground arith in e ∙ ap success same
            | inr (err, e) ↦ absurd (ground arith)
          ]
