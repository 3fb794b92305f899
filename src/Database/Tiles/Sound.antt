-- ===== src/Database/Tiles/Sound.antt =====
-- What a decoded tile guarantees.
use lunar_terrain_builder.Base.{
  ◌*◌, ◌<◌, ◌≡◌, inl, inr, ◌∙◌, refl, sym, ap, subst, arith, String, true, some, List, [], ◌∷◌, All,
  Pairwise, length,
}
use lunar_terrain_builder.Error.{success, Result-cases}
use lunar_terrain_builder.Error.Loops.{try_up}
use lunar_terrain_builder.ByteIo.{Bytes}
use lunar_terrain_builder.Zstandard.{Zstd}
use lunar_terrain_builder.Integrity.{Openssl}
use lunar_terrain_builder.Database.Bytes.{read_u16, read_u32}
use lunar_terrain_builder.Database.Header.{DatabaseHeader}
use lunar_terrain_builder.Database.Index.{TileIndexEntry}
use lunar_terrain_builder.Database.Floats.{Doubles}
use lunar_terrain_builder.Database.Provenance.{ProvenancePaletteEntry, TileProvenance}
use lunar_terrain_builder.Database.Provenance.Sound.{Names, parse_provenance_sound}
use lunar_terrain_builder.Database.Channels.{ChannelRecord, ChannelScan, scan_start, scan_channel}
use lunar_terrain_builder.Database.Channels.Sound.{channels-ScanInv}
use lunar_terrain_builder.Database.Tiles.{
  DecodedChannel, DecodedTerrainTile, Decoded, decoded_start, collect, check_tile_header, totals_ok,
  summaries_ok, tile_metadata, decode_tile,
}
use lunar_terrain_builder.Database.Tiles.Collect.{
  Lower, Sized, collect-ordered, collect-provenance, channel_provenance-parsed,
}

module _ (d : Doubles) (payload : Bytes) (entry : TileIndexEntry) (path : String) where
  module _ (o : Openssl) (z : Zstd) (header : DatabaseHeader) (tile : DecodedTerrainTile)
      (h : decode_tile d o z payload entry header path ≡ success tile) where
    -- The two loops, and what becomes of their results.
    pub record Parts : Type 0 where
      pub scan : ChannelScan
      pub decoded : Decoded
      pub checked : check_tile_header payload entry path ≡ success tt
      pub scanned :
          try_up
            (read_u16 payload 20)
            (scan_channel z payload entry path (read_u32 payload 52) (read_u32 payload 60))
            (scan_start (read_u32 payload 60))
          ≡ success scan
      pub totals : totals_ok payload entry scan ≡ true
      pub collected : collect d payload entry path scan.records decoded_start ≡ success decoded
      pub summaries : summaries_ok d header entry (tile_metadata payload) decoded.codes ≡ true
      pub made : tile ≡ record {
        key = entry.key;
        metadata = tile_metadata payload;
        channels = decoded.channels;
        provenance = decoded.provenance;
      }

    pub parts : Parts
    unfolding decode_tile
    parts = elim (Result-cases (check_tile_header payload entry path)) [
      | inr (x, e) ↦ absurd (ground arith)
      | inl (u, checked) ↦
          elim (Result-cases (
            try_up (read_u16 payload 20)
              (scan_channel z payload entry path (read_u32 payload 52) (read_u32 payload 60))
              (scan_start (read_u32 payload 60)))) [
                | inr (x, e) ↦ absurd (ground arith)
                | inl (scan, scanned) ↦
                    elim (Result-cases (collect d payload entry path scan.records decoded_start)) [
                      | inr (x, e) ↦ absurd (ground arith)
                      | inl (decoded, collected) ↦ record {
                        scan = scan;
                        decoded = decoded;
                        checked = checked;
                        scanned = scanned;
                        totals = ground arith;
                        collected = collected;
                        summaries = ground arith;
                        made = ground arith;
                      }
                    ]
              ]
    ]

-- The key of a decoded tile, and the order and the sizes of its channels.
decode_tile-parts :
    (d : Doubles) (o : Openssl) (z : Zstd) (payload : Bytes) (entry : TileIndexEntry)
    (header : DatabaseHeader) (path : String) (tile : DecodedTerrainTile)
    → decode_tile d o z payload entry header path ≡ success tile
    → (tile.key ≡ entry.key) × Pairwise Lower tile.channels × All Sized tile.channels
decode_tile-parts d o z payload entry header path tile h =
    let v = parts d payload entry path o z header tile h in
    let inv =
      channels-ScanInv z payload entry path (read_u32 payload 52) (read_u32 payload 60)
        (read_u16 payload 20) v.scan v.scanned in
    let (sorted, sized) =
      collect-ordered d payload entry path v.scan.records decoded_start v.decoded inv.ordered
        inv.fit (unfold decoded_start in tt) (unfold decoded_start in tt)
        (no_channel v.scan.records) v.collected in
    rw v.made (refl, sorted, sized)
  where
    no_channel :
        (records : List ChannelRecord)
        → All
            (λ (r : ChannelRecord).
              All (λ (c : DecodedChannel). c.id < r.id) decoded_start.channels)
            records
    no_channel [] = tt
    no_channel (r ∷ records) = (unfold decoded_start in tt, no_channel records)

-- A decoded tile has the key that the index has, and its channels have strictly increasing
-- identifiers.
pub decode_tile-channels :
    (d : Doubles) (o : Openssl) (z : Zstd) (payload : Bytes) (entry : TileIndexEntry)
    (header : DatabaseHeader) (path : String) (tile : DecodedTerrainTile)
    → decode_tile d o z payload entry header path ≡ success tile
    → (tile.key ≡ entry.key) × Pairwise Lower tile.channels
decode_tile-channels d o z payload entry header path tile h =
    let (key, sorted, sized) = decode_tile-parts d o z payload entry header path tile h in
    (key, sorted)

pub channels-Sized :
    (d : Doubles) (o : Openssl) (z : Zstd) (payload : Bytes) (entry : TileIndexEntry)
    (header : DatabaseHeader) (path : String) (tile : DecodedTerrainTile)
    → decode_tile d o z payload entry header path ≡ success tile
    → All Sized tile.channels
channels-Sized d o z payload entry header path tile h =
    (decode_tile-parts d o z payload entry header path tile h).2

-- The provenance of a decoded tile names the tile's primary dataset in a palette of strictly
-- increasing datasets, which has the length that the tile's header gives, and its map has one index
-- into the palette for each sample.
pub decode_tile-provenance :
    (d : Doubles) (o : Openssl) (z : Zstd) (payload : Bytes) (entry : TileIndexEntry)
    (header : DatabaseHeader) (path : String) (tile : DecodedTerrainTile) (p : TileProvenance)
    → decode_tile d o z payload entry header path ≡ success tile
    → tile.provenance ≡ some p
    → Pairwise (λ (e f : ProvenancePaletteEntry). e.dataset_id < f.dataset_id) p.palette
      × Names p.palette tile.metadata.primary_dataset
      × (length p.palette ≡ read_u16 payload 48)
      × (length p.dominant_source_indices ≡ p.map_width * p.map_height)
      × All (λ i. i < length p.palette) p.dominant_source_indices
unfolding tile_metadata decoded_start
decode_tile-provenance d o z payload entry header path tile p h e =
    let v = parts d payload entry path o z header tile h in
    let here' : v.decoded.provenance ≡ some p =
      sym (ap (λ (t : DecodedTerrainTile). t.provenance) v.made) ∙ e in
    let primary : read_u32 payload 44 ≡ tile.metadata.primary_dataset =
      sym (ap (λ (t : DecodedTerrainTile). t.metadata.primary_dataset) v.made) in
    elim (collect-provenance d payload entry path v.scan.records decoded_start v.decoded p
      v.collected here') [
        | inl early ↦ cc early
        | inr (r, ok) ↦
            let (parsed, size) = channel_provenance-parsed d payload entry path r p ok in
            let (sorted, named, count, inside) =
              parse_provenance_sound d r.decoded r.id (read_u32 payload 44) path _ _ p parsed in
            (sorted, subst (Names p.palette) primary named, size, count, inside)
      ]
