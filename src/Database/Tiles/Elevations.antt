-- ===== src/Database/Tiles/Elevations.antt =====
-- The elevation samples of a decoded tile against the codes that the index gives.
use lunar_terrain_builder.Base.{
  ℕ, suc, ◌+◌, ◌*◌, ◌/◌, ◌≤◌, ◌<◌, ◌≡◌, ◌⊎◌, inl, inr, refl, ap, subst, arith, String, true, List,
  [], ◌∷◌, ◌++◌, All, All-snoc, All-map, All-Mem, length, ◌==◌, Bool-cases,
}
use lunar_terrain_builder.Base.Loops.{for_up_inv}
use mathlib.Core.List.{Memᴰ}
use lunar_terrain_builder.Error.{success, Result-cases}
use lunar_terrain_builder.ByteIo.{Bytes}
use lunar_terrain_builder.Zstandard.{Zstd}
use lunar_terrain_builder.Integrity.{Openssl}
use lunar_terrain_builder.Database.Bytes.{read_u16}
use lunar_terrain_builder.Database.Header.{DatabaseHeader}
use lunar_terrain_builder.Database.Index.{TileIndexEntry}
use lunar_terrain_builder.Database.Floats.{Doubles}
use lunar_terrain_builder.Database.Channels.{ChannelRecord, elevation, provenance}
use lunar_terrain_builder.Database.Tiles.{
  DecodedChannel, DecodedTerrainTile, DecodedTileMetadata, Decoded, channel_of, not_decoded,
  decoded_start, code_range, parse_channel_provenance, collect, summaries_ok, tile_metadata,
  decode_tile,
}
use lunar_terrain_builder.Database.Tiles.Collect.{Sized}
use lunar_terrain_builder.Database.Tiles.Sound.{parts, channels-Sized}

-- The sample lies in the range.
abbrev Between : ℕ × ℕ → ℕ → Type 0
Between range code = (range.0 ≤ code) × (code ≤ range.1)

abbrev Wider : ℕ × ℕ → ℕ × ℕ → Type 0
Wider range old = (range.0 ≤ old.0) × (old.1 ≤ range.1)

code_range-Between :
    (decoded : Bytes) (range : ℕ × ℕ)
    → Wider (code_range decoded range) range
      × ((i : ℕ)
          → i * 2 < length decoded
          → Between (code_range decoded range) (read_u16 decoded (i * 2)))
unfolding code_range
code_range-Between decoded range =
    let (wider, inside) =
      for_up_inv
        (λ n (s : ℕ × ℕ). Wider s range × ((i : ℕ) → i < n → Between s (read_u16 decoded (i * 2))))
        ((length decoded + 1) / 2) _
        (λ i s lt (w, all). (
          (omega (arith, w.0), omega (arith, w.1)),
          λ j below. elim (last_or_before i j below) [
            | inl e ↦
                let same : read_u16 decoded (j * 2) ≡ read_u16 decoded (i * 2) =
                  ap (λ (k : ℕ). read_u16 decoded (k * 2)) e in
                (omega (arith, same), omega (arith, same))
            | inr before ↦ (omega (arith, (all j before).0), omega (arith, (all j before).1))
          ],
        ))
        range ((omega arith, omega arith), λ i lt. absurd (omega arith)) in
    (wider, λ i lt. inside i (omega arith))
  where
    last_or_before : (i j : ℕ) → j < suc i → (j ≡ i) ⊎ (j < i)
    last_or_before i j h = ground arith

-- Every sample of an elevation channel lies in the range.
abbrev InCodes : ℕ × ℕ → DecodedChannel → Type 0
InCodes range c =
    c.id ≡ elevation → (i : ℕ) → i * 2 < length c.bytes → Between range (read_u16 c.bytes (i * 2))

module _ (d : Doubles) (payload : Bytes) (entry : TileIndexEntry) (path : String) where
  collect-codes_round :
      (r : ChannelRecord) (rest : List ChannelRecord) (s t : Decoded)
      → collect d payload entry path (r ∷ rest) s ≡ success t
      → (s' : Decoded) × (collect d payload entry path rest s' ≡ success t)
        × Wider s'.codes s.codes
        × ((s'.channels ≡ s.channels)
            ⊎ (s'.channels ≡ s.channels ++ channel_of r ∷ []) × InCodes s'.codes (channel_of r))
  unfolding collect channel_of
  collect-codes_round r rest s t h = elim (Bool-cases (not_decoded r)) [
    | inl skipped ↦ (s, rw skipped at h, (omega arith, omega arith), inl refl)
    | inr there ↦ elim (Bool-cases (r.id == elevation)) [
      | inl elev ↦
          let (wider, inside) = code_range-Between r.decoded s.codes in
          (_, rw (there, elev) at h, wider, inr (refl, λ e. inside))
      | inr other ↦ elim (Bool-cases (r.id == provenance)) [
        | inr rest' ↦ (
          _,
          rw (there, other, rest') at h,
          (omega arith, omega arith),
          inr (refl, λ e. absurd (ground arith)),
        )
        | inl prov ↦ elim (Result-cases (parse_channel_provenance d payload entry path r)) [
          | inl (p, e) ↦ (
            _,
            rw (there, other, prov, e) at h,
            (omega arith, omega arith),
            inr (refl, λ q. absurd (ground arith)),
          )
          | inr (x, e) ↦ cc (rw (there, other, prov, e) at h)
        ]
      ]
    ]
  ]

  InCodes-widen :
      (new' old : ℕ × ℕ) (c : DecodedChannel) → Wider new' old → InCodes old c → InCodes new' c
  InCodes-widen new' old c w inside e i lt =
      let (low, high) = inside e i lt in (omega (arith, w.0, low), omega (arith, w.1, high))

  collect-InCodes :
      (rest : List ChannelRecord) (s t : Decoded)
      → collect d payload entry path rest s ≡ success t
      → All (InCodes s.codes) s.channels
      → All (InCodes t.codes) t.channels
  unfolding collect
  collect-InCodes [] s t h all = let same : s ≡ t = ground arith in rw (← same) all
  collect-InCodes (r ∷ rest) s t h all =
      let (s', next, wider, channels) = collect-codes_round r rest s t h in
      let old =
        All-map (InCodes s.codes) (InCodes s'.codes) (λ c. InCodes-widen s'.codes s.codes c wider)
          s.channels all in
      collect-InCodes rest s' t next (elim channels [
        | inl same ↦ rw same old
        | inr (pushed, new') ↦
            rw pushed (All-snoc (InCodes s'.codes) s.channels (channel_of r) old new')
      ])

summaries_ok-codes :
    (d : Doubles) (header : DatabaseHeader) (entry : TileIndexEntry) (m : DecodedTileMetadata)
    (range : ℕ × ℕ)
    → summaries_ok d header entry m range ≡ true
    → (range.0 ≡ entry.minimum_elevation_code) × (range.1 ≡ entry.maximum_elevation_code)
unfolding summaries_ok
summaries_ok-codes d header entry m range h = (ground arith, ground arith)

-- The elevation channel of a decoded tile fills its grid with two bytes for each sample, and every
-- sample lies between the two elevation codes that the index has for the tile.
pub decode_tile-elevations :
    (d : Doubles) (o : Openssl) (z : Zstd) (payload : Bytes) (entry : TileIndexEntry)
    (header : DatabaseHeader) (path : String) (tile : DecodedTerrainTile) (c : DecodedChannel)
    (i : ℕ)
    → decode_tile d o z payload entry header path ≡ success tile
    → Memᴰ c tile.channels
    → c.id ≡ elevation
    → i < c.width * c.height
    → (c.width * c.height * 2 ≡ length c.bytes)
      × (entry.minimum_elevation_code ≤ read_u16 c.bytes (i * 2))
      × (read_u16 c.bytes (i * 2) ≤ entry.maximum_elevation_code)
unfolding decoded_start
decode_tile-elevations d o z payload entry header path tile c i h m e lt =
    let v = parts d payload entry path o z header tile h in
    let size =
      (All-Mem Sized tile.channels c (channels-Sized d o z payload entry header path tile h)
          m).elevations
        e in
    let all =
      collect-InCodes d payload entry path v.scan.records decoded_start v.decoded v.collected tt in
    let there : Memᴰ c v.decoded.channels =
      subst (λ (t : DecodedTerrainTile). Memᴰ c t.channels) v.made m in
    let (low, high) =
      All-Mem (InCodes v.decoded.codes) v.decoded.channels c all there e i (omega (arith, size)) in
    let (least, greatest) =
      summaries_ok-codes d header entry (tile_metadata payload) v.decoded.codes v.summaries in
    (size, omega (arith, low, least), omega (arith, high, greatest))
