-- ===== src/Database/Tiles/Collect.antt =====
-- The loop of `decode_tile` that collects the channels and parses the provenance.
use lunar_terrain_builder.Base.{
  ◌+◌, ◌*◌, ◌<◌, ◌≡◌, ◌⊎◌, inl, inr, ◌∙◌, refl, sym, ap, arith, String, true, some, List, [], ◌∷◌,
  ◌++◌, All, All-snoc, Pairwise, Pairwise-snoc, length, ◌==◌, Bool-cases, some-injective,
}
use lunar_terrain_builder.Error.{success, Result-cases}
use lunar_terrain_builder.ByteIo.{Bytes}
use lunar_terrain_builder.Database.Bytes.{read_u16, read_u32}
use lunar_terrain_builder.Database.Index.{TileIndexEntry}
use lunar_terrain_builder.Database.Floats.{Doubles}
use lunar_terrain_builder.Database.Provenance.{TileProvenance, parse_provenance}
use lunar_terrain_builder.Database.Channels.{
  ChannelRecord, known_channel, contract_ok, elevation, provenance, quality,
}
use lunar_terrain_builder.Database.Channels.Sound.{Before, Fits, elevation-size, quality-size}
use lunar_terrain_builder.Database.Tiles.{
  DecodedChannel, Decoded, channel_of, not_decoded, parse_channel_provenance, collect,
}

abbrev pub Lower : DecodedChannel → DecodedChannel → Type 0
Lower c e = c.id < e.id

-- The samples of a channel that the reader knows fill its grid: two bytes for each elevation, one
-- for each quality flag.
pub record Sized (c : DecodedChannel) : Type 0 where
  pub elevations : c.id ≡ elevation → c.width * c.height * 2 ≡ length c.bytes
  pub qualities : c.id ≡ quality → c.width * c.height ≡ length c.bytes

contract-Sized :
    (r : ChannelRecord) → (known_channel r.id ≡ true → contract_ok r ≡ true) → Sized (channel_of r)
unfolding channel_of
contract-Sized r h = record { elevations = elevation-size r h; qualities = quality-size r h }

module _ (d : Doubles) (payload : Bytes) (entry : TileIndexEntry) (path : String) where
  -- One round: a channel is kept or passed over, and a provenance is parsed or left as it is.
  collect-round :
      (r : ChannelRecord) (rest : List ChannelRecord) (s t : Decoded)
      → collect d payload entry path (r ∷ rest) s ≡ success t
      → (s' : Decoded) × (collect d payload entry path rest s' ≡ success t)
        × ((s'.channels ≡ s.channels) ⊎ (s'.channels ≡ s.channels ++ channel_of r ∷ []))
        × ((s'.provenance ≡ s.provenance)
            ⊎ ((p : TileProvenance) × (s'.provenance ≡ some p)
                × (parse_channel_provenance d payload entry path r ≡ success p)))
  unfolding collect
  collect-round r rest s t h = elim (Bool-cases (not_decoded r)) [
    | inl skipped ↦ (s, rw skipped at h, inl refl, inl refl)
    | inr there ↦ elim (Bool-cases (r.id == elevation)) [
      | inl elev ↦ (_, rw (there, elev) at h, inr refl, inl refl)
      | inr other ↦ elim (Bool-cases (r.id == provenance)) [
        | inr rest' ↦ (_, rw (there, other, rest') at h, inr refl, inl refl)
        | inl prov ↦ elim (Result-cases (parse_channel_provenance d payload entry path r)) [
          | inl (p, e) ↦ (_, rw (there, other, prov, e) at h, inr refl, inr (p, refl, e))
          | inr (x, e) ↦ cc (rw (there, other, prov, e) at h)
        ]
      ]
    ]
  ]

  pub collect-ordered :
      (rest : List ChannelRecord) (s t : Decoded)
      → Pairwise Before rest
      → All (Fits payload (read_u32 payload 60)) rest
      → Pairwise Lower s.channels
      → All Sized s.channels
      → All (λ (r : ChannelRecord). All (λ (c : DecodedChannel). c.id < r.id) s.channels) rest
      → collect d payload entry path rest s ≡ success t
      → Pairwise Lower t.channels × All Sized t.channels
  unfolding collect
  collect-ordered [] s t before fit sorted sized apart h =
      let same : s ≡ t = ground arith in rw (← same) (sorted, sized)
  collect-ordered (r ∷ rest) s t before fit sorted sized apart h =
      let (s', next, channels, parsed) = collect-round r rest s t h in
      elim channels [
        | inl same ↦
            collect-ordered rest s' t before.1 fit.1 (rw same sorted) (rw same sized)
              (rw same apart.1) next
        | inr pushed ↦
            collect-ordered rest s' t before.1 fit.1
              (rw pushed (
                Pairwise-snoc Lower s.channels (channel_of r) sorted
                  (unfold channel_of in apart.0)))
              (rw pushed
                (All-snoc Sized s.channels (channel_of r) sized (contract-Sized r fit.0.contract)))
              (rw pushed (later rest before.0 apart.1)) next
      ]
    where
      later :
          (rest : List ChannelRecord)
          → All (Before r) rest
          → All (λ (q : ChannelRecord). All (λ (c : DecodedChannel). c.id < q.id) s.channels) rest
          → All
              (λ (q : ChannelRecord).
                All (λ (c : DecodedChannel). c.id < q.id) (s.channels ++ channel_of r ∷ []))
              rest
      later [] b a = tt
      later (q ∷ rest) b a = (
        All-snoc (λ (c : DecodedChannel). c.id < q.id) s.channels (channel_of r) a.0
            (unfold channel_of in b.0.0),
        later rest b.1 a.1,
      )

  pub collect-provenance :
      (rest : List ChannelRecord) (s t : Decoded) (p : TileProvenance)
      → collect d payload entry path rest s ≡ success t
      → t.provenance ≡ some p
      → (s.provenance ≡ some p)
        ⊎ ((r : ChannelRecord) × (parse_channel_provenance d payload entry path r ≡ success p))
  unfolding collect
  collect-provenance [] s t p h e =
      let same : s ≡ t = ground arith in inl (ap (λ (q : Decoded). q.provenance) same ∙ e)
  collect-provenance (r ∷ rest) s t p h e =
      let (s', next, channels, parsed) = collect-round r rest s t h in
      elim (collect-provenance rest s' t p next e) [
        | inr found ↦ inr found
        | inl had ↦ elim parsed [
          | inl same ↦ inl (sym same ∙ had)
          | inr (p', now, ok) ↦ inr (r, ok ∙ ap success (some-injective p' p (sym now ∙ had)))
        ]
      ]

  pub channel_provenance-parsed :
      (r : ChannelRecord) (p : TileProvenance)
      → parse_channel_provenance d payload entry path r ≡ success p
      → (parse_provenance d r.decoded r.id
            (read_u32 payload 44)
            path
            (entry.payload_offset + r.data_offset)
            entry.key.encoded
          ≡ success p)
        × (length p.palette ≡ read_u16 payload 48)
  unfolding parse_channel_provenance
  channel_provenance-parsed r p h =
      elim (Result-cases (
        parse_provenance d r.decoded r.id (read_u32 payload 44) path
          (entry.payload_offset + r.data_offset) entry.key.encoded)) [
            | inr (x, e) ↦ absurd (ground arith)
            | inl (q, e) ↦ let same : q ≡ p = ground arith in (e ∙ ap success same, ground arith)
          ]
