-- ===== src/Database/Provenance/Sound.antt =====
-- What a parsed provenance guarantees.
use lunar_terrain_builder.Base.{
  ℕ, suc, ◌+◌, ◌*◌, ◌≤◌, ◌<◌, ◌≡◌, ◌⊎◌, inl, inr, ◌∙◌, refl, sym, ap, subst, arith, String, true,
  false, List, [], ◌∷◌, ◌++◌, All, All-snoc, All-map, Pairwise, Pairwise-snoc, length,
  length-append,
}
use mathlib.Core.List.{Memᴰ}
use mathlib.Core.List.Memᴰ.{head, append_left, append_right}
use lunar_terrain_builder.Error.{success, Result-cases}
use lunar_terrain_builder.Error.Loops.{try_up, try_up_counts}
use lunar_terrain_builder.ByteIo.{Bytes}
use lunar_terrain_builder.Database.Bytes.{read_u8, read_u16}
use lunar_terrain_builder.Database.Floats.{Doubles}
use lunar_terrain_builder.Database.Provenance.{
  ProvenancePaletteEntry, TileProvenance, PaletteScan, provenance_palette_entry, palette_start,
  palette_entry, map_index, provenance_header, scan_palette, scan_map, parse_provenance,
}

-- An entry of the palette is for the dataset.
abbrev pub Names : List ProvenancePaletteEntry → ℕ → Type 0
Names palette dataset = (e : ProvenancePaletteEntry) × Memᴰ e palette × (e.dataset_id ≡ dataset)

module _ (d : Doubles) (bytes : Bytes) (channel_id primary : ℕ) (path : String)
    (offset tile_key n : ℕ) where
  record ScanInv (count : ℕ) (s : PaletteScan d) : Type 0 where
    pub counted : length s.palette ≡ count
    pub sorted : Pairwise (λ (e f : ProvenancePaletteEntry). e.dataset_id < f.dataset_id) s.palette
    pub below : All (λ (e : ProvenancePaletteEntry). e.dataset_id ≤ s.previous_dataset) s.palette
    pub starts : s.first ≡ true → s.palette ≡ []
    pub primary_named : s.primary_present ≡ true → Names s.palette primary

  start-ScanInv : ScanInv 0 (palette_start d)
  unfolding palette_start
  start-ScanInv = record {
    counted = refl;
    sorted = tt;
    below = tt;
    starts = λ h. refl;
    primary_named = λ h. cc;
  }

  scan_palette-appends :
      (i : ℕ) (s t : PaletteScan d)
      → scan_palette d bytes channel_id primary path offset tile_key i s ≡ success t
      → (t.palette ≡ s.palette ++ palette_entry bytes i ∷ [])
        × (t.first ≡ false)
        × (t.previous_dataset ≡ (palette_entry bytes i).dataset_id)
        × ((s.first ≡ true) ⊎ (s.previous_dataset < (palette_entry bytes i).dataset_id))
        × ((t.primary_present ≡ true)
            → (s.primary_present ≡ true) ⊎ ((palette_entry bytes i).dataset_id ≡ primary))
  unfolding scan_palette
  scan_palette-appends i s t h =
      (ground arith, ground arith, ground arith, ground arith, λ q. ground arith)

  scan_palette-ScanInv :
      (i : ℕ) (s t : PaletteScan d)
      → i < n
      → ScanInv i s
      → scan_palette d bytes channel_id primary path offset tile_key i s ≡ success t
      → ScanInv (suc i) t
  scan_palette-ScanInv i s t lt v h =
      let (appended, later, previous, order, named) = scan_palette-appends i s t h in
      let e = palette_entry bytes i in
      let before : All (λ (f : ProvenancePaletteEntry). f.dataset_id < e.dataset_id) s.palette =
        elim order [
          | inl none_yet ↦
              subst (All (λ (f : ProvenancePaletteEntry). f.dataset_id < e.dataset_id))
                (sym (v.starts none_yet)) tt
          | inr more ↦ All-map _ _ (λ f le. omega arith) s.palette v.below
        ] in
      record {
        counted = ap length appended ∙ length-append s.palette (e ∷ []) ∙ omega (arith, v.counted);
        sorted =
            subst (Pairwise (λ (e f : ProvenancePaletteEntry). e.dataset_id < f.dataset_id))
              (sym appended) (Pairwise-snoc _ s.palette e v.sorted before);
        below =
            rw (appended, previous)
              (All-snoc _ s.palette e (All-map _ _ (λ f le. omega arith) s.palette before)
                (omega arith));
        starts = λ q. cc (q, later);
        primary_named = λ q. rw appended (elim (named q) [
          | inl old ↦ let (f, m, same) = v.primary_named old in (f, append_left (e ∷ []) m, same)
          | inr new' ↦ (e, append_right s.palette (head refl), new')
        ]);
      }

module _ (bytes : Bytes) (index_width palette_count palette_bytes : ℕ) (path : String)
    (offset : ℕ) where
  abbrev MapInv : ℕ → List ℕ → Type 0
  MapInv count indices = (length indices ≡ count) × All (λ i. i < palette_count) indices

  scan_map-MapInv :
      (n i : ℕ) (s t : List ℕ)
      → i < n
      → MapInv i s
      → scan_map bytes index_width palette_count palette_bytes path offset i s ≡ success t
      → MapInv (suc i) t
  unfolding scan_map
  scan_map-MapInv n i s t lt (counted, inside) h =
      let x = map_index bytes index_width (provenance_header + palette_bytes + i * index_width) in
      let small : x < palette_count = ground arith in
      let appended : t ≡ s ++ x ∷ [] = ground arith in
      rw appended (
        length-append s (x ∷ []) ∙ omega (arith, counted),
        All-snoc (λ k. k < palette_count) s x inside small,
      )

-- The parts of a parse that succeeds.
parse_provenance-parts :
    (d : Doubles) (bytes : Bytes) (channel_id primary : ℕ) (path : String) (offset tile_key : ℕ)
    (p : TileProvenance)
    → parse_provenance d bytes channel_id primary path offset tile_key ≡ success p
    → (s : PaletteScan d) × (try_up
          (read_u16 bytes 2)
          (scan_palette d bytes channel_id primary path offset tile_key)
          (palette_start d)
        ≡ success s)
      × (s.primary_present ≡ true)
      × (p.palette ≡ s.palette)
      × (try_up
            (p.map_width * p.map_height)
            (scan_map bytes
              (read_u8 bytes 8)
              (read_u16 bytes 2)
              (read_u16 bytes 2 * provenance_palette_entry)
              path
              offset)
            []
          ≡ success p.dominant_source_indices)
unfolding parse_provenance
parse_provenance-parts d bytes channel_id primary path offset tile_key p h =
    elim (Result-cases (
      try_up (read_u16 bytes 2) (scan_palette d bytes channel_id primary path offset tile_key)
        (palette_start d))) [
          | inr (x, e) ↦ absurd (ground arith)
          | inl (s, e) ↦
              elim (Result-cases (
                try_up (read_u16 bytes 4 * read_u16 bytes 6)
                  (scan_map bytes (read_u8 bytes 8) (read_u16 bytes 2)
                    (read_u16 bytes 2 * provenance_palette_entry) path offset)
                  [])) [
                    | inr (x, f) ↦ absurd (ground arith)
                    | inl (indices, f) ↦
                        let width : p.map_width ≡ read_u16 bytes 4 = ground arith in
                        let height : p.map_height ≡ read_u16 bytes 6 = ground arith in
                        let map : p.dominant_source_indices ≡ indices = ground arith in
                        (s, e, ground arith, ground arith, rw (width, height, map) f)
                  ]
        ]

-- Where `parse_provenance` succeeds, the datasets of the palette increase strictly and the primary
-- dataset is one of them, and the map has one index for each of its samples, none of them outside the
-- palette.
pub parse_provenance_sound :
    (d : Doubles) (bytes : Bytes) (channel_id primary : ℕ) (path : String) (offset tile_key : ℕ)
    (p : TileProvenance)
    → parse_provenance d bytes channel_id primary path offset tile_key ≡ success p
    → Pairwise (λ (e f : ProvenancePaletteEntry). e.dataset_id < f.dataset_id) p.palette
      × Names p.palette primary
      × (length p.dominant_source_indices ≡ p.map_width * p.map_height)
      × All (λ i. i < length p.palette) p.dominant_source_indices
parse_provenance_sound d bytes channel_id primary path offset tile_key p h =
    let (s, scanned, named, same, mapped) =
      parse_provenance-parts d bytes channel_id primary path offset tile_key p h in
    let v =
      try_up_counts (ScanInv d bytes channel_id primary path offset tile_key (read_u16 bytes 2))
        (read_u16 bytes 2) _
        (scan_palette-ScanInv d bytes channel_id primary path offset tile_key (read_u16 bytes 2))
        (palette_start d) s
        (start-ScanInv d bytes channel_id primary path offset tile_key (read_u16 bytes 2))
        scanned in
    let (counted, inside) =
      try_up_counts
        (MapInv bytes (read_u8 bytes 8) (read_u16 bytes 2)
          (read_u16 bytes 2 * provenance_palette_entry) path offset)
        (p.map_width * p.map_height) _
        (scan_map-MapInv bytes (read_u8 bytes 8) (read_u16 bytes 2)
          (read_u16 bytes 2 * provenance_palette_entry) path offset (p.map_width * p.map_height))
        [] p.dominant_source_indices (refl, tt) mapped in
    rw same (
      v.sorted,
      v.primary_named named,
      counted,
      All-map _ _ (λ i lt. omega (arith, v.counted)) p.dominant_source_indices inside,
    )
