-- ===== src/Database/Channels/Sound.antt =====
-- What the loop over the channel records guarantees.
use lunar_terrain_builder.Base.{
  ℕ, suc, ◌+◌, ◌*◌, ◌≤◌, ◌<◌, ◌≡◌, ◌⊎◌, inl, inr, ◌∙◌, refl, sym, ap, subst, arith, String, Bool,
  true, false, ◌||◌, List, [], ◌∷◌, ◌++◌, All, All-snoc, All-map, Pairwise, Pairwise-snoc, length,
  length-append, ◌==◌, Bool-cases, subspan,
}
use mathlib.Core.List.{Memᴰ}
use mathlib.Core.List.Memᴰ.{head, append_left, append_right}
use lunar_terrain_builder.Error.{success, Result-cases}
use lunar_terrain_builder.Error.Loops.{try_up, try_up_counts}
use lunar_terrain_builder.ByteIo.{Bytes}
use lunar_terrain_builder.Zstandard.{Zstd}
use lunar_terrain_builder.Database.Bytes.{range_fits}
use lunar_terrain_builder.Database.Index.{TileIndexEntry}
use lunar_terrain_builder.Database.Channels.{
  ChannelRecord, ChannelScan, channel_record, elevation, provenance, quality, known_channel,
  contract_ok, record_fields, misplaced, pass_record, keep_record, decode_channel, decode_known,
  decode_record, scan_channel, scan_start,
}

-- The stored bytes of the first end where those of the second start, or before.
abbrev pub Before : ChannelRecord → ChannelRecord → Type 0
Before r t = (r.id < t.id) × (r.data_offset + r.stored_bytes ≤ t.data_offset)

-- A record that is kept: its stored bytes lie in the data region, and a known channel keeps its contract.
pub record Fits (payload : Bytes) (data_offset : ℕ) (r : ChannelRecord) : Type 0 where
  pub starts : data_offset ≤ r.data_offset
  pub ends : r.data_offset + r.stored_bytes ≤ length payload
  pub contract : known_channel r.id ≡ true → contract_ok r ≡ true

-- The decoded samples of a channel that keeps its contract fill its grid.
pub elevation-size :
    (r : ChannelRecord)
    → (known_channel r.id ≡ true → contract_ok r ≡ true)
    → r.id ≡ elevation
    → r.width * r.height * 2 ≡ length r.decoded
unfolding known_channel contract_ok
elevation-size r h e = let kept = h (ground arith) in ground arith

pub quality-size :
    (r : ChannelRecord)
    → (known_channel r.id ≡ true → contract_ok r ≡ true)
    → r.id ≡ quality
    → r.width * r.height ≡ length r.decoded
unfolding known_channel contract_ok
quality-size r h e = let kept = h (ground arith) in ground arith

module _ (z : Zstd) (payload : Bytes) (entry : TileIndexEntry) (path : String)
    (directory_offset data_offset : ℕ) where
  abbrev nth_record : ℕ → ChannelRecord
  nth_record index =
      record_fields (subspan payload (directory_offset + index * channel_record) channel_record)

  decode_known-contract :
      (r t : ChannelRecord) (stored : Bytes) (tile_offset record_offset tile_key : ℕ)
      → decode_known z r stored path tile_offset record_offset tile_key ≡ success t
      → (t ≡ record r { decoded = t.decoded }) × (contract_ok t ≡ true)
  unfolding decode_known
  decode_known-contract r t stored tile_offset record_offset tile_key h =
      elim (Result-cases (decode_channel z r stored path (tile_offset + r.data_offset) tile_key)) [
        | inr (x, e) ↦ absurd (ground arith)
        | inl (b, e) ↦
            let made : t ≡ record r { decoded = b } = ground arith in
            let kept : contract_ok (record r { decoded = b }) ≡ true = ground arith in
            (
              made
                  ∙ ap (λ (c : Bytes). record r { decoded = c })
                      (sym (ap (λ (q : ChannelRecord). q.decoded) made)),
              ap contract_ok made ∙ kept,
            )
      ]

  decode_record-contract :
      (r t : ChannelRecord) (stored : Bytes) (tile_offset record_offset tile_key : ℕ)
      → decode_record z r stored path tile_offset record_offset tile_key ≡ success t
      → (t ≡ record r { decoded = t.decoded }) × (known_channel t.id ≡ true → contract_ok t ≡ true)
  unfolding decode_record
  decode_record-contract r t stored tile_offset record_offset tile_key h =
      elim (Bool-cases (known_channel r.id)) [
        | inl known ↦
            let (same, kept) =
              decode_known-contract r t stored tile_offset record_offset tile_key (rw known at h) in
            (same, λ q. kept)
        | inr unknown ↦
            let same : t ≡ r = ground arith in
            (
              same
                  ∙ ap (λ (c : Bytes). record r { decoded = c })
                      (sym (ap (λ (q : ChannelRecord). q.decoded) same)),
              λ q. cc (ap (λ (c : ChannelRecord). known_channel c.id) same, q, unknown),
            )
      ]

  scan_channel-round :
      (i : ℕ) (s t : ChannelScan)
      → scan_channel z payload entry path directory_offset data_offset i s ≡ success t
      → (misplaced payload data_offset i (nth_record i) s ≡ false)
        × ((r : ChannelRecord) × (r ≡ record (nth_record i) { decoded = r.decoded })
            × (t ≡ keep_record r (pass_record (nth_record i) s))
            × (known_channel r.id ≡ true → contract_ok r ≡ true))
  unfolding scan_channel
  scan_channel-round i s t h =
      elim (Result-cases (
        decode_record z (nth_record i)
          (subspan payload (nth_record i).data_offset (nth_record i).stored_bytes) path
          entry.payload_offset (directory_offset + i * channel_record) entry.key.encoded)) [
            | inr (x, e) ↦ absurd (ground arith)
            | inl (r, e) ↦
                let made : t ≡ keep_record r (pass_record (nth_record i) s) = ground arith in
                let (same, kept) = decode_record-contract (nth_record i) r _ _ _ _ e in
                (ground arith, (r, same, made, kept))
          ]

  misplaced-false :
      (i : ℕ) (r : ChannelRecord) (s : ChannelScan)
      → misplaced payload data_offset i r s ≡ false
      → ((i ≡ 0) ⊎ (s.previous_id < r.id))
        × (s.previous_data_end ≤ r.data_offset)
        × (data_offset ≤ r.data_offset)
        × (r.data_offset + r.stored_bytes ≤ length payload)
  unfolding misplaced range_fits
  misplaced-false i r s h = (ground arith, ground arith, ground arith, ground arith)

  pub record ScanInv (count : ℕ) (s : ChannelScan) : Type 0 where
    pub counted : length s.records ≡ count
    pub ordered : Pairwise Before s.records
    pub passed :
        All
          (λ (r : ChannelRecord).
            (r.id ≤ s.previous_id) × (r.data_offset + r.stored_bytes ≤ s.previous_data_end))
          s.records
    pub fit : All (Fits payload data_offset) s.records
    pub elevation_kept :
        s.saw_elevation ≡ true → (r : ChannelRecord) × Memᴰ r s.records × (r.id ≡ elevation)
    pub provenance_kept :
        s.saw_provenance ≡ true → (r : ChannelRecord) × Memᴰ r s.records × (r.id ≡ provenance)

  start-ScanInv : ScanInv 0 (scan_start data_offset)
  unfolding scan_start
  start-ScanInv = record {
    counted = refl;
    ordered = tt;
    passed = tt;
    fit = tt;
    elevation_kept = λ h. cc;
    provenance_kept = λ h. cc;
  }

  -- A flag that is set stands for a record that is kept.
  kept_flag :
      (records : List ChannelRecord) (r : ChannelRecord) (saw : Bool) (id : ℕ)
      → (saw ≡ true → (q : ChannelRecord) × Memᴰ q records × (q.id ≡ id))
      → (saw || r.id == id) ≡ true
      → (q : ChannelRecord) × Memᴰ q (records ++ r ∷ []) × (q.id ≡ id)
  kept_flag records r true id old h = let (q, m, e) = old refl in (q, append_left (r ∷ []) m, e)
  kept_flag records r false id old h = (r, append_right records (head refl), ground arith)

  -- No record is there yet, or those that are come before this one.
  earlier_records :
      (i : ℕ) (s : ChannelScan) (r : ChannelRecord)
      → ScanInv i s
      → (i ≡ 0) ⊎ (s.previous_id < r.id)
      → s.previous_data_end ≤ r.data_offset
      → All (λ q. Before q r) s.records
  earlier_records i s r v (inr later) h =
      All-map _ _ (λ q (le, end). (omega arith, omega arith)) s.records v.passed
  earlier_records i s r v (inl none_yet) h = nothing s.records (v.counted ∙ none_yet)
    where
      nothing : (records : List ChannelRecord) → length records ≡ 0 → All (λ q. Before q r) records
      nothing [] e = tt
      nothing (q ∷ records) e = absurd (omega arith)

  keep-ScanInv :
      (i : ℕ) (s : ChannelScan) (r : ChannelRecord)
      → ScanInv i s
      → misplaced payload data_offset i r s ≡ false
      → (known_channel r.id ≡ true → contract_ok r ≡ true)
      → ScanInv (suc i) (keep_record r (pass_record r s))
  unfolding keep_record pass_record
  keep-ScanInv i s r v placed contract =
      let (order, gap, inside, ends) = misplaced-false i r s placed in
      let before = earlier_records i s r v order gap in
      record {
        counted = length-append s.records (r ∷ []) ∙ omega (arith, v.counted);
        ordered = Pairwise-snoc Before s.records r v.ordered before;
        passed =
            All-snoc _ s.records r
              (All-map _ _ (λ q (lt, end). (omega arith, omega arith)) s.records before)
              (omega arith, omega arith);
        fit =
            All-snoc _ s.records r v.fit
              (record { starts = inside; ends = ends; contract = contract });
        elevation_kept = kept_flag s.records r s.saw_elevation elevation v.elevation_kept;
        provenance_kept = kept_flag s.records r s.saw_provenance provenance v.provenance_kept;
      }

  misplaced-decoded :
      (i : ℕ) (s : ChannelScan) (r : ChannelRecord) (bytes : Bytes)
      → misplaced payload data_offset i (record r { decoded = bytes }) s
        ≡ misplaced payload data_offset i r s
  unfolding misplaced
  misplaced-decoded i s r bytes = refl

  pass-decoded :
      (s : ChannelScan) (r : ChannelRecord) (bytes : Bytes)
      → pass_record (record r { decoded = bytes }) s ≡ pass_record r s
  unfolding pass_record
  pass-decoded s r bytes = refl

  scan_channel-ScanInv :
      (n i : ℕ) (s t : ChannelScan)
      → i < n
      → ScanInv i s
      → scan_channel z payload entry path directory_offset data_offset i s ≡ success t
      → ScanInv (suc i) t
  scan_channel-ScanInv n i s t lt v h =
      let (placed, (r, same, made, contract)) = scan_channel-round i s t h in
      let placed' : misplaced payload data_offset i r s ≡ false =
        ap (λ (q : ChannelRecord). misplaced payload data_offset i q s) same
        ∙ misplaced-decoded i s (nth_record i) r.decoded
        ∙ placed in
      let passed' : pass_record (nth_record i) s ≡ pass_record r s = sym (
        ap (λ (q : ChannelRecord). pass_record q s) same
        ∙ pass-decoded s (nth_record i) r.decoded) in
      subst (ScanInv (suc i)) (sym (made ∙ ap (keep_record r) passed'))
        (keep-ScanInv i s r v placed' contract)

  -- Where the loop over the records goes through, it has kept each record. Their identifiers
  -- increase strictly and their stored bytes lie in the data region, one behind the other.
  pub channels-ScanInv :
      (channel_count : ℕ) (s : ChannelScan)
      → try_up channel_count
          (scan_channel z payload entry path directory_offset data_offset)
          (scan_start data_offset)
        ≡ success s
      → ScanInv channel_count s
  channels-ScanInv channel_count s h =
      try_up_counts ScanInv channel_count _ (scan_channel-ScanInv channel_count)
        (scan_start data_offset) s start-ScanInv h
