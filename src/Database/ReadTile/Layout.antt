-- ===== src/Database/ReadTile/Layout.antt =====
-- What a tile that is read back rests on: the pack file as a whole, and the tile's own bytes.
use lunar_terrain_builder.Base.{
  ℕ, ◌+◌, ◌≤◌, ◌≡◌, inl, inr, subst, arith, String, true, some, List, [], ◌∷◌, All, All-map,
  Pairwise, length, subspan, ◌==◌, ◌/=◌, Bool-cases, Option-cases,
}
use lunar_terrain_builder.Error.{Error, fail_if, Result, success, Result-cases}
use lunar_terrain_builder.ByteIo.{Bytes}
use lunar_terrain_builder.TileKey.Text.{bytes_eq}
use lunar_terrain_builder.Zstandard.{Zstd}
use lunar_terrain_builder.Integrity.{Openssl, crc32c}
use lunar_terrain_builder.Database.Bytes.{range_fits}
use lunar_terrain_builder.Database.Packs.{PackInfo, pack_header, find_pack}
use lunar_terrain_builder.Database.Index.{TileIndexEntry, entries_of}
use lunar_terrain_builder.Database.Open.{DatabaseState}
use lunar_terrain_builder.Database.Floats.{Doubles}
use lunar_terrain_builder.Database.Tiles.{DecodedTerrainTile, decode_tile}
use lunar_terrain_builder.Database.Tiles.Sound.{decode_tile-channels}
use lunar_terrain_builder.Database.ReadTile.{
  check_layout, pack_hash, check_pack_header, check_pack_hash, check_pack, check_payload,
  read_payload, read_tile,
}

-- The payload of the first ends where that of the second starts, or before.
abbrev pub Apart : TileIndexEntry → TileIndexEntry → Type 0
Apart e f = e.payload_offset + e.stored_bytes ≤ f.payload_offset

-- The payload lies between two places.
abbrev pub Within : ℕ → ℕ → TileIndexEntry → Type 0
Within start stop e = (start ≤ e.payload_offset) × (e.payload_offset + e.stored_bytes ≤ stop)

check_layout-round :
    (bytes : Bytes) (pack_id : ℕ) (path : String) (start stop : ℕ) (e : TileIndexEntry)
    (rest : List TileIndexEntry)
    → (e.pack_id == pack_id) ≡ true
    → check_layout bytes pack_id path start (e ∷ rest) ≡ success stop
    → (start ≤ e.payload_offset)
      × (e.payload_offset + e.stored_bytes ≤ length bytes)
      × (check_layout bytes pack_id path (e.payload_offset + e.stored_bytes) rest ≡ success stop)
unfolding check_layout range_fits
check_layout-round bytes id path start stop e rest same h =
    (ground arith, ground arith, ground arith)

check_layout-Apart :
    (bytes : Bytes) (pack_id : ℕ) (path : String) (start stop : ℕ) (index : List TileIndexEntry)
    → check_layout bytes pack_id path start index ≡ success stop
    → Pairwise Apart (entries_of pack_id index)
      × All (Within start stop) (entries_of pack_id index)
      × (start ≤ stop)
unfolding check_layout entries_of range_fits
check_layout-Apart bytes id path start stop [] h =
    let same : start ≡ stop = ground arith in (tt, tt, omega arith)
check_layout-Apart bytes id path start stop (e ∷ rest) h = elim (Bool-cases (e.pack_id == id)) [
  | inr other ↦ rw other (check_layout-Apart bytes id path start stop rest (rw other at h))
  | inl here' ↦
      let (after, inside, next) = check_layout-round bytes id path start stop e rest here' h in
      let (apart, within, le) =
        check_layout-Apart bytes id path (e.payload_offset + e.stored_bytes) stop rest next in
      rw here' (
        (
          All-map (Within (e.payload_offset + e.stored_bytes) stop) (Apart e) (λ f w. w.0)
              (entries_of id rest) within,
          apart,
        ),
        (
          (after, le),
          All-map (Within (e.payload_offset + e.stored_bytes) stop) (Within start stop)
              (λ f w. (omega (arith, w.0), w.1)) (entries_of id rest) within,
        ),
        omega arith,
      )
]

no_trailing : (stop size : ℕ) (x : Error) → fail_if (stop /= size) x ≡ success tt → stop ≡ size
no_trailing stop size x h = ground arith

module _ (d : Doubles) (o : Openssl) (z : Zstd) (read_file : String → Result Bytes)
    (pack_path : String → Bytes → String) where
  -- The parts of a read that succeeds.
  pub record Intact (state : DatabaseState) (entry : TileIndexEntry) (tile : DecodedTerrainTile)
      : Type 0 where
    pub pack : PackInfo
    pub bytes : Bytes
    pub digest : Bytes
    pub registered : find_pack state.packs entry.pack_id ≡ some pack
    pub read : read_file (pack_path state.manifest_path pack.relative_path) ≡ success bytes
    -- the file has the hash that the registry gives it
    pub hashed : pack_hash o bytes ≡ success digest
    pub as_registered : bytes_eq digest pack.hash ≡ true
    -- the payloads of the pack lie between its header and its end, apart from one another
    pub apart : Pairwise Apart (entries_of pack.id state.index)
    pub within : All (Within pack_header (length bytes)) (entries_of pack.id state.index)
    -- the payload lies in the file and has the checksum of the index
    pub inside : entry.payload_offset + entry.stored_bytes ≤ length bytes
    pub checksum :
        crc32c (subspan bytes entry.payload_offset entry.stored_bytes) ≡ entry.payload_crc32c
    pub decoded :
        decode_tile d o z
          (subspan bytes entry.payload_offset entry.stored_bytes)
          entry
          state.header
          (pack_path state.manifest_path pack.relative_path)
        ≡ success tile
    pub key : tile.key ≡ entry.key

  check_pack_hash-parts :
      (bytes : Bytes) (pack : PackInfo) (path : String)
      → check_pack_hash o bytes pack path ≡ success tt
      → (digest : Bytes) × (pack_hash o bytes ≡ success digest) × (bytes_eq digest pack.hash ≡ true)
  unfolding check_pack_hash
  check_pack_hash-parts bytes pack path h = elim (Result-cases (pack_hash o bytes)) [
    | inr (x, e) ↦ absurd (ground arith)
    | inl (digest, e) ↦ (digest, e, ground arith)
  ]

  check_pack-parts :
      (bytes : Bytes) (pack : PackInfo) (index : List TileIndexEntry) (path : String)
      → check_pack o bytes pack index path ≡ success tt
      → (digest : Bytes) × (stop : ℕ) × (pack_hash o bytes ≡ success digest)
        × (bytes_eq digest pack.hash ≡ true)
        × (check_layout bytes pack.id path pack_header index ≡ success stop)
        × (stop ≡ length bytes)
  unfolding check_pack
  check_pack-parts bytes pack index path h =
      elim (Result-cases (check_pack_header bytes pack path)) [
        | inr (x, e) ↦ absurd (ground arith)
        | inl (u, e) ↦ elim (Result-cases (check_pack_hash o bytes pack path)) [
          | inr (x, f) ↦ absurd (ground arith)
          | inl (u', f) ↦ elim (Result-cases (check_layout bytes pack.id path pack_header index)) [
            | inr (x, g) ↦ absurd (ground arith)
            | inl (stop, g) ↦
                let (digest, hashed, registered) = check_pack_hash-parts bytes pack path f in
                (
                  digest,
                  stop,
                  hashed,
                  registered,
                  g,
                  no_trailing stop (length bytes) _ (rw (e, f, g) at h),
                )
          ]
        ]
      ]

  check_payload-parts :
      (bytes : Bytes) (entry : TileIndexEntry) (path : String)
      → check_payload bytes entry path ≡ success tt
      → (entry.payload_offset + entry.stored_bytes ≤ length bytes)
        × (crc32c (subspan bytes entry.payload_offset entry.stored_bytes) ≡ entry.payload_crc32c)
  unfolding check_payload range_fits
  check_payload-parts bytes entry path h = (ground arith, ground arith)

  read_payload-parts :
      (bytes : Bytes) (state : DatabaseState) (pack : PackInfo) (entry : TileIndexEntry)
      (path : String) (tile : DecodedTerrainTile)
      → read_payload d o z read_file pack_path bytes state pack entry path ≡ success tile
      → (check_pack o bytes pack state.index path ≡ success tt)
        × (entry.payload_offset + entry.stored_bytes ≤ length bytes)
        × (crc32c (subspan bytes entry.payload_offset entry.stored_bytes) ≡ entry.payload_crc32c)
        × (decode_tile d o z
              (subspan bytes entry.payload_offset entry.stored_bytes)
              entry
              state.header
              path
            ≡ success tile)
  unfolding read_payload
  read_payload-parts bytes state pack entry path tile h =
      elim (Result-cases (check_pack o bytes pack state.index path)) [
        | inr (x, e) ↦ absurd (ground arith)
        | inl (u, e) ↦ elim (Result-cases (check_payload bytes entry path)) [
          | inr (x, f) ↦ absurd (ground arith)
          | inl (u', f) ↦
              let (inside, checksum) = check_payload-parts bytes entry path f in
              (e, inside, checksum, rw (e, f) at h)
        ]
      ]

  -- Where `read_tile` returns a tile, the registry has the pack, and the file that was read has the
  -- registry's hash. The payloads that the index places in the pack lie behind its header and do not
  -- overlap. The bytes of the tile lie in the file and have the checksum of the index, and the tile is
  -- what `decode_tile` makes of them, with the key of its entry.
  pub read_tile-Intact :
      (state : DatabaseState) (entry : TileIndexEntry) (tile : DecodedTerrainTile)
      → read_tile d o z read_file pack_path state entry ≡ success tile
      → Intact state entry tile
  unfolding read_tile
  read_tile-Intact state entry tile h = elim (Option-cases (find_pack state.packs entry.pack_id)) [
    | inl missing ↦ absurd (ground arith)
    | inr (pack, found) ↦
        elim (Result-cases (read_file (pack_path state.manifest_path pack.relative_path))) [
          | inr (x, e) ↦ absurd (ground arith)
          | inl (bytes, e) ↦
              let path = pack_path state.manifest_path pack.relative_path in
              let payload : read_payload d o z read_file pack_path bytes state pack entry path
                  ≡ success tile =
                ground arith in
              let (checked, inside, checksum, decoded) =
                read_payload-parts bytes state pack entry path tile payload in
              let (digest, stop, hashed, registered, laid, ends) =
                check_pack-parts bytes pack state.index path checked in
              let (apart, within, le) =
                check_layout-Apart bytes pack.id path pack_header stop state.index laid in
              record {
                pack = pack;
                bytes = bytes;
                digest = digest;
                registered = found;
                read = e;
                hashed = hashed;
                as_registered = registered;
                apart = apart;
                within =
                    subst (λ n. All (Within pack_header n) (entries_of pack.id state.index)) ends
                      within;
                inside = inside;
                checksum = checksum;
                decoded = decoded;
                key = (decode_tile-channels d o z _ entry state.header path tile decoded).0;
              }
        ]
  ]
