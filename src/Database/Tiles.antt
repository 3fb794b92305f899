-- ===== src/Database/Tiles.antt =====
-- `DecodedTerrainTile` of include/lunar/terrain/tile.hpp and `decode_tile` of src/core/database.cpp.
pub mod Collect
pub mod Sound
pub mod Elevations
pub mod Bounds
use lunar_terrain_builder.Base.{
  ℕ, zero, suc, ◌+◌, ◌-◌, ◌*◌, ◌/◌, ◌^◌, bit_and, min, max, String, Bool, true, false, not, ◌&&◌,
  ◌||◌, Option, none, some, List, [], ◌∷◌, ◌++◌, length, subspan, ltb, leb, ◌==◌, ◌/=◌, u64, u32,
  if◌then◌else◌,
}
use lunar_terrain_builder.Base.Loops.{for_up}
use lunar_terrain_builder.Error.{ErrorCode, Error, Result, success, failure, ◌>>=◌, ◌>>◌, fail_if}
use lunar_terrain_builder.Error.Loops.{try_up}
use lunar_terrain_builder.ByteIo.{Bytes}
use lunar_terrain_builder.ByteWriter.{align8}
use lunar_terrain_builder.TileKey.{LunarTileKey}
use lunar_terrain_builder.TileKey.Text.{codes, bytes_eq}
use lunar_terrain_builder.Zstandard.{Zstd}
use lunar_terrain_builder.Integrity.{
  Openssl, DigestAccumulator, new_digest, update, update_u8, update_u16, update_u32, update_u64,
  update_domain, finish,
}
use lunar_terrain_builder.Database.Bytes.{
  located, read_u8, read_u16, read_u32, read_u64, range_fits, all_zero, magic_is,
  digest_prefix_matches,
}
use lunar_terrain_builder.Database.Header.{DatabaseHeader}
use lunar_terrain_builder.Database.Index.{TileIndexEntry}
use lunar_terrain_builder.Database.Floats.{
  Doubles, read_f32, is_finite32, less32, rank32, zero32, rounded_millimeters, code_elevation,
}
use lunar_terrain_builder.Database.Provenance.{TileProvenance, parse_provenance}
use lunar_terrain_builder.Database.Channels.{
  ChannelRecord, ChannelScan, channel_record, elevation, provenance, scan_start, scan_channel,
}

pub record DecodedChannel : Type 0 where
  pub id : ℕ
  pub version : ℕ
  pub element_type : ℕ
  pub components : ℕ
  pub width : ℕ
  pub height : ℕ
  pub flags : ℕ
  pub parameter1 : ℕ
  pub bytes : Bytes

-- `float` fields are bit patterns.
pub record DecodedTileMetadata : Type 0 where
  pub effective_resolution_meters : ℕ
  pub geometric_error_meters : ℕ
  pub minimum_elevation_meters : ℕ
  pub maximum_elevation_meters : ℕ
  pub primary_dataset : ℕ

pub record DecodedTerrainTile : Type 0 where
  pub key : LunarTileKey
  pub metadata : DecodedTileMetadata
  pub channels : List DecodedChannel
  pub provenance : Option TileProvenance

abbrev pub tile_header : ℕ
tile_header = 128

-- The scalars of the header that the metadata keeps.
unfoldable pub tile_metadata : Bytes → DecodedTileMetadata
tile_metadata payload = record {
  effective_resolution_meters = read_f32 payload 28;
  geometric_error_meters = read_f32 payload 32;
  minimum_elevation_meters = read_f32 payload 36;
  maximum_elevation_meters = read_f32 payload 40;
  primary_dataset = read_u32 payload 44;
}

-- The test of the fixed fields.
unfoldable pub fields_ok : Bytes → TileIndexEntry → DecodedTileMetadata → Bool
fields_ok payload entry m = not (
    bit_and (read_u32 payload 16) 0xFFFFFFFC /= 0
    || read_u32 payload 16 /= entry.flags
    || read_u16 payload 20 /= entry.channel_count
    || read_u16 payload 22 /= 256
    || read_u16 payload 24 /= 257
    || read_u8 payload 26 /= 1
    || read_u8 payload 27 /= 1
    || m.primary_dataset /= entry.primary_dataset
    || read_u16 payload 50 /= 0
    || not (all_zero (subspan payload 100 28))
    || not (is_finite32 m.effective_resolution_meters)
    || not (less32 zero32 m.effective_resolution_meters)
    || not (is_finite32 m.geometric_error_meters)
    || less32 m.geometric_error_meters zero32
    || not (is_finite32 m.minimum_elevation_meters)
    || not (is_finite32 m.maximum_elevation_meters)
    || less32 m.maximum_elevation_meters m.minimum_elevation_meters)

-- The test of the channel directory and the data region.
unfoldable pub framing_ok : Bytes → ℕ → Bool
unfolding range_fits
framing_ok payload channel_count =
    let directory_offset = read_u32 payload 52 in
    let directory_bytes = read_u32 payload 56 in
    let data_offset = read_u32 payload 60 in
    let data_bytes = read_u32 payload 64 in
    not (
      directory_offset /= tile_header
      || directory_bytes /= channel_count * channel_record
      || data_offset /= align8 (u64 (directory_offset + directory_bytes))
      || not (range_fits directory_offset directory_bytes (length payload))
      || not (range_fits data_offset data_bytes (length payload))
      || data_offset + data_bytes /= length payload
      || not (
          all_zero (
            subspan payload (u32 (directory_offset + directory_bytes))
              (data_offset - directory_offset - directory_bytes))))

-- The tests before the loop over the records.
unfoldable pub check_tile_header : Bytes → TileIndexEntry → String → Result (Unit {0})
unfolding tile_metadata fields_ok framing_ok
check_tile_header payload entry pack_path = do
  fail_if (ltb (length payload) tile_header) (
      located ErrorCode.truncated_data "LTIL header is truncated" pack_path
        (some entry.payload_offset))
  fail_if
      (not (magic_is payload 0 "LTIL")
        || read_u16 payload 4 /= 1
        || read_u16 payload 6 /= tile_header)
      (located ErrorCode.invalid_format "LTIL magic, version, or header size is invalid" pack_path
        (some entry.payload_offset))
  fail_if (read_u64 payload 8 /= entry.key.encoded) (
      located ErrorCode.invalid_format "LTIL TileKey disagrees with TIDX" pack_path
        (some (entry.payload_offset + 8)))
  fail_if (not (fields_ok payload entry (tile_metadata payload))) (
      located ErrorCode.invalid_format "LTIL fixed fields disagree with TIDX or format v1" pack_path
        (some (entry.payload_offset + 16)))
  fail_if (not (framing_ok payload (read_u16 payload 20))) (
      located ErrorCode.invalid_format "LTIL channel directory or data-region framing is invalid"
        pack_path (some (entry.payload_offset + 52)))
  fail_if
      (not (bytes_eq (subspan payload 84 16) entry.content_hash_prefix)
        || not (bytes_eq (subspan payload 68 8) entry.dependency_hash_prefix))
      (located ErrorCode.hash_mismatch "LTIL hash prefixes disagree with TIDX" pack_path
        (some (entry.payload_offset + 68)))

-- `left != right`
unfoldable pub differ : Bool → Bool → Bool
differ true right = not right
differ false right = right

-- The test behind the loop.
unfoldable pub totals_ok : Bytes → TileIndexEntry → ChannelScan → Bool
unfolding differ
totals_ok payload entry s =
    let flags = read_u32 payload 16 in
    not (
      s.previous_data_end /= length payload
      || s.logical_sum /= entry.logical_channel_bytes
      || not s.saw_elevation
      || not s.saw_provenance
      || differ s.saw_provenance (bit_and flags 1 /= 0)
      || differ s.saw_quality (bit_and flags 2 /= 0))

-- `record.decoded.empty() && record.logical_bytes != 0`
unfoldable pub not_decoded : ChannelRecord → Bool
not_decoded r = length r.decoded == 0 && r.logical_bytes /= 0

unfoldable pub all_decoded : List ChannelRecord → Bool
unfolding not_decoded
all_decoded [] = true
all_decoded (r ∷ rest) = not (not_decoded r) && all_decoded rest

-- The extremes of the elevation samples, from the first on.
unfoldable pub code_range : Bytes → ℕ × ℕ → ℕ × ℕ
code_range decoded range =
    for_up ((length decoded + 1) / 2)
      (λ i (r : ℕ × ℕ). (min r.0 (read_u16 decoded (i * 2)), max r.1 (read_u16 decoded (i * 2))))
      range

-- The variables of the second loop over the records.
pub record Decoded : Type 0 where
  pub channels : List DecodedChannel
  pub provenance : Option TileProvenance
  pub codes : ℕ × ℕ

unfoldable pub channel_of : ChannelRecord → DecodedChannel
channel_of r = record {
  id = r.id;
  version = r.version;
  element_type = r.element_type;
  components = r.components;
  width = r.width;
  height = r.height;
  flags = r.flags;
  parameter1 = r.parameter1;
  bytes = r.decoded;
}

unfoldable pub decoded_start : Decoded
decoded_start = record { channels = []; provenance = none; codes = (2 ^ 16 - 1, 0) }

module _ (o : Openssl) where
  unfoldable pub hash_channels : List ChannelRecord → DigestAccumulator o → DigestAccumulator o
  unfolding not_decoded
  hash_channels [] hash = hash
  hash_channels (r ∷ rest) hash = hash_channels rest (
      if not_decoded r
      then hash
      else update o r.decoded (
          update_u32 o r.parameter1 (
            update_u32 o 0 (
              update_u32 o (u32 (length r.decoded)) (
                update_u32 o r.flags (
                  update_u16 o r.height (
                    update_u16 o r.width (
                      update_u8 o 0 (
                        update_u8 o r.predictor (
                          update_u8 o r.components (
                            update_u8 o r.element_type
                              (update_u16 o r.version (update_u16 o r.id hash)))))))))))))

  -- The content hash, where every record is decoded.
  unfoldable pub check_content_hash :
      Bytes → TileIndexEntry → String → List ChannelRecord → Result (Unit {0})
  unfolding hash_channels all_decoded
  check_content_hash payload entry pack_path records =
      if all_decoded records
      then (do
        computed ← finish o (
            hash_channels records (
              update_u16 o (read_u16 payload 20) (
                update_u64 o entry.key.encoded
                  (update_domain o (codes "LTDB_TILE_CONTENT_V1") (new_digest o)))))
        fail_if (not (digest_prefix_matches computed (subspan payload 84 16))) (
            located ErrorCode.hash_mismatch "LTIL decoded content hash does not match" pack_path
              (some (entry.payload_offset + 84))))
      else success tt

module _ (d : Doubles) where
  -- One round of the second loop for a provenance channel.
  unfoldable pub parse_channel_provenance :
      Bytes → TileIndexEntry → String → ChannelRecord → Result TileProvenance
  parse_channel_provenance payload entry pack_path r = do
    parsed ←
        parse_provenance d r.decoded r.id (read_u32 payload 44) pack_path
          (entry.payload_offset + r.data_offset) entry.key.encoded
    fail_if
        (length parsed.palette /= read_u16 payload 48
          || parsed.map_width /= r.width
          || parsed.map_height /= r.height)
        (located ErrorCode.invalid_format "PRVN channel disagrees with LTIL summary" pack_path
          (some (entry.payload_offset + r.data_offset)))
    success parsed

  unfoldable pub collect :
      Bytes → TileIndexEntry → String → List ChannelRecord → Decoded → Result Decoded
  unfolding not_decoded code_range channel_of parse_channel_provenance
  collect payload entry pack_path [] s = success s
  collect payload entry pack_path (r ∷ rest) s =
      if not_decoded r
      then collect payload entry pack_path rest s
      else if r.id == elevation
      then collect payload entry pack_path rest (record s {
        channels = s.channels ++ channel_of r ∷ [];
        codes = code_range r.decoded s.codes;
      })
      else if r.id == provenance
      then (parse_channel_provenance payload entry pack_path r >>= (λ parsed.
          collect payload entry pack_path rest
            (record s { channels = s.channels ++ channel_of r ∷ []; provenance = some parsed })))
      else collect payload entry pack_path rest
          (record s { channels = s.channels ++ channel_of r ∷ [] })

  -- `!value || *value != expected`
  unfoldable pub disagrees : Option ℕ → ℕ → Bool
  disagrees none expected = true
  disagrees (some value) expected = value /= expected

  -- The last test: the scientific summaries. A finite `float` differs from every value of another
  -- rank, and from the values that are not finite.
  unfoldable pub summaries_ok : DatabaseHeader → TileIndexEntry → DecodedTileMetadata → ℕ × ℕ → Bool
  unfolding disagrees rank32
  summaries_ok header entry m range =
      let expected_minimum =
        code_elevation d header.elevation_origin_meters header.elevation_step_meters range.0 in
      let expected_maximum =
        code_elevation d header.elevation_origin_meters header.elevation_step_meters range.1 in
      not (
        range.0 /= entry.minimum_elevation_code
        || range.1 /= entry.maximum_elevation_code
        || rank32 m.minimum_elevation_meters /= rank32 expected_minimum
        || rank32 m.maximum_elevation_meters /= rank32 expected_maximum
        || disagrees (rounded_millimeters d m.effective_resolution_meters)
            entry.effective_resolution_millimeters
        || disagrees (rounded_millimeters d m.geometric_error_meters)
            entry.geometric_error_millimeters)

  unfoldable pub decode_tile :
      Openssl → Zstd → Bytes → TileIndexEntry → DatabaseHeader → String → Result DecodedTerrainTile
  unfolding check_tile_header tile_metadata totals_ok check_content_hash decoded_start collect
      summaries_ok
  decode_tile o z payload entry header pack_path = do
    check_tile_header payload entry pack_path
    scan ←
        try_up (read_u16 payload 20)
          (scan_channel z payload entry pack_path (read_u32 payload 52) (read_u32 payload 60))
          (scan_start (read_u32 payload 60))
    fail_if (not (totals_ok payload entry scan)) (
        located ErrorCode.invalid_format "LTIL required channels, flags, or byte totals disagree"
          pack_path (some entry.payload_offset))
    check_content_hash o payload entry pack_path scan.records
    decoded ← collect payload entry pack_path scan.records decoded_start
    fail_if (not (summaries_ok header entry (tile_metadata payload) decoded.codes)) (
        located ErrorCode.invalid_format
          "LTIL scientific summaries disagree with decoded content or TIDX" pack_path
          (some (entry.payload_offset + 28)))
    success (record {
      key = entry.key;
      metadata = tile_metadata payload;
      channels = decoded.channels;
      provenance = decoded.provenance;
    })
