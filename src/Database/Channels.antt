-- ===== src/Database/Channels.antt =====
-- The channels of a tile: `ChannelRecord`, `decode_channel`, and the loop over the channel records in
-- `decode_tile` of src/core/database.cpp.
pub mod Sound
use lunar_terrain_builder.Base.{
  ℕ, ◌+◌, ◌-◌, ◌*◌, ◌%◌, bit_and, String, Bool, true, false, not, ◌&&◌, ◌||◌, some, List, [], ◌∷◌,
  ◌++◌, length, subspan, ltb, leb, ◌==◌, ◌/=◌, u64_max, if◌then◌else◌,
}
use lunar_terrain_builder.Error.{
  ErrorCode, Error, with_path, with_offset, with_tile_key, with_channel, Result, success, failure,
  ◌>>=◌, ◌>>◌, fail_if,
}
use lunar_terrain_builder.ByteIo.{Bytes}
use lunar_terrain_builder.Codec.{reverse_delta2d_u16}
use lunar_terrain_builder.Zstandard.{Zstd, decompress_zstandard}
use lunar_terrain_builder.Integrity.{crc32c}
use lunar_terrain_builder.Database.Bytes.{
  located, read_u8, read_u16, read_u32, range_fits, all_zero,
}
use lunar_terrain_builder.Database.Index.{TileIndexEntry}

pub record ChannelRecord : Type 0 where
  pub id : ℕ
  pub version : ℕ
  pub element_type : ℕ
  pub components : ℕ
  pub codec : ℕ
  pub predictor : ℕ
  pub width : ℕ
  pub height : ℕ
  pub flags : ℕ
  pub data_offset : ℕ
  pub stored_bytes : ℕ
  pub logical_bytes : ℕ
  pub crc : ℕ
  pub parameter0 : ℕ
  pub parameter1 : ℕ
  pub decoded : Bytes

abbrev pub channel_record : ℕ
channel_record = 40

-- The identifiers of include/lunar/terrain/format.hpp that the reader names.
abbrev pub elevation : ℕ
elevation = 1

abbrev pub provenance : ℕ
provenance = 2

abbrev pub quality : ℕ
quality = 3

abbrev pub codec_none : ℕ
codec_none = 0

abbrev pub codec_zstandard : ℕ
codec_zstandard = 1

abbrev pub predictor_none : ℕ
predictor_none = 0

abbrev pub predictor_delta2d_u16 : ℕ
predictor_delta2d_u16 = 1

abbrev pub channel_required : ℕ
channel_required = 1

-- The fields of a channel record, at the offsets of `channel_record_offset`.
unfoldable pub record_fields : Bytes → ChannelRecord
record_fields raw = record {
  id = read_u16 raw 0;
  version = read_u16 raw 2;
  element_type = read_u8 raw 4;
  components = read_u8 raw 5;
  codec = read_u8 raw 6;
  predictor = read_u8 raw 7;
  width = read_u16 raw 8;
  height = read_u16 raw 10;
  flags = read_u32 raw 12;
  data_offset = read_u32 raw 16;
  stored_bytes = read_u32 raw 20;
  logical_bytes = read_u32 raw 24;
  crc = read_u32 raw 28;
  parameter0 = read_u32 raw 32;
  parameter1 = read_u32 raw 36;
  decoded = [];
}

-- `error.with_path(…).with_offset(…).with_tile_key(…).with_channel(…)` on a failure
unfoldable pub in_channel : ℕ → String → ℕ → ℕ → Result Bytes → Result Bytes
in_channel id path absolute_offset tile_key (success bytes) = success bytes
in_channel id path absolute_offset tile_key (failure e) =
    failure
      (with_channel (with_tile_key (with_offset (with_path e path) absolute_offset) tile_key) id)

unfoldable pub quality_reserved : Bytes → Bool
quality_reserved [] = false
quality_reserved (value ∷ rest) = bit_and value 0xE0 /= 0 || quality_reserved rest

unfoldable pub known_channel : ℕ → Bool
known_channel id = id == elevation || id == provenance || id == quality

-- The contract of the known channels, on the decoded record.
unfoldable pub contract_ok : ChannelRecord → Bool
unfolding quality_reserved
contract_ok r =
    if r.id == elevation
    then r.element_type == 2
      && r.predictor == predictor_delta2d_u16
      && r.flags == channel_required
      && r.parameter1 == 1
      && r.width * r.height * 2 == length r.decoded
    else if r.id == provenance
    then r.element_type == 255
      && r.predictor == predictor_none
      && r.flags == channel_required
      && r.parameter1 == 0
    else r.element_type == 1
      && r.predictor == predictor_none
      && r.flags == 0
      && r.parameter1 == 0
      && r.width * r.height == length r.decoded
      && not (quality_reserved r.decoded)

unfoldable pub contract_error : ℕ → String
contract_error id =
    if id == elevation
    then "ELEV channel contract is invalid"
    else if id == provenance
    then "PRVN channel contract is invalid"
    else "QUAL channel contract is invalid"

-- The variables of the loop over the records.
pub record ChannelScan : Type 0 where
  pub records : List ChannelRecord
  pub previous_id : ℕ
  pub previous_data_end : ℕ
  pub logical_sum : ℕ
  pub saw_elevation : Bool
  pub saw_provenance : Bool
  pub saw_quality : Bool

-- What each round does before the record is kept.
unfoldable pub pass_record : ChannelRecord → ChannelScan → ChannelScan
pass_record r s = record s {
  previous_id = r.id;
  previous_data_end = r.data_offset + r.stored_bytes;
  logical_sum = s.logical_sum + r.logical_bytes;
}

unfoldable pub keep_record : ChannelRecord → ChannelScan → ChannelScan
keep_record r s = record s {
  records = s.records ++ r ∷ [];
  saw_elevation = s.saw_elevation || r.id == elevation;
  saw_provenance = s.saw_provenance || r.id == provenance;
  saw_quality = s.saw_quality || r.id == quality;
}

-- The first test of a round: order, alignment and the range of the stored bytes.
unfoldable pub misplaced : Bytes → ℕ → ℕ → ChannelRecord → ChannelScan → Bool
misplaced payload data_offset index r s =
    (ltb 0 index && leb r.id s.previous_id)
    || bit_and r.flags 0xFFFFFFFE /= 0
    || r.data_offset % 8 /= 0
    || ltb r.data_offset s.previous_data_end
    || ltb r.data_offset data_offset
    || not (range_fits r.data_offset r.stored_bytes (length payload))
    || not (all_zero (subspan payload s.previous_data_end (r.data_offset - s.previous_data_end)))

module _ (z : Zstd) where
  unfoldable pub decompressed : ChannelRecord → Bytes → String → ℕ → ℕ → Result Bytes
  unfolding in_channel
  decompressed r stored path absolute_offset tile_key =
      if r.codec == codec_none
      then fail_if (r.stored_bytes /= r.logical_bytes || r.parameter0 /= 0) (
          located ErrorCode.invalid_format "uncompressed channel framing is invalid" path
            (some absolute_offset))
        >> success stored
      else if r.codec == codec_zstandard
      then in_channel r.id path absolute_offset tile_key
          (decompress_zstandard z stored r.logical_bytes)
      else failure (
          located ErrorCode.unsupported_feature "channel codec is not supported" path
            (some absolute_offset))

  unfoldable pub decode_channel : ChannelRecord → Bytes → String → ℕ → ℕ → Result Bytes
  unfolding decompressed in_channel
  decode_channel r stored path absolute_offset tile_key = do
    logical ← decompressed r stored path absolute_offset tile_key
    if r.predictor == predictor_none
        then success logical
        else if r.predictor == predictor_delta2d_u16
        then in_channel r.id path absolute_offset tile_key
            (reverse_delta2d_u16 logical r.width r.height)
        else failure (
            located ErrorCode.unsupported_feature "channel predictor is not supported" path
              (some absolute_offset))

  -- A known channel: its version, its decoded bytes and its contract.
  unfoldable pub decode_known : ChannelRecord → Bytes → String → ℕ → ℕ → ℕ → Result ChannelRecord
  unfolding decode_channel contract_ok contract_error
  decode_known r stored path tile_offset record_offset tile_key = do
    fail_if (r.version /= 1 || r.components /= 1) (
        located (if r.version /= 1 then ErrorCode.unsupported_version else ErrorCode.invalid_format)
          "known channel version or component count is invalid" path
          (some (tile_offset + record_offset)))
    decoded ← decode_channel r stored path (tile_offset + r.data_offset) tile_key
    fail_if (not (contract_ok (record r { decoded = decoded }))) (
        located ErrorCode.invalid_format (contract_error r.id) path
          (some (tile_offset + record_offset)))
    success (record r { decoded = decoded })

  -- The rest of a round: a known channel is decoded, an unknown one is kept as it is unless it is
  -- required.
  unfoldable pub decode_record : ChannelRecord → Bytes → String → ℕ → ℕ → ℕ → Result ChannelRecord
  unfolding known_channel decode_known
  decode_record r stored path tile_offset record_offset tile_key =
      if known_channel r.id
      then decode_known r stored path tile_offset record_offset tile_key
      else (fail_if (bit_and r.flags channel_required /= 0) (
            located ErrorCode.unsupported_feature "unknown required channel is not supported" path
              (some (tile_offset + record_offset)))
          >> success r)

  -- One round of the loop; `data_offset` is the start of the data region.
  unfoldable pub scan_channel :
      Bytes → TileIndexEntry → String → ℕ → ℕ → ℕ → ChannelScan → Result ChannelScan
  unfolding record_fields misplaced pass_record keep_record decode_record
  scan_channel payload entry path directory_offset data_offset index s =
      let record_offset = directory_offset + index * channel_record in
      let r = record_fields (subspan payload record_offset channel_record) in
      let stored = subspan payload r.data_offset r.stored_bytes in
      fail_if (misplaced payload data_offset index r s) (
        located ErrorCode.invalid_format
          "LTIL channel records are unsorted, overlapping, or misaligned" path
          (some (entry.payload_offset + record_offset)))
      >> (fail_if (ltb (u64_max - s.logical_sum) r.logical_bytes) (
            located ErrorCode.arithmetic_overflow "LTIL logical channel byte sum overflowed" path
              (some (entry.payload_offset + record_offset)))
          >> (fail_if (crc32c stored /= r.crc) (
                with_channel
                  (with_tile_key
                    (located ErrorCode.checksum_mismatch "channel CRC32C does not match" path
                      (some (entry.payload_offset + r.data_offset)))
                    entry.key.encoded)
                  r.id)
              >> (decode_record r stored path entry.payload_offset record_offset entry.key.encoded
                  >>= (λ kept. success (keep_record kept (pass_record r s))))))

unfoldable pub scan_start : ℕ → ChannelScan
scan_start data_offset = record {
  records = [];
  previous_id = 0;
  previous_data_end = data_offset;
  logical_sum = 0;
  saw_elevation = false;
  saw_provenance = false;
  saw_quality = false;
}
