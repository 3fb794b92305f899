-- ===== src/Database/ReadTile/Tests.antt =====
-- A pack file with one tile of one elevation sample, read back.
use lunar_terrain_builder.Base.{
  ℕ, ◌+◌, ◌-◌, ◌*◌, ◌^◌, ◌≤◌, ◌<◌, ◌≡◌, refl, arith, String, Bool, some, [], ◌∷◌, ◌++◌, All,
  Pairwise, length, length-replicate, replicate, ltb,
}
use lunar_terrain_builder.TileKey.Text.{bytes_eq}
use lunar_terrain_builder.Codec.{predicted, decode_sample, reverse_delta2d_u16}
use lunar_terrain_builder.ByteWriter.{align8}
use lunar_terrain_builder.Error.{Result, success}
use lunar_terrain_builder.ByteIo.{Bytes, read_bytes, checked_multiply}
use lunar_terrain_builder.Zstandard.{Zstd}
use lunar_terrain_builder.Integrity.{
  Openssl, crc_bit, crc_byte, crc_bytes, crc32c, new_digest, update_context, update, update_u8,
  update_u16, update_u32, update_u64, update_domain, finish_context, finish,
}
use lunar_terrain_builder.Database.Bytes.{
  read_u16, read_u32, all_zero, magic_is, digest_prefix_matches, read_u8, read_u64, range_fits,
}
use lunar_terrain_builder.Database.Header.{header_fields}
use lunar_terrain_builder.Database.Packs.{PackInfo}
use lunar_terrain_builder.Database.Index.{TileIndexEntry}
use lunar_terrain_builder.Database.Open.{DatabaseState}
use lunar_terrain_builder.Database.Floats.{
  Doubles, one32, read_f32, is_finite32, rank32, less32, rounded_millimeters, code_elevation,
}
use lunar_terrain_builder.Database.Provenance.{
  ProvenancePaletteEntry, TileProvenance, framing_invalid, palette_entry, map_index, scan_map,
  palette_start, scan_palette, parse_provenance,
}
use lunar_terrain_builder.Database.Provenance.Sound.{Names}
use lunar_terrain_builder.Database.Channels.{
  channel_record, record_fields, in_channel, quality_reserved, known_channel, contract_ok,
  contract_error, pass_record, keep_record, misplaced, decompressed, decode_channel, decode_known,
  decode_record, scan_channel, scan_start,
}
use lunar_terrain_builder.Database.Tiles.{
  DecodedChannel, DecodedTerrainTile, check_tile_header, decode_tile, tile_metadata, fields_ok,
  framing_ok, differ, totals_ok, not_decoded, all_decoded, code_range, channel_of, decoded_start,
  hash_channels, check_content_hash, parse_channel_provenance, collect, disagrees, summaries_ok,
}
use lunar_terrain_builder.Database.Tiles.Elevations.{decode_tile-elevations}
use lunar_terrain_builder.Database.Tiles.Bounds.{check_tile_header-in_bounds}
use mathlib.Core.List.Memᴰ.{head}
use lunar_terrain_builder.Database.Tiles.Collect.{Lower}
use lunar_terrain_builder.Database.Tiles.Sound.{decode_tile-channels, decode_tile-provenance}
use lunar_terrain_builder.Database.ReadTile.{
  read_tile, read_payload, check_pack, check_pack_header, check_pack_hash, pack_hash,
  pack_header_ok, check_layout, check_payload,
}
use lunar_terrain_builder.Database.Packs.{find_pack}
use lunar_terrain_builder.Database.ReadTile.Layout.{Intact, read_tile-Intact}

-- A hash that is zero on every input, and a decompressor that is not called.
abbrev no_hash : Openssl
no_hash = record {
  Context = Unit {0};
  create = some tt;
  update = λ c bytes. some c;
  finish = λ c. some (replicate 32 0);
}

abbrev no_frames : Zstd
no_frames = record {
  dictionary_id = λ bytes. 0;
  content_size = λ bytes. 0;
  content_size_error = 2 ^ 64 - 2;
  content_size_unknown = 2 ^ 64 - 1;
  decompress = λ n bytes. (0, replicate n 0);
  is_error = λ code. Bool.false;
  error_name = λ code. "";
  decompress-length = λ n bytes. length-replicate n 0;
}

-- Arithmetic on numbers in place of `double`.
abbrev numbers : Doubles
numbers = record {
  Double = ℕ;
  from_bits = λ n. n;
  from_float = λ n. n;
  from_integer = λ n. n;
  micro = 2 ^ 40;
  add = λ a b. a + b;
  subtract = λ a b. a - b;
  multiply = λ a b. a * b;
  absolute = λ a. a;
  round = λ a. a;
  less = ltb;
  to_u32 = λ a. a;
  to_float = λ a. a;
}

abbrev payload : Bytes
payload =
    76 ∷ 84 ∷ 73 ∷ 76 ∷ 1 ∷ 0 ∷ 128 ∷ []
    ++ replicate 8 0
    ++ 1 ∷ 1 ∷ 0 ∷ 0 ∷ 0 ∷ 2 ∷ 0 ∷ 0 ∷ 1 ∷ 1 ∷ 1 ∷ 1 ∷ 1 ∷ 3 ∷ []
    ++ replicate 7 0
    ++ 5 ∷ 0 ∷ 0 ∷ 0 ∷ 5 ∷ 0 ∷ 0 ∷ 0 ∷ 9 ∷ 0 ∷ 0 ∷ 0 ∷ 1 ∷ 0 ∷ 0 ∷ 0 ∷ 128 ∷ 0 ∷ 0 ∷ 0 ∷ 80 ∷ 0 ∷ 0
      ∷ 0 ∷ 208 ∷ 0 ∷ 0 ∷ 0 ∷ 40 ∷ []
    ++ replicate 63 0
    ++ 1 ∷ 0 ∷ 1 ∷ 0 ∷ 2 ∷ 1 ∷ 0 ∷ 1 ∷ 1 ∷ 0 ∷ 1 ∷ 0 ∷ 1 ∷ 0 ∷ 0 ∷ 0 ∷ 208 ∷ 0 ∷ 0 ∷ 0 ∷ 2 ∷ 0 ∷ 0
      ∷ 0 ∷ 2 ∷ 0 ∷ 0 ∷ 0 ∷ 121 ∷ 142 ∷ 73 ∷ 172 ∷ []
    ++ replicate 4 0
    ++ 1 ∷ 0 ∷ 0 ∷ 0 ∷ 2 ∷ 0 ∷ 1 ∷ 0 ∷ 255 ∷ 1 ∷ []
    ++ replicate 6 0
    ++ 1 ∷ 0 ∷ 0 ∷ 0 ∷ 216 ∷ 0 ∷ 0 ∷ 0 ∷ 32 ∷ 0 ∷ 0 ∷ 0 ∷ 32 ∷ 0 ∷ 0 ∷ 0 ∷ 15 ∷ 106 ∷ 212 ∷ 94 ∷ []
    ++ replicate 8 0
    ++ 5 ∷ []
    ++ replicate 7 0
    ++ 1 ∷ 0 ∷ 1 ∷ []
    ++ replicate 13 0
    ++ 9 ∷ []
    ++ replicate 9 0
    ++ 128 ∷ 63 ∷ 3 ∷ 0 ∷ 0 ∷ 0 ∷ []

abbrev pack_file : Bytes
pack_file =
    76 ∷ 84 ∷ 80 ∷ 75 ∷ 1 ∷ 0 ∷ 0 ∷ 0 ∷ 64 ∷ 0 ∷ 0 ∷ 0 ∷ 4 ∷ 3 ∷ 2 ∷ 1 ∷ 7 ∷ []
    ++ replicate 7 0
    ++ 1 ∷ []
    ++ replicate 7 0
    ++ 64 ∷ []
    ++ replicate 7 0
    ++ 56 ∷ 1 ∷ []
    ++ replicate 22 0
    ++ payload

abbrev entry : TileIndexEntry
entry = record {
  key = record { encoded = 2 ^ 56 };
  pack_id = 7;
  flags = 1;
  payload_offset = 64;
  stored_bytes = 248;
  logical_channel_bytes = 34;
  minimum_elevation_code = 5;
  maximum_elevation_code = 5;
  primary_dataset = 9;
  effective_resolution_millimeters = 3000;
  geometric_error_millimeters = 0;
  materialized_child_mask = 0;
  channel_count = 2;
  payload_crc32c = 2018242684;
  content_hash_prefix = replicate 16 0;
  dependency_hash_prefix = replicate 8 0;
}

abbrev pack : PackInfo
pack = record {
  id = 7;
  relative_path = b'a' ∷ [];
  default_codec = 0;
  tile_count = 1;
  file_bytes = 312;
  first_key = record { encoded = 2 ^ 56 };
  last_key = record { encoded = 2 ^ 56 };
  hash = replicate 32 0;
}

abbrev state : DatabaseState
state = record {
  manifest_path = "moon.ltdb";
  header = record (header_fields []) { elevation_step_meters = 1; elevation_origin_meters = 0 };
  index = entry ∷ [];
  packs = pack ∷ [];
  dataset_ids = 9 ∷ [];
}

abbrev read_file : String → Result Bytes
read_file path = success pack_file

abbrev pack_path : String → Bytes → String
pack_path manifest relative = "moon.ltp"

abbrev parsed : TileProvenance
parsed = record {
  map_width = 0;
  map_height = 0;
  palette =
      record {
        dataset_id = 9;
        flags = 0;
        contribution_fraction = one32;
        native_resolution_meters = 3;
      }
      ∷ [];
  dominant_source_indices = [];
}

abbrev tile : DecodedTerrainTile
tile = record {
  key = record { encoded = 2 ^ 56 };
  metadata = record {
    effective_resolution_meters = 3;
    geometric_error_meters = 0;
    minimum_elevation_meters = 5;
    maximum_elevation_meters = 5;
    primary_dataset = 9;
  };
  channels =
      record {
        id = 1;
        version = 1;
        element_type = 2;
        components = 1;
        width = 1;
        height = 1;
        flags = 1;
        parameter1 = 1;
        bytes = 5 ∷ 0 ∷ [];
      }
      ∷ record {
        id = 2;
        version = 1;
        element_type = 255;
        components = 1;
        width = 0;
        height = 0;
        flags = 1;
        parameter1 = 0;
        bytes =
            1 ∷ 0 ∷ 1 ∷ []
            ++ replicate 13 0
            ++ 9 ∷ []
            ++ replicate 9 0
            ++ 128 ∷ 63 ∷ 3 ∷ 0 ∷ 0 ∷ 0 ∷ [];
      }
      ∷ [];
  provenance = some parsed;
}

decode_run :
    decode_tile numbers no_hash no_frames payload entry state.header "moon.ltp" ≡ success tile
unfolding record_fields in_channel quality_reserved known_channel contract_ok contract_error
    pass_record keep_record misplaced decompressed decode_channel decode_known decode_record
    scan_channel scan_start framing_invalid palette_entry map_index scan_map palette_start
    scan_palette parse_provenance tile_metadata fields_ok framing_ok check_tile_header differ
    totals_ok not_decoded all_decoded code_range channel_of decoded_start hash_channels
    check_content_hash parse_channel_provenance collect disagrees summaries_ok decode_tile read_f32
    is_finite32 rank32 less32 rounded_millimeters code_elevation crc_bit crc_byte crc_bytes crc32c
    new_digest update_context update update_u8 update_u16 update_u32 update_u64 update_domain
    finish_context finish bytes_eq all_zero magic_is digest_prefix_matches read_u8 read_u64
    range_fits predicted decode_sample reverse_delta2d_u16 align8 checked_multiply read_u16 read_u32
    read_bytes lunar_terrain_builder.ByteIo.read_u16
decode_run = refl

decode_tile-channels_example : (tile.key ≡ entry.key) × Pairwise Lower tile.channels
decode_tile-channels_example =
    decode_tile-channels numbers no_hash no_frames payload entry state.header "moon.ltp" tile
      decode_run

abbrev sample : DecodedChannel
sample = record {
  id = 1;
  version = 1;
  element_type = 2;
  components = 1;
  width = 1;
  height = 1;
  flags = 1;
  parameter1 = 1;
  bytes = 5 ∷ 0 ∷ [];
}

decode_tile-elevations_example :
    (sample.width * sample.height * 2 ≡ length sample.bytes)
    × (entry.minimum_elevation_code ≤ read_u16 sample.bytes 0)
    × (read_u16 sample.bytes 0 ≤ entry.maximum_elevation_code)
decode_tile-elevations_example =
    decode_tile-elevations numbers no_hash no_frames payload entry state.header "moon.ltp" tile
      sample 0 decode_run (head refl) refl (omega arith)

decode_tile-provenance_example :
    Pairwise (λ (e f : ProvenancePaletteEntry). e.dataset_id < f.dataset_id) parsed.palette
    × Names parsed.palette tile.metadata.primary_dataset
    × (length parsed.palette ≡ read_u16 payload 48)
    × (length parsed.dominant_source_indices ≡ parsed.map_width * parsed.map_height)
    × All (λ i. i < length parsed.palette) parsed.dominant_source_indices
decode_tile-provenance_example =
    decode_tile-provenance numbers no_hash no_frames payload entry state.header "moon.ltp" tile
      parsed decode_run refl

header_run : check_tile_header payload entry "moon.ltp" ≡ success tt
unfolding check_tile_header fields_ok framing_ok tile_metadata magic_is all_zero bytes_eq range_fits
    read_u8 read_u16 read_u32 read_u64 read_f32 is_finite32 less32 rank32 align8
header_run = refl

in_bounds_example :
    (read_u32 payload 52 + 1 * channel_record + channel_record ≤ read_u32 payload 60)
    × (read_u32 payload 60 ≤ length payload)
in_bounds_example =
    check_tile_header-in_bounds payload entry "moon.ltp" 1 (omega arith) header_run
      (unfold read_u16 in omega arith)

read_run : read_tile numbers no_hash no_frames read_file pack_path state entry ≡ success tile
unfolding read_tile read_payload check_pack check_pack_header check_pack_hash pack_hash
    pack_header_ok check_layout check_payload find_pack magic_is all_zero bytes_eq range_fits
    digest_prefix_matches read_u16 read_u32 read_u64 crc32c crc_bytes crc_byte crc_bit new_digest
    update_context update finish_context finish
read_run = decode_run

read_tile-Intact_example : Intact numbers no_hash no_frames read_file pack_path state entry tile
read_tile-Intact_example =
    read_tile-Intact numbers no_hash no_frames read_file pack_path state entry tile read_run
