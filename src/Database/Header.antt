-- ===== src/Database/Header.antt =====
-- `DatabaseHeader` of include/lunar/terrain/tile.hpp, the header record of
-- include/lunar/terrain/format_v1.hpp, and `parse_header` of src/core/database.cpp.
use lunar_terrain_builder.Base.{ℕ, String, not, ◌||◌, some, length, take, subspan, ltb, ◌/=◌}
use lunar_terrain_builder.Error.{ErrorCode, Result, success, ◌>>◌, fail_if}
use lunar_terrain_builder.ByteIo.{Bytes}
use lunar_terrain_builder.TileKey.{max_level}
use lunar_terrain_builder.Database.Bytes.{
  located, read_u8, read_u16, read_u32, read_u64, read_f64, is_finite, is_positive, all_zero,
  magic_is, read_digest,
}

-- `double` fields are bit patterns; the two identifiers are their numbers.
pub record DatabaseHeader : Type 0 where
  pub major_version : ℕ
  pub minor_version : ℕ
  pub flags : ℕ
  pub database_id : Bytes
  pub reference_radius_meters : ℕ
  pub elevation_origin_meters : ℕ
  pub elevation_step_meters : ℕ
  pub tile_cells : ℕ
  pub core_vertices : ℕ
  pub apron_samples : ℕ
  pub maximum_level : ℕ
  pub projection : ℕ
  pub quantization : ℕ
  pub tile_count : ℕ
  pub dataset_count : ℕ
  pub pack_count : ℕ
  pub builder_configuration_hash : Bytes
  pub dataset_registry_hash : Bytes
  pub tile_index_hash : Bytes
  pub database_content_hash : Bytes

pub record HeaderParse : Type 0 where
  pub header : DatabaseHeader
  pub chunk_count : ℕ
  pub chunk_directory_offset : ℕ

-- `format_v1::bytes::ltdb_header`
abbrev pub ltdb_header : ℕ
ltdb_header = 256

abbrev pub major_supported : ℕ
major_supported = 1

abbrev pub endian_tag : ℕ
endian_tag = 0x01020304

-- The header's fields, at the offsets of `ltdb_header_offset`.
pub header_fields : Bytes → DatabaseHeader
header_fields bytes = record {
  major_version = read_u16 bytes 4;
  minor_version = read_u16 bytes 6;
  flags = 0;
  database_id = subspan bytes 32 16;
  reference_radius_meters = read_f64 bytes 48;
  elevation_origin_meters = read_f64 bytes 56;
  elevation_step_meters = read_f64 bytes 64;
  tile_cells = read_u16 bytes 72;
  core_vertices = read_u16 bytes 74;
  apron_samples = read_u8 bytes 76;
  maximum_level = read_u8 bytes 77;
  projection = read_u8 bytes 78;
  quantization = read_u8 bytes 79;
  tile_count = read_u64 bytes 80;
  dataset_count = read_u32 bytes 88;
  pack_count = read_u32 bytes 92;
  builder_configuration_hash = read_digest bytes 96;
  dataset_registry_hash = read_digest bytes 128;
  tile_index_hash = read_digest bytes 160;
  database_content_hash = read_digest bytes 192;
}

pub parse_header : Bytes → String → Result HeaderParse
unfolding header_fields
parse_header bytes path = do
  fail_if (ltb (length bytes) ltdb_header)
      (located ErrorCode.truncated_data "LTDB header is truncated" path (some (length bytes)))
  let fields : Bytes = take ltdb_header bytes
  fail_if (not (magic_is fields 0 "LTDB"))
      (located ErrorCode.invalid_format "LTDB magic is invalid" path (some 0))
  fail_if (read_u16 fields 4 /= major_supported)
      (located ErrorCode.unsupported_version "LTDB major version is not supported" path (some 4))
  fail_if (read_u32 fields 8 /= ltdb_header || read_u32 fields 12 /= endian_tag) (
      located ErrorCode.invalid_format "LTDB fixed header size or endian tag is invalid" path
        (some 8))
  fail_if (read_u32 fields 16 /= 0)
      (located ErrorCode.unsupported_feature "LTDB contains unknown database flags" path (some 16))
  fail_if (not (all_zero (subspan fields 224 32)))
      (located ErrorCode.invalid_format "LTDB reserved header bytes are nonzero" path (some 224))
  let chunk_count : ℕ = read_u32 fields 20
  let directory_offset : ℕ = read_u64 fields 24
  fail_if (ltb chunk_count 5 || ltb 4096 chunk_count || directory_offset /= ltdb_header) (
      located ErrorCode.invalid_format "LTDB chunk directory count or offset is invalid" path
        (some 20))
  let header : DatabaseHeader = header_fields fields
  fail_if
      (not (is_finite header.reference_radius_meters)
        || not (is_positive header.reference_radius_meters)
        || not (is_finite header.elevation_origin_meters)
        || not (is_finite header.elevation_step_meters)
        || not (is_positive header.elevation_step_meters))
      (located ErrorCode.invalid_format "LTDB quantization or radius values are invalid" path
        (some 48))
  fail_if
      (header.tile_cells /= 256
        || header.core_vertices /= 257
        || header.apron_samples /= 1
        || ltb max_level header.maximum_level)
      (located ErrorCode.invalid_format "LTDB tile-shape fields are invalid" path (some 72))
  fail_if (header.projection /= 1 || header.quantization /= 1) (
      located ErrorCode.unsupported_feature "LTDB projection or quantization is not supported" path
        (some 78))
  success (record {
    header = header;
    chunk_count = chunk_count;
    chunk_directory_offset = directory_offset;
  })
