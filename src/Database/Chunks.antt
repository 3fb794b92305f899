-- ===== src/Database/Chunks.antt =====
-- The chunk directory: `parse_chunks` and `find_chunk` of src/core/database.cpp.
use lunar_terrain_builder.Base.{
  ℕ, ◌+◌, ◌-◌, ◌*◌, ◌%◌, bit_and, String, Bool, false, not, ◌||◌, Option, none, some, List, [], ◌∷◌,
  ◌++◌, length, subspan, ltb, ◌/=◌, u64, if◌then◌else◌,
}
use lunar_terrain_builder.Error.{ErrorCode, Result, success, ◌>>=◌, ◌>>◌, fail_if}
use lunar_terrain_builder.Error.Loops.{try_up}
use lunar_terrain_builder.ByteIo.{Bytes}
use lunar_terrain_builder.Integrity.{crc32c}
use lunar_terrain_builder.Database.Bytes.{
  located, read_u16, read_u32, read_u64, range_fits, all_zero, tag_is, bytes_less,
}
use lunar_terrain_builder.Database.Header.{HeaderParse}

pub record ChunkInfo : Type 0 where
  pub tag : Bytes
  pub version : ℕ
  pub flags : ℕ
  pub offset : ℕ
  pub stored_bytes : ℕ
  pub logical_bytes : ℕ
  pub bytes : Bytes

abbrev pub chunk_directory_entry : ℕ
chunk_directory_entry = 40

abbrev pub chunk_required : ℕ
chunk_required = 1

abbrev pub chunk_content_identity : ℕ
chunk_content_identity = 2

pub known_tag : Bytes → Bool
known_tag tag =
    tag_is tag "DSET"
    || tag_is tag "META"
    || tag_is tag "PACK"
    || tag_is tag "STRS"
    || tag_is tag "TIDX"

-- The chunk that a directory record describes, with its bytes where the range lies in the file.
pub chunk_fields : Bytes → Bytes → ChunkInfo
chunk_fields file entry =
    let offset = read_u64 entry 8 in
    let stored_bytes = read_u64 entry 16 in
    record {
      tag = subspan entry 0 4;
      version = read_u16 entry 4;
      flags = read_u16 entry 6;
      offset = offset;
      stored_bytes = stored_bytes;
      logical_bytes = read_u64 entry 24;
      bytes = subspan file offset stored_bytes;
    }

-- `previous_tag && !(*previous_tag < chunk.tag)`; the previous tag is that of the last chunk.
pub tag_out_of_order : Option Bytes → Bytes → Bool
tag_out_of_order none tag = false
tag_out_of_order (some previous) tag = not (bytes_less previous tag)

pub record ChunkScan : Type 0 where
  pub chunks : List ChunkInfo
  pub previous_tag : Option Bytes

-- The tests of a chunk with a known tag, and of one without.
pub check_framing : String → ℕ → ChunkInfo → Result (Unit {0})
unfolding known_tag
check_framing path record_offset chunk =
    if known_tag chunk.tag
    then (do
      fail_if (chunk.version /= 1) (
          located ErrorCode.unsupported_version "known LTDB chunk version is not supported" path
            (some (record_offset + 4)))
      fail_if (chunk.flags /= 3 || chunk.stored_bytes /= chunk.logical_bytes) (
          located ErrorCode.invalid_format "known LTDB chunk framing is not canonical v1" path
            (some (record_offset + 6))))
    else fail_if (bit_and chunk.flags chunk_required /= 0) (
        located ErrorCode.unsupported_feature "unknown required LTDB chunk is not supported" path
          (some record_offset))

-- One round of the directory loop.
pub scan_chunk : Bytes → ℕ → String → ℕ → ChunkScan → Result ChunkScan
unfolding chunk_fields check_framing tag_out_of_order
scan_chunk file directory_offset path index scan =
    let record_offset = u64 (directory_offset + index * chunk_directory_entry) in
    let entry = subspan file record_offset chunk_directory_entry in
    let chunk = chunk_fields file entry in
    do
      fail_if (tag_out_of_order scan.previous_tag chunk.tag) (
          located ErrorCode.invalid_format "LTDB chunk directory tags are not strictly sorted" path
            (some record_offset))
      fail_if (bit_and chunk.flags 0xFFFC /= 0) (
          located ErrorCode.unsupported_feature "LTDB chunk has unknown flags" path
            (some (record_offset + 6)))
      fail_if (read_u32 entry 36 /= 0) (
          located ErrorCode.invalid_format "LTDB chunk directory reserved bytes are nonzero" path
            (some (record_offset + 36)))
      fail_if
          (chunk.offset % 8 /= 0 || not (range_fits chunk.offset chunk.stored_bytes (length file)))
          (located ErrorCode.invalid_format "LTDB chunk range is invalid or misaligned" path
            (some (record_offset + 8)))
      fail_if (crc32c chunk.bytes /= read_u32 entry 32) (
          located ErrorCode.checksum_mismatch "LTDB chunk CRC32C does not match" path
            (some chunk.offset))
      check_framing path record_offset chunk
      success (record { chunks = scan.chunks ++ chunk ∷ []; previous_tag = some chunk.tag })

-- `std::ranges::sort` by the offset. The order of equal elements, which the standard leaves open,
-- is that of the directory.
pub insert_by_offset : ChunkInfo → List ChunkInfo → List ChunkInfo
insert_by_offset c [] = c ∷ []
insert_by_offset c (d ∷ rest) =
    if ltb d.offset c.offset then d ∷ insert_by_offset c rest else c ∷ (d ∷ rest)

pub sort_by_offset : List ChunkInfo → List ChunkInfo
unfolding insert_by_offset
sort_by_offset [] = []
sort_by_offset (c ∷ rest) = insert_by_offset c (sort_by_offset rest)

-- The loop over the chunks in the order of the file.
pub check_physical : Bytes → String → ℕ → List ChunkInfo → Result (Unit {0})
check_physical file path previous_end [] = success tt
check_physical file path previous_end (c ∷ rest) =
    fail_if (ltb c.offset previous_end) (
      located ErrorCode.invalid_format "LTDB chunks overlap the directory or one another" path
        (some c.offset))
    >> (fail_if (not (all_zero (subspan file previous_end (c.offset - previous_end)))) (
          located ErrorCode.invalid_format "LTDB alignment bytes are nonzero" path
            (some previous_end))
        >> check_physical file path (u64 (c.offset + c.stored_bytes)) rest)

pub count_tag : String → List ChunkInfo → ℕ
count_tag tag [] = 0
count_tag tag (c ∷ rest) = (if tag_is c.tag tag then 1 else 0) + count_tag tag rest

pub require_tags : String → List ChunkInfo → List String → Result (Unit {0})
unfolding count_tag
require_tags path chunks [] = success tt
require_tags path chunks (tag ∷ rest) =
    fail_if (count_tag tag chunks /= 1)
      (located ErrorCode.invalid_format "mandatory LTDB chunk is missing or duplicated" path none)
    >> require_tags path chunks rest

pub parse_chunks : Bytes → HeaderParse → String → Result (List ChunkInfo)
unfolding scan_chunk sort_by_offset check_physical require_tags
parse_chunks file parsed_header path =
    let directory_bytes = parsed_header.chunk_count * chunk_directory_entry in
    let directory_offset = parsed_header.chunk_directory_offset in
    do
      fail_if (not (range_fits directory_offset directory_bytes (length file))) (
          located ErrorCode.truncated_data "LTDB chunk directory is truncated" path
            (some directory_offset))
      scan ←
          try_up parsed_header.chunk_count (scan_chunk file directory_offset path)
            (record { chunks = []; previous_tag = none })
      check_physical file path (directory_offset + directory_bytes) (sort_by_offset scan.chunks)
      require_tags path scan.chunks ("DSET" ∷ "META" ∷ "PACK" ∷ "STRS" ∷ "TIDX" ∷ [])
      success scan.chunks

-- `*std::ranges::find_if(chunks, tag)`: `none` is the end of the list, which `parse_chunks` rules out.
pub find_chunk : List ChunkInfo → String → Option ChunkInfo
find_chunk [] tag = none
find_chunk (c ∷ rest) tag = if tag_is c.tag tag then some c else find_chunk rest tag
