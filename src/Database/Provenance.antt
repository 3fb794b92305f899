-- ===== src/Database/Provenance.antt =====
-- `TileProvenance` of include/lunar/terrain/tile.hpp and `parse_provenance` of
-- src/core/database.cpp.
pub mod Sound
use lunar_terrain_builder.Base.{
  ℕ, ◌+◌, ◌*◌, bit_and, String, Bool, true, false, not, ◌&&◌, ◌||◌, some, List, [], ◌∷◌, ◌++◌,
  length, ltb, leb, ◌==◌, ◌/=◌, u64, if◌then◌else◌,
}
use lunar_terrain_builder.Error.{
  ErrorCode, Error, with_tile_key, with_channel, Result, success, ◌>>=◌, ◌>>◌, fail_if,
}
use lunar_terrain_builder.Error.Loops.{try_up}
use lunar_terrain_builder.ByteIo.{Bytes}
use lunar_terrain_builder.Database.Bytes.{located, read_u8, read_u16, read_u32}
use lunar_terrain_builder.Database.Floats.{Doubles, read_f32, is_finite32, less32, zero32, one32}

pub record ProvenancePaletteEntry : Type 0 where
  pub dataset_id : ℕ
  pub flags : ℕ
  pub contribution_fraction : ℕ
  pub native_resolution_meters : ℕ

pub record TileProvenance : Type 0 where
  pub map_width : ℕ
  pub map_height : ℕ
  pub palette : List ProvenancePaletteEntry
  pub dominant_source_indices : List ℕ

abbrev pub provenance_header : ℕ
provenance_header = 16

abbrev pub provenance_palette_entry : ℕ
provenance_palette_entry = 16

-- `(!has_map && …) || (has_map && …)`
unfoldable pub framing_invalid :
    (has_map : Bool) → (palette_count map_width map_height index_width flags : ℕ) → Bool
framing_invalid has_map palette_count map_width map_height index_width flags =
    if has_map
    then map_width == 0
      || map_height == 0
      || (index_width /= 1 && index_width /= 2)
      || (if leb palette_count 256 then index_width /= 1 else index_width /= 2)
    else map_width /= 0 || map_height /= 0 || index_width /= 0 || flags /= 0

-- The entry of the palette with this index.
unfoldable pub palette_entry : Bytes → ℕ → ProvenancePaletteEntry
palette_entry bytes index =
    let offset = provenance_header + index * provenance_palette_entry in
    record {
      dataset_id = read_u32 bytes offset;
      flags = read_u32 bytes (offset + 4);
      contribution_fraction = read_f32 bytes (offset + 8);
      native_resolution_meters = read_f32 bytes (offset + 12);
    }

-- The index into the palette that the map has for a sample.
unfoldable pub map_index : Bytes → ℕ → ℕ → ℕ
map_index bytes index_width map_offset =
    if index_width == 2 then read_u16 bytes map_offset else read_u8 bytes map_offset

-- One round of the loop over the map; the offset moves on by the index width.
unfoldable pub scan_map : Bytes → ℕ → ℕ → ℕ → String → ℕ → ℕ → List ℕ → Result (List ℕ)
unfolding map_index
scan_map bytes index_width palette_count palette_bytes path absolute_offset sample indices =
    let map_offset = provenance_header + palette_bytes + sample * index_width in
    let palette_index = map_index bytes index_width map_offset in
    fail_if (leb palette_count palette_index) (
      located ErrorCode.invalid_format "PRVN map index is outside the palette" path
        (some (absolute_offset + map_offset)))
    >> success (indices ++ palette_index ∷ [])

module _ (d : Doubles) where
  -- The variables of the loop over the palette.
  pub record PaletteScan : Type 0 where
    pub first : Bool
    pub previous_dataset : ℕ
    pub primary_present : Bool
    pub contribution_sum : d.Double
    pub palette : List ProvenancePaletteEntry

  unfoldable pub palette_start : PaletteScan
  palette_start = record {
    first = true;
    previous_dataset = 0;
    primary_present = false;
    contribution_sum = d.from_integer 0;
    palette = [];
  }

  -- One round of it.
  unfoldable pub scan_palette :
      Bytes → ℕ → ℕ → String → ℕ → ℕ → ℕ → PaletteScan → Result PaletteScan
  unfolding palette_entry
  scan_palette bytes channel_id primary_dataset path absolute_offset tile_key index s =
      let offset = provenance_header + index * provenance_palette_entry in
      let e = palette_entry bytes index in
      fail_if
        ((not s.first && leb e.dataset_id s.previous_dataset)
          || e.flags /= 0
          || not (is_finite32 e.contribution_fraction)
          || less32 e.contribution_fraction zero32
          || less32 one32 e.contribution_fraction
          || not (is_finite32 e.native_resolution_meters)
          || not (less32 zero32 e.native_resolution_meters))
        (with_channel
          (with_tile_key
            (located ErrorCode.invalid_format "PRVN palette entry is invalid" path
              (some (absolute_offset + offset)))
            tile_key)
          channel_id)
      >> success (record {
        first = false;
        previous_dataset = e.dataset_id;
        primary_present = s.primary_present || e.dataset_id == primary_dataset;
        contribution_sum = d.add s.contribution_sum (d.from_float e.contribution_fraction);
        palette = s.palette ++ e ∷ [];
      })

  unfoldable pub parse_provenance : Bytes → ℕ → ℕ → String → ℕ → ℕ → Result TileProvenance
  unfolding framing_invalid palette_start scan_palette scan_map
  parse_provenance bytes channel_id primary_dataset path absolute_offset tile_key = do
    fail_if (ltb (length bytes) provenance_header)
        (located ErrorCode.truncated_data "PRVN header is truncated" path (some absolute_offset))
    let palette_count = read_u16 bytes 2
    let map_width = read_u16 bytes 4
    let map_height = read_u16 bytes 6
    let index_width = read_u8 bytes 8
    let flags = read_u16 bytes 10
    fail_if
        (read_u16 bytes 0 /= 1
          || palette_count == 0
          || read_u8 bytes 9 /= 0
          || read_u32 bytes 12 /= 0
          || bit_and flags 0xFFFFFFFE /= 0)
        (located ErrorCode.invalid_format "PRVN header fields are invalid" path
          (some absolute_offset))
    fail_if
        (framing_invalid (bit_and flags 1 /= 0) palette_count map_width map_height index_width
          flags)
        (located ErrorCode.invalid_format "PRVN map framing is invalid" path (some absolute_offset))
    let palette_bytes = palette_count * provenance_palette_entry
    let map_samples = map_width * map_height
    fail_if (provenance_header + palette_bytes + map_samples * index_width /= length bytes) (
        located ErrorCode.invalid_format "PRVN byte count disagrees with its header" path
          (some absolute_offset))
    scan ←
        try_up palette_count
          (scan_palette bytes channel_id primary_dataset path absolute_offset tile_key)
          palette_start
    fail_if
        (not scan.primary_present
          || d.less d.micro (d.absolute (d.subtract scan.contribution_sum (d.from_integer 1))))
        (located ErrorCode.invalid_format
          "PRVN palette omits the primary dataset or has invalid weights" path
          (some absolute_offset))
    indices ←
        try_up map_samples
          (scan_map bytes index_width palette_count palette_bytes path absolute_offset) []
    success (record {
      map_width = map_width;
      map_height = map_height;
      palette = scan.palette;
      dominant_source_indices = indices;
    })
