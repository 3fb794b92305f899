-- ===== src/Database/Registry.antt =====
-- The string table and the dataset registry: `parse_strings` and `validate_datasets` of
-- src/core/database.cpp. A string is the list of its bytes.
pub mod Returns
use lunar_terrain_builder.Base.{
  ℕ, zero, suc, ◌+◌, ◌-◌, ◌*◌, ◌%◌, bit_and, String, Bool, true, false, not, ◌&&◌, ◌||◌, Option,
  none, some, List, [], ◌∷◌, ◌++◌, length, get_or, subspan, ltb, leb, ◌==◌, ◌/=◌, u32, u64,
  complement64, if◌then◌else◌,
}
use lunar_terrain_builder.Error.{ErrorCode, Result, success, failure, ◌>>=◌, ◌>>◌, fail_if}
use lunar_terrain_builder.Error.Loops.{try_up}
use lunar_terrain_builder.ByteIo.{Bytes}
use lunar_terrain_builder.Integrity.{Openssl, DigestAccumulator, update, update_u32, update_u64}
use lunar_terrain_builder.Database.Bytes.{
  located, read_u32, read_u64, read_f64, is_finite, is_positive, canonical_nan, range_fits,
  all_zero, bytes_less,
}
use lunar_terrain_builder.Database.Text.{valid_utf8}
use lunar_terrain_builder.Database.Chunks.{ChunkInfo}

-- `std::map<std::uint32_t, std::string>`
abbrev pub Strings : Type 0
Strings = List (ℕ × Bytes)

pub find_string : ℕ → Strings → Option Bytes
find_string id [] = none
find_string id ((k, text) ∷ rest) = if k == id then some text else find_string id rest

-- `strings.emplace(id, text)`, which leaves a key that is there alone
pub emplace : ℕ → Bytes → Strings → Strings
emplace id text [] = (id, text) ∷ []
emplace id text ((k, t) ∷ rest) = if k == id then (k, t) ∷ rest else (k, t) ∷ emplace id text rest

-- One round of the loop: the record's text, and where the next record starts.
pub string_record : ChunkInfo → String → ℕ → Bytes → Result (Bytes × ℕ)
string_record chunk path offset previous = do
  fail_if (offset % 4 /= 0 || not (range_fits offset 4 (length chunk.bytes))) (
      located ErrorCode.invalid_format "STRS record header is invalid" path
        (some (chunk.offset + offset)))
  let byte_count : ℕ = read_u32 chunk.bytes offset
  fail_if (not (range_fits (offset + 4) byte_count (length chunk.bytes))) (
      located ErrorCode.truncated_data "STRS record text is truncated" path
        (some (chunk.offset + offset)))
  let text : Bytes = subspan chunk.bytes (offset + 4) byte_count
  fail_if (not (valid_utf8 text true)) (
      located ErrorCode.invalid_format "STRS contains invalid UTF-8 or NUL" path
        (some (chunk.offset + offset + 4)))
  fail_if (offset == 0 && length text /= 0)
      (located ErrorCode.invalid_format "STRS record zero is not empty" path (some chunk.offset))
  fail_if (offset /= 0 && (length text == 0 || not (bytes_less previous text))) (
      located ErrorCode.invalid_format "STRS strings are empty, duplicated, or unsorted" path
        (some (chunk.offset + offset)))
  let unaligned_end : ℕ = offset + 4 + byte_count
  let record_end : ℕ = bit_and (u64 (unaligned_end + 3)) (complement64 3)
  fail_if
      (not (range_fits unaligned_end (record_end - unaligned_end) (length chunk.bytes))
        || not (all_zero (subspan chunk.bytes unaligned_end (record_end - unaligned_end))))
      (located ErrorCode.invalid_format "STRS padding is invalid" path
        (some (chunk.offset + unaligned_end)))
  success (text, record_end)

-- The loop from `offset` on; `none` where the fuel runs out.
pub strings_from : ChunkInfo → String → ℕ → ℕ → Bytes → Strings → Option (Result Strings)
unfolding string_record emplace
strings_from chunk path zero offset previous strings =
    if ltb offset (length chunk.bytes) then none else some (success strings)
strings_from chunk path (suc fuel) offset previous strings =
    if ltb offset (length chunk.bytes)
    then elim (string_record chunk path offset previous) [
      | failure e ↦ some (failure e)
      | success record' ↦
          strings_from chunk path fuel (record'.1) (record'.0)
            (emplace (u32 offset) (record'.0) strings)
    ]
    else some (success strings)

pub nonempty_strings : ChunkInfo → String → Strings → Result Strings
nonempty_strings chunk path [] =
    failure (
      located ErrorCode.invalid_format "STRS does not contain record zero" path (some chunk.offset))
nonempty_strings chunk path (s ∷ rest) = success (s ∷ rest)

pub parse_strings : ChunkInfo → String → Option (Result Strings)
unfolding strings_from nonempty_strings
parse_strings chunk path = elim (strings_from chunk path (length chunk.bytes) 0 [] []) [
  | none ↦ none
  | some r ↦ some (r >>= nonempty_strings chunk path)
]

abbrev pub dataset_record : ℕ
dataset_record = 128

module _ (o : Openssl) where
  -- The state of the loop: the digest, the dataset identifiers in order, and the ranges in META.
  pub record DatasetScan : Type 0 where
    pub hash : DigestAccumulator o
    pub dataset_ids : List ℕ
    pub meta_ranges : List (ℕ × ℕ)

  -- `!first && id <= previous_id`, where the previous identifier is the last one.
  pub id_out_of_order : List ℕ → ℕ → Bool
  id_out_of_order [] id = false
  id_out_of_order (previous ∷ []) id = leb id previous
  id_out_of_order (previous ∷ (next ∷ rest)) id = id_out_of_order (next ∷ rest) id

  -- One of the eight string identifiers of a record.
  pub hash_string :
      ChunkInfo
      → Strings
      → String
      → ℕ
      → Bytes
      → ℕ
      → DigestAccumulator o
      → Result (DigestAccumulator o)
  hash_string dset strings path record_offset entry field hash =
      elim (find_string (read_u32 entry (8 + field * 4)) strings) [
        | none ↦ failure (
            located ErrorCode.invalid_format "DSET StringID does not point to a STRS record" path
              (some (dset.offset + record_offset + 8 + field * 4)))
        | some text ↦ success (update o text (update_u64 o (length text) hash))
      ]

  -- The tests of the resolution, the accuracies and the no-data value.
  pub check_dataset_numbers : ChunkInfo → String → ℕ → Bytes → Result (Unit {0})
  check_dataset_numbers dset path record_offset entry = do
    let at : ℕ → Option ℕ = λ field. some (dset.offset + record_offset + field)
    let bad : ℕ → Bool = λ field.
        let value = read_f64 entry field in
        (not (is_finite value) || not (is_positive value)) && not (canonical_nan value)
    let nominal : ℕ = read_f64 entry 40
    fail_if (not (is_finite nominal) || not (is_positive nominal))
        (located ErrorCode.invalid_format "DSET nominal resolution is invalid" path (at 40))
    fail_if (bad 48) (
        located ErrorCode.invalid_format "DSET accuracy value is not positive or canonical NaN" path
          (at 48))
    fail_if (bad 56) (
        located ErrorCode.invalid_format "DSET accuracy value is not positive or canonical NaN" path
          (at 56))
    let no_data : ℕ = read_u64 entry 64
    let declared : Bool = bit_and (read_u32 entry 4) 2 /= 0
    fail_if (not declared && not (canonical_nan no_data)) (
        located ErrorCode.invalid_format "DSET undeclared no-data value is not canonical NaN" path
          (at 64))
    fail_if (declared && (not (is_finite no_data) && not (canonical_nan no_data)))
        (located ErrorCode.invalid_format "DSET no-data value is invalid" path (at 64))

  -- `metadata.front() != '{' || metadata.back() != '}'` of bytes that are not empty
  pub not_an_object : Bytes → Bool
  not_an_object metadata =
      length metadata /= 0
      && (get_or metadata 0 0 /= b'{' || get_or metadata (length metadata - 1) 0 /= b'}')

  -- One round of the loop over the records.
  pub scan_dataset : ChunkInfo → ChunkInfo → Strings → String → ℕ → DatasetScan → Result DatasetScan
  unfolding id_out_of_order hash_string check_dataset_numbers not_an_object
  scan_dataset dset meta strings path index scan =
      let record_offset = index * dataset_record in
      let entry = subspan dset.bytes record_offset dataset_record in
      let id = read_u32 entry 0 in
      let flags = read_u32 entry 4 in
      let metadata_offset = read_u32 entry 112 in
      let metadata_bytes = read_u32 entry 116 in
      let metadata = subspan meta.bytes metadata_offset metadata_bytes in
      do
        fail_if
            (id_out_of_order scan.dataset_ids id
              || bit_and flags 0xFFFFFFFC /= 0
              || read_u32 entry 124 /= 0)
            (located ErrorCode.invalid_format "DSET IDs, flags, or reserved bytes are invalid" path
              (some (dset.offset + record_offset)))
        strings_hash ←
            try_up 8 (hash_string dset strings path record_offset entry)
              (update_u32 o flags (update_u32 o id scan.hash))
        check_dataset_numbers dset path record_offset entry
        fail_if (metadata_bytes == 0 && metadata_offset /= 0) (
            located ErrorCode.invalid_format "empty DSET META reference has a nonzero offset" path
              (some (dset.offset + record_offset + 112)))
        fail_if
            (metadata_bytes /= 0
              && not (range_fits metadata_offset metadata_bytes (length meta.bytes)))
            (located ErrorCode.invalid_format "DSET META range is invalid" path
              (some (dset.offset + record_offset + 112)))
        fail_if (not_an_object metadata) (
            located ErrorCode.invalid_format "DSET META document is not a JSON object" path
              (some (meta.offset + metadata_offset)))
        let numbers_hash : DigestAccumulator o =
            update o (subspan entry 80 32)
              (update_u64 o (read_u64 entry 72) (update o (subspan entry 40 32) strings_hash))
        let metadata_hash : DigestAccumulator o =
            update_u32 o (read_u32 entry 120)
              (update o metadata (update_u64 o metadata_bytes numbers_hash))
        success (record {
          hash = metadata_hash;
          dataset_ids = scan.dataset_ids ++ id ∷ [];
          meta_ranges =
              if metadata_bytes == 0
              then scan.meta_ranges
              else scan.meta_ranges ++ (metadata_offset, metadata_offset + metadata_bytes) ∷ [];
        })
