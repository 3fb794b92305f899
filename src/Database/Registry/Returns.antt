-- ===== src/Database/Registry/Returns.antt =====
-- The fuel of the loop over the string table.
use lunar_terrain_builder.Base.{
  ℕ, zero, suc, ◌+◌, ◌*◌, ◌/◌, ◌^◌, ◌≤◌, ◌<◌, ◌≡◌, refl, arith, bit_and, String, true, false, some,
  [], length, u32, u64, complement64, ltb, Bool-cases, inl, inr,
}
use lunar_terrain_builder.Base.Bits.{bit_and-complement}
use lunar_terrain_builder.Error.{Result, success, failure, Result-cases, ◌>>=◌}
use lunar_terrain_builder.ByteIo.{Bytes}
use lunar_terrain_builder.Database.Bytes.{read_u32, range_fits, range_fits_iff}
use lunar_terrain_builder.Database.Chunks.{ChunkInfo}
use lunar_terrain_builder.Database.Registry.{
  Strings, emplace, string_record, strings_from, nonempty_strings, parse_strings,
}

-- What a record that is accepted says about the place of the next one.
string_record-end :
    (chunk : ChunkInfo) (path : String) (offset : ℕ) (previous text : Bytes) (next : ℕ)
    → string_record chunk path offset previous ≡ success (text, next)
    → (next ≡ bit_and (u64 (offset + 4 + read_u32 chunk.bytes offset + 3)) (complement64 3))
      × (range_fits (offset + 4) (read_u32 chunk.bytes offset) (length chunk.bytes) ≡ true)
unfolding string_record
string_record-end chunk path offset previous text next h = ground arith

string_record-moves :
    (chunk : ChunkInfo) (path : String) (offset : ℕ) (previous text : Bytes) (next : ℕ)
    → length chunk.bytes + 8 ≤ 2 ^ 64
    → string_record chunk path offset previous ≡ success (text, next)
    → offset < next
string_record-moves chunk path offset previous text next small h =
    let (e, fits) = string_record-end chunk path offset previous text next h in
    let inside =
      (range_fits_iff (offset + 4) (read_u32 chunk.bytes offset) (length chunk.bytes)).0 fits in
    let n = u64 (offset + 4 + read_u32 chunk.bytes offset + 3) in
    let rounded : bit_and n (complement64 3) ≡ n / 4 * 4 =
      bit_and-complement 2 n (omega arith) (omega arith) in
    omega (arith, e, rounded, inside)

strings_from-returns :
    (chunk : ChunkInfo) (path : String) (fuel offset : ℕ) (previous : Bytes) (strings : Strings)
    → length chunk.bytes + 8 ≤ 2 ^ 64
    → length chunk.bytes ≤ fuel + offset
    → (r : Result Strings) × (strings_from chunk path fuel offset previous strings ≡ some r)
unfolding strings_from
strings_from-returns chunk path zero offset previous strings small enough =
    let past : ltb offset (length chunk.bytes) ≡ false = ground arith in
    (success strings, rw past refl)
strings_from-returns chunk path (suc fuel) offset previous strings small enough =
    elim (Bool-cases (ltb offset (length chunk.bytes))) [
      | inr past ↦ (success strings, rw past refl)
      | inl inside ↦ elim (Result-cases (string_record chunk path offset previous)) [
        | inr (err, e) ↦ (failure err, rw (inside, e) refl)
        | inl ((text, next), e) ↦
            let moved = string_record-moves chunk path offset previous text next small e in
            let (r, f) =
              strings_from-returns chunk path fuel next text (emplace (u32 offset) text strings)
                small (omega arith) in
            (r, rw (inside, e) f)
      ]
    ]

-- For a chunk of at most 2^64 - 8 bytes, the loop of `parse_strings` ends: it does not run out of
-- fuel and returns the strings or an error.
pub parse_strings-returns :
    (chunk : ChunkInfo) (path : String)
    → length chunk.bytes + 8 ≤ 2 ^ 64
    → (r : Result Strings) × (parse_strings chunk path ≡ some r)
unfolding parse_strings
parse_strings-returns chunk path small =
    let (r, e) = strings_from-returns chunk path (length chunk.bytes) 0 [] [] small (omega arith) in
    (r >>= nonempty_strings chunk path, rw (parse_strings, e) refl)
