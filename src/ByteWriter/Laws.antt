-- ===== src/ByteWriter/Laws.antt =====
-- The writers of src/builder/container_writer.cpp and the readers of src/core/byte_io.cpp.
use lunar_terrain_builder.Base.{
  ℕ, zero, suc, ◌+◌, ◌-◌, ◌*◌, ◌/◌, ◌%◌, ◌^◌, ◌≤◌, ◌<◌, ◌≡◌, ◌∙◌, refl, sym, ap, arith, [], ◌∷◌,
  ◌++◌, length, replicate, set, drop, length-append, length-replicate, length-drop, set-middle, u64,
  IsU64, bit_and, complement64,
}
use lunar_terrain_builder.Base.Bits.{bit_and-complement}
use lunar_terrain_builder.Error.{Result, success}
use lunar_terrain_builder.ByteIo.{Bytes, LittleEndianReader, read_u16, read_u32, read_u64}
use lunar_terrain_builder.ByteIo.Little.{le_bytes, length-le_bytes, pow-bytes}
use lunar_terrain_builder.ByteIo.Reader.{read_u16-le_bytes, read_u32-le_bytes, read_u64-le_bytes}
use lunar_terrain_builder.ByteWriter.{
  align8, align_to_8, write_bytes_le, append_u16, append_u32, append_u64,
}
use native.Mathlib.Nat.{div-div-eq-div-mul, pow-suc}
use mathlib.Core.List.{append-nil, append_assoc}

-- The next byte of a numeral, at its end.
pub le_bytes-last : (n v : ℕ) → le_bytes (suc n) v ≡ le_bytes n v ++ v / 2 ^ (n * 8) % 256 ∷ []
unfolding le_bytes
le_bytes-last zero v = let e : v / 1 ≡ v = omega arith in rw e
le_bytes-last (suc n) v =
    let e : v / 2 ^ (suc n * 8) ≡ v / 256 / 2 ^ (n * 8) =
      ap (λ (t : ℕ). v / t) (omega (arith, pow-bytes n, pow-bytes (suc n), pow-suc 256 n))
      ∙ sym (div-div-eq-div-mul v 256 (2 ^ (n * 8))) in
    rw e (ap (◌∷◌ (v % 256)) (le_bytes-last n (v / 256)))

-- One write of the loop: the byte behind those that are done replaces the next old one.
set-next :
    (done : Bytes) (old : Bytes) (b : ℕ)
    → 0 < length old
    → set (done ++ old) (length done) b ≡ (done ++ b ∷ []) ++ drop 1 old
set-next [] [] b h = absurd (omega arith)
set-next [] (o ∷ old) b h = refl
set-next (d ∷ done) old b h = ap (◌∷◌ d) (set-next done old b h)

drop-drop : (n : ℕ) (old : Bytes) → drop 1 (drop n old) ≡ drop (suc n) old
drop-drop zero old = refl
drop-drop (suc n) [] = refl
drop-drop (suc n) (o ∷ old) = drop-drop n old

-- After `n` rounds the first `n` bytes are those of the value, and nothing else has changed.
pub write_bytes_le-middle :
    (n : ℕ) (pre mid post : Bytes) (v : ℕ)
    → n ≤ length mid
    → write_bytes_le n (pre ++ (mid ++ post)) (length pre) v
      ≡ pre ++ ((le_bytes n v ++ drop n mid) ++ post)
write_bytes_le-middle zero pre mid post v h = unfold le_bytes in refl
write_bytes_le-middle (suc n) pre mid post v h =
    rw (write_bytes_le-middle n pre mid post v (omega arith)) (
      set-middle pre (le_bytes n v ++ drop n mid) post n _ room
      ∙ ap (λ (m : Bytes). pre ++ (m ++ post)) next)
  where
    room : n < length (le_bytes n v ++ drop n mid)
    room =
        omega
          (arith, length-append (le_bytes n v) (drop n mid), length-le_bytes n v, length-drop n mid)

    place : length (le_bytes n v) ≡ n
    place = length-le_bytes n v

    next :
        set (le_bytes n v ++ drop n mid) n (v / 2 ^ (n * 8) % 256)
        ≡ le_bytes (suc n) v ++ drop (suc n) mid
    next =
        ap (λ (k : ℕ). set (le_bytes n v ++ drop n mid) k (v / 2 ^ (n * 8) % 256)) (sym place)
        ∙ set-next (le_bytes n v) (drop n mid) _ (omega (arith, length-drop n mid))
        ∙ rw (le_bytes-last n v, drop-drop n mid)

drop-all : (xs : Bytes) → drop (length xs) xs ≡ []
drop-all [] = refl
drop-all (x ∷ xs) = drop-all xs

-- Over a middle part of just the right length the bytes of the value take its place.
write_bytes_le-whole :
    (n : ℕ) (pre mid post : Bytes) (v : ℕ)
    → length mid ≡ n
    → write_bytes_le n (pre ++ (mid ++ post)) (length pre) v ≡ pre ++ (le_bytes n v ++ post)
write_bytes_le-whole n pre mid post v e =
    write_bytes_le-middle n pre mid post v (omega (arith, e))
    ∙ rw (← e) (rw (drop-all mid, append-nil))

append_le :
    (n : ℕ) (bytes : Bytes) (v : ℕ)
    → write_bytes_le n (bytes ++ replicate n 0) (length bytes) v ≡ bytes ++ le_bytes n v
append_le n bytes v =
    ap (λ (t : Bytes). write_bytes_le n (bytes ++ t) (length bytes) v)
      (sym (append-nil {A = ℕ} (replicate n 0)))
    ∙ write_bytes_le-whole n bytes (replicate n 0) [] v (length-replicate n 0)
    ∙ rw append-nil

pub append_u16-le : (bytes : Bytes) (v : ℕ) → append_u16 bytes v ≡ bytes ++ le_bytes 2 v
unfolding append_u16
append_u16-le bytes v = append_le 2 bytes v

pub append_u32-le : (bytes : Bytes) (v : ℕ) → append_u32 bytes v ≡ bytes ++ le_bytes 4 v
unfolding append_u32
append_u32-le bytes v = append_le 4 bytes v

pub append_u64-le : (bytes : Bytes) (v : ℕ) → append_u64 bytes v ≡ bytes ++ le_bytes 8 v
unfolding append_u64
append_u64-le bytes v = append_le 8 bytes v

abbrev pub reader : Bytes → LittleEndianReader
reader bytes = record { bytes = bytes; base_offset = 0 }

-- The three widths of the format's unsigned integers.
pub data Width : Type 0 where
  w16 w32 w64 : Width

abbrev pub bits : Width → ℕ
bits w16 = 16
bits w32 = 32
bits w64 = 64

abbrev pub append_at : Width → Bytes → ℕ → Bytes
append_at w16 = append_u16
append_at w32 = append_u32
append_at w64 = append_u64

abbrev pub read_at : Width → LittleEndianReader → ℕ → Result ℕ
read_at w16 = read_u16
read_at w32 = read_u32
read_at w64 = read_u64

room :
    (bytes more : Bytes) (v n : ℕ)
    → IsU64 (length bytes + 8 + length more)
    → n ≤ 8
    → IsU64 (length (bytes ++ (le_bytes n v ++ more)))
room bytes more v n fits h = omega (
  arith,
  length-append bytes (le_bytes n v ++ more),
  length-append (le_bytes n v) more,
  length-le_bytes n v,
)

-- What the builder appends as an unsigned integer of 16, 32 or 64 bits, the reader finds at the old
-- end of the buffer, whatever is appended later, in a buffer that fits memory.
pub read-append :
    (w : Width) (bytes more : Bytes) (v : ℕ)
    → IsU64 (length bytes + 8 + length more)
    → v < 2 ^ bits w
    → read_at w (reader (append_at w bytes v ++ more)) (length bytes) ≡ success v
read-append w16 bytes more v fits h =
    rw (append_u16-le bytes v, append_assoc)
      (read_u16-le_bytes bytes more 0 v (room bytes more v 2 fits (omega arith)) h)
read-append w32 bytes more v fits h =
    rw (append_u32-le bytes v, append_assoc)
      (read_u32-le_bytes bytes more 0 v (room bytes more v 4 fits (omega arith)) h)
read-append w64 bytes more v fits h =
    rw (append_u64-le bytes v, append_assoc)
      (read_u64-le_bytes bytes more 0 v (room bytes more v 8 fits (omega arith)) h)

-- Below the top of the 64-bit range, `align8` is the least multiple of eight that is not below its
-- argument.
pub align8_least :
    (n : ℕ) → n + 8 ≤ 2 ^ 64 → (n ≤ align8 n) × (align8 n < n + 8) × (align8 n % 8 ≡ 0)
unfolding align8
align8_least n h =
    let e : u64 (n + 7) ≡ n + 7 = omega arith in
    let cleared : bit_and (u64 (n + 7)) (complement64 7) ≡ (n + 7) / 8 * 8 =
      rw e (bit_and-complement 3 (n + 7) (omega arith) (omega arith)) in
    (omega (arith, cleared), omega (arith, cleared), omega (arith, cleared))

-- For a buffer of at most 2^64 - 8 bytes, `align_to_8` makes the length a multiple of eight and adds
-- fewer than eight bytes.
pub align_to_8-length :
    (bytes : Bytes)
    → length bytes + 8 ≤ 2 ^ 64
    → (length (align_to_8 bytes) % 8 ≡ 0)
      × (length bytes ≤ length (align_to_8 bytes))
      × (length (align_to_8 bytes) < length bytes + 8)
unfolding align_to_8
align_to_8-length bytes h =
    let a = align8_least (length bytes) h in
    let l = length-append bytes (replicate (align8 (length bytes) - length bytes) 0) in
    let z = length-replicate {A = ℕ} (align8 (length bytes) - length bytes) 0 in
    (omega (arith, a, l, z), omega (arith, a, l, z), omega (arith, a, l, z))
