-- ===== src/Staging/Artifact/Parts.antt =====
-- The bytes of `serialize_staged_core` part by part, and what the readers find at each place.
use lunar_terrain_builder.Base.{
  ℕ, zero, suc, ◌+◌, ◌*◌, ◌/◌, ◌^◌, ◌≤◌, ◌<◌, ◌≡◌, ◌∙◌, refl, sym, ap, subst, arith, String, true,
  false, List, [], ◌∷◌, ◌++◌, length, drop, take, subspan, take-length, drop-length, length-append,
  All, IsByte, ltb, u8, u32,
}
use mathlib.Core.List.{append-nil, append_assoc}
use lunar_terrain_builder.Error.{success}
use lunar_terrain_builder.ByteIo.{Bytes, join_bytes}
use lunar_terrain_builder.ByteIo.Little.{
  le_bytes, le_value, length-le_bytes, le_bytes-IsByte, le_value-le_bytes, join_bytes-le_value,
}
use lunar_terrain_builder.ByteWriter.Laws.{le_bytes-last}
use lunar_terrain_builder.TileKey.{LunarTileKey}
use lunar_terrain_builder.TileKey.Text.{bytes_eq}
use lunar_terrain_builder.Database.Bytes.{is_finite}
use lunar_terrain_builder.Staging.Artifact.{
  push_u16, push_le, push_u32, push_u64, push_samples, serialize_staged_core, read_u16, read_u32,
  read_u64, header_bytes, bad_header, load_samples,
}

-- The samples as the file keeps them.
encoded_samples : List ℕ → Bytes
encoded_samples [] = []
encoded_samples (sample ∷ samples) = le_bytes 8 sample ++ encoded_samples samples

-- A sample that fits its eight bytes and is finite.
abbrev pub IsSample : ℕ → Type 0
IsSample sample = (sample < 2 ^ 64) × (is_finite sample ≡ true)

push_le-le_bytes : (n : ℕ) (bytes : Bytes) (v : ℕ) → push_le n bytes v ≡ bytes ++ le_bytes n v
push_le-le_bytes zero bytes v = unfold le_bytes in sym (append-nil bytes)
push_le-le_bytes (suc n) bytes v =
    rw (push_le-le_bytes n bytes v, le_bytes-last n v)
      (append_assoc bytes (le_bytes n v) (u8 (v / 2 ^ (n * 8)) ∷ []))

push_samples-encoded :
    (bytes : Bytes) (samples : List ℕ)
    → push_samples bytes samples ≡ bytes ++ encoded_samples samples
unfolding push_samples push_u64 encoded_samples
push_samples-encoded bytes [] = sym (append-nil bytes)
push_samples-encoded bytes (sample ∷ samples) =
    push_samples-encoded (push_u64 bytes sample) samples
    ∙ rw (push_le-le_bytes 8 bytes sample)
        (append_assoc bytes (le_bytes 8 sample) (encoded_samples samples))

append-IsByte : (xs ys : Bytes) → All IsByte xs → All IsByte ys → All IsByte (xs ++ ys)
append-IsByte [] ys a b = b
append-IsByte (x ∷ xs) ys a b = (a.0, append-IsByte xs ys a.1 b)

encoded_samples-IsByte : (samples : List ℕ) → All IsByte (encoded_samples samples)
unfolding encoded_samples
encoded_samples-IsByte [] = tt
encoded_samples-IsByte (sample ∷ samples) =
    append-IsByte (le_bytes 8 sample) _ (le_bytes-IsByte 8 sample) (encoded_samples-IsByte samples)

length-encoded_samples : (samples : List ℕ) → length (encoded_samples samples) ≡ length samples * 8
unfolding encoded_samples
length-encoded_samples [] = refl
length-encoded_samples (sample ∷ samples) = omega (
  arith,
  length-append (le_bytes 8 sample) (encoded_samples samples),
  length-le_bytes 8 sample,
  length-encoded_samples samples,
)

-- Behind a part of known length.
drop-at : (n : ℕ) (pre post : Bytes) → length pre ≡ n → drop n (pre ++ post) ≡ post
drop-at n pre post e = subst (λ k. drop k (pre ++ post) ≡ post) e (drop-length pre post)

take-le_bytes : (n v : ℕ) (post : Bytes) → take n (le_bytes n v ++ post) ≡ le_bytes n v
take-le_bytes n v post =
    subst (λ k. take k (le_bytes n v ++ post) ≡ le_bytes n v) (length-le_bytes n v)
      (take-length (le_bytes n v) post)

join_bytes-at :
    (w n v : ℕ) (post : Bytes)
    → All IsByte post
    → n * 8 ≤ w
    → v < 256 ^ n
    → join_bytes w n (le_bytes n v ++ post) ≡ v
join_bytes-at w n v post bytes fits h =
    join_bytes-le_value w n (le_bytes n v ++ post)
      (append-IsByte (le_bytes n v) post (le_bytes-IsByte n v) bytes) fits
    ∙ ap le_value (take-le_bytes n v post)
    ∙ le_value-le_bytes n v h

module _ (bytes : Bytes) (path : String) (key : LunarTileKey) where
  read_u64-sample :
      (sample : ℕ) (samples : List ℕ) (pre : Bytes) (offset : ℕ)
      → bytes ≡ pre ++ encoded_samples (sample ∷ samples)
      → length pre ≡ offset
      → sample < 2 ^ 64
      → read_u64 bytes offset ≡ sample
  unfolding read_u64 encoded_samples
  read_u64-sample sample samples pre offset e l fits =
      ap (λ b. join_bytes 64 8 (drop offset b)) e
      ∙ ap (join_bytes 64 8) (drop-at offset pre _ l)
      ∙ join_bytes-at 64 8 sample (encoded_samples samples) (encoded_samples-IsByte samples)
          (omega arith) (omega (arith, fits))

  load_samples-encoded :
      (samples : List ℕ) (pre : Bytes) (index : ℕ)
      → bytes ≡ pre ++ encoded_samples samples
      → length pre ≡ header_bytes + index * 8
      → All IsSample samples
      → load_samples bytes path key (length samples) index ≡ success samples
  unfolding load_samples encoded_samples
  load_samples-encoded [] pre index e l all = refl
  load_samples-encoded (sample ∷ samples) pre index e l all =
      let ((fits, finite), rest) = all in
      let here' : read_u64 bytes (header_bytes + index * 8) ≡ sample =
        read_u64-sample sample samples pre _ e l fits in
      let later =
        load_samples-encoded samples (pre ++ le_bytes 8 sample) (suc index)
          (e ∙ sym (append_assoc pre (le_bytes 8 sample) (encoded_samples samples)))
          (omega (arith, l, length-append pre (le_bytes 8 sample), length-le_bytes 8 sample))
          rest in
      rw (here', finite, later) refl

-- The bytes of the file, part by part.
abbrev front : Bytes
front = 76 ∷ 84 ∷ 83 ∷ 67 ∷ 1 ∷ 0 ∷ 0 ∷ 0 ∷ []

pub artifact : LunarTileKey → Bytes → List ℕ → Bytes
artifact key hash samples =
    front
    ++ (le_bytes 8 key.encoded
        ++ (hash ++ (le_bytes 4 (length samples) ++ encoded_samples samples)))

small : (n : ℕ) → n < 2 ^ 32 → u32 n ≡ n
small n h = omega (arith, h)

regroup : (a b c d e : Bytes) → (((a ++ b) ++ c) ++ d) ++ e ≡ a ++ (b ++ (c ++ (d ++ e)))
regroup a b c d e = simp append_assoc

pub serialize_staged_core-artifact :
    (key : LunarTileKey) (hash : Bytes) (samples : List ℕ)
    → length samples < 2 ^ 32
    → serialize_staged_core key hash samples ≡ artifact key hash samples
unfolding serialize_staged_core artifact push_u16 push_u64 push_u32
serialize_staged_core-artifact key hash samples h =
    push_samples-encoded _ samples
    ∙ ap (λ b. b ++ encoded_samples samples)
        (push_le-le_bytes 4 (push_le 8 front key.encoded ++ hash) (u32 (length samples))
          ∙ ap (λ n. (push_le 8 front key.encoded ++ hash) ++ le_bytes 4 n)
              (small (length samples) h)
          ∙ ap (λ b. (b ++ hash) ++ le_bytes 4 (length samples))
              (push_le-le_bytes 8 front key.encoded))
    ∙ regroup front (le_bytes 8 key.encoded) hash (le_bytes 4 (length samples))
        (encoded_samples samples)

module _ (key : LunarTileKey) (hash : Bytes) (samples : List ℕ) (digest : length hash ≡ 32) where
  tail_at :
      drop 48 (artifact key hash samples) ≡ le_bytes 4 (length samples) ++ encoded_samples samples
  unfolding artifact le_bytes
  tail_at = drop-at 32 hash _ digest

  pub key_at :
      All IsByte hash → key.encoded < 2 ^ 64 → read_u64 (artifact key hash samples) 8 ≡ key.encoded
  unfolding artifact read_u64
  key_at bytes h =
      join_bytes-at 64 8 key.encoded _
        (append-IsByte hash _ bytes (
          append-IsByte (le_bytes 4 (length samples)) _ (le_bytes-IsByte 4 (length samples))
            (encoded_samples-IsByte samples)))
        (omega arith) (omega (arith, h))

  pub hash_at : subspan (artifact key hash samples) 16 (length hash) ≡ hash
  unfolding artifact le_bytes
  hash_at = take-length hash _

  pub count_at : length samples < 2 ^ 32 → read_u32 (artifact key hash samples) 48 ≡ length samples
  unfolding read_u32
  count_at h =
      ap (join_bytes 32 4) tail_at
      ∙ join_bytes-at 32 4 (length samples) _ (encoded_samples-IsByte samples) (omega arith)
          (omega (arith, h))

  pub artifact_size : length (artifact key hash samples) ≡ header_bytes + length samples * 8
  unfolding artifact
  artifact_size = omega (
    arith,
    digest,
    length-append (le_bytes 8 key.encoded)
        (hash ++ (le_bytes 4 (length samples) ++ encoded_samples samples)),
    length-append hash (le_bytes 4 (length samples) ++ encoded_samples samples),
    length-append (le_bytes 4 (length samples)) (encoded_samples samples),
    length-le_bytes 8 key.encoded,
    length-le_bytes 4 (length samples),
    length-encoded_samples samples,
  )

not_below : (a b : ℕ) → b ≤ a → ltb a b ≡ false
not_below a b h = ground arith

module _ (key : LunarTileKey) (hash : Bytes) (samples : List ℕ) (digest : length hash ≡ 32) where
  pub header_at : bad_header (artifact key hash samples) ≡ false
  unfolding bad_header artifact read_u16 bytes_eq
  header_at =
      let large : ltb (length (artifact key hash samples)) header_bytes ≡ false =
        not_below _ _ (omega (arith, artifact_size key hash samples digest)) in
      rw large refl

  pub samples_at :
      (path : String)
      → All IsSample samples
      → load_samples (artifact key hash samples) path key (length samples) 0 ≡ success samples
  unfolding artifact
  samples_at path finite =
      let count = le_bytes 4 (length samples) in
      let prefix = ((front ++ le_bytes 8 key.encoded) ++ hash) ++ count in
      load_samples-encoded (artifact key hash samples) path key samples prefix 0
        (sym (regroup front (le_bytes 8 key.encoded) hash count (encoded_samples samples)))
        (omega (
          arith,
          digest,
          length-append ((front ++ le_bytes 8 key.encoded) ++ hash) count,
          length-append (front ++ le_bytes 8 key.encoded) hash,
          length-append front (le_bytes 8 key.encoded),
          length-le_bytes 8 key.encoded,
          length-le_bytes 4 (length samples),
        ))
        finite
