-- ===== src/Codec/Packed.antt =====
-- Buffers of 16-bit samples, two bytes each.
use lunar_terrain_builder.Base.{
  ℕ, zero, suc, ◌+◌, ◌*◌, ◌/◌, ◌%◌, ◌^◌, ◌<◌, ◌≡◌, ◌∙◌, refl, sym, ap, ap₂, arith, List, [], ◌∷◌,
  ◌++◌, length, get_or, set, take, drop, replicate, length-append, length-set, length-replicate,
  IsU64, u8, bit_and,
}
use lunar_terrain_builder.Base.Bits.{bit_and-mask}
use lunar_terrain_builder.Base.Loops.{for_up, for_up_inv}
use lunar_terrain_builder.Error.{success}
use lunar_terrain_builder.ByteIo.{Bytes, read_u16}
use lunar_terrain_builder.ByteIo.Little.{le_bytes, length-le_bytes}
use lunar_terrain_builder.ByteIo.Reader.{read_u16-le_bytes}
use lunar_terrain_builder.ByteWriter.{append_u16}
use lunar_terrain_builder.ByteWriter.Laws.{reader, append_u16-le}
use lunar_terrain_builder.Codec.{store_sample, append_samples, u16_samples_to_bytes}
use mathlib.Core.List.{append-nil, append_assoc}
use native.Mathlib.Decide.{dec_lt, ℕ_discrete}

unfoldable pub pack : List ℕ → Bytes
pack [] = []
pack (v ∷ vs) = le_bytes 2 v ++ pack vs

pub length-pack : (vs : List ℕ) → length (pack vs) ≡ length vs * 2
unfolding pack
length-pack [] = refl
length-pack (v ∷ vs) =
    omega (arith, length-append (le_bytes 2 v) (pack vs), length-le_bytes 2 v, length-pack vs)

pub pack-append : (us vs : List ℕ) → pack (us ++ vs) ≡ pack us ++ pack vs
unfolding pack
pack-append [] vs = refl
pack-append (u ∷ us) vs =
    rw (pack-append us vs) (sym (append_assoc (le_bytes 2 u) (pack us) (pack vs)))

pub pack-one : (v : ℕ) → pack (v ∷ []) ≡ le_bytes 2 v
unfolding pack
pack-one v = append-nil (le_bytes 2 v)

append_samples-pack : (bytes : Bytes) (vs : List ℕ) → append_samples bytes vs ≡ bytes ++ pack vs
unfolding append_samples pack
append_samples-pack bytes [] = sym (append-nil bytes)
append_samples-pack bytes (v ∷ vs) =
    append_samples-pack (append_u16 bytes v) vs
    ∙ rw (append_u16-le bytes v) (append_assoc bytes (le_bytes 2 v) (pack vs))

pub u16_samples_to_bytes-pack : (vs : List ℕ) → u16_samples_to_bytes vs ≡ pack vs
unfolding u16_samples_to_bytes
u16_samples_to_bytes-pack vs = append_samples-pack [] vs

split_at :
    (vs : List ℕ) (i : ℕ) → i < length vs → vs ≡ take i vs ++ (get_or vs i 0 ∷ drop (suc i) vs)
split_at [] i h = absurd (omega arith)
split_at (v ∷ vs) zero h = refl
split_at (v ∷ vs) (suc i) h = ap (◌∷◌ v) (split_at vs i (omega arith))

length-take-lt : (vs : List ℕ) (i : ℕ) → i < length vs → length (take i vs) ≡ i
length-take-lt [] i h = absurd (omega arith)
length-take-lt (v ∷ vs) zero h = refl
length-take-lt (v ∷ vs) (suc i) h = ap suc (length-take-lt vs i (omega arith))

-- Sample `i` of a packed buffer is read at byte `2 * i`.
pub read_u16-pack :
    (vs : List ℕ) (i : ℕ)
    → i < length vs
    → IsU64 (length vs * 2)
    → get_or vs i 0 < 2 ^ 16
    → read_u16 (reader (pack vs)) (i * 2) ≡ success (get_or vs i 0)
unfolding pack
read_u16-pack vs i h fits hv =
    let parts : pack vs
        ≡ pack (take i vs) ++ (le_bytes 2 (get_or vs i 0) ++ pack (drop (suc i) vs)) =
      ap pack (split_at vs i h) ∙ pack-append (take i vs) (get_or vs i 0 ∷ drop (suc i) vs) in
    let place : length (pack (take i vs)) ≡ i * 2 =
      omega (arith, length-pack (take i vs), length-take-lt vs i h) in
    let small : IsU64
        (length (pack (take i vs) ++ (le_bytes 2 (get_or vs i 0) ++ pack (drop (suc i) vs)))) =
      rw (← parts) (omega (arith, length-pack vs)) in
    rw (parts, ← place)
      (read_u16-le_bytes (pack (take i vs)) (pack (drop (suc i) vs)) 0 (get_or vs i 0) small hv)

-- Two lists of one length with the same elements are equal.
pub get_or_ext :
    (us vs : List ℕ)
    → length us ≡ length vs
    → ((i : ℕ) → i < length vs → get_or us i 0 ≡ get_or vs i 0)
    → us ≡ vs
get_or_ext [] [] e h = refl
get_or_ext [] (v ∷ vs) e h = absurd (omega arith)
get_or_ext (u ∷ us) [] e h = absurd (omega arith)
get_or_ext (u ∷ us) (v ∷ vs) e h =
    ap₂ ◌∷◌ (h 0 (omega arith)) (get_or_ext us vs (omega arith) (λ i lt. h (suc i) (omega arith)))

pub get_or-set_self : (vs : List ℕ) (i v : ℕ) → i < length vs → get_or (set vs i v) i 0 ≡ v
get_or-set_self [] i v h = absurd (omega arith)
get_or-set_self (w ∷ vs) zero v h = refl
get_or-set_self (w ∷ vs) (suc i) v h = get_or-set_self vs i v (omega arith)

pub get_or-set_ne : (vs : List ℕ) (i j v : ℕ) → j < i → get_or (set vs i v) j 0 ≡ get_or vs j 0
get_or-set_ne [] i j v h = refl
get_or-set_ne (w ∷ vs) zero j v h = absurd (omega arith)
get_or-set_ne (w ∷ vs) (suc i) zero v h = refl
get_or-set_ne (w ∷ vs) (suc i) (suc j) v h = get_or-set_ne vs i j v (omega arith)

get_or-pack :
    (vs : List ℕ) (i : ℕ)
    → i < length vs
    → (get_or (pack vs) (i * 2) 0 ≡ get_or vs i 0 % 256)
      × (get_or (pack vs) (i * 2 + 1) 0 ≡ get_or vs i 0 / 256 % 256)
unfolding pack le_bytes
get_or-pack [] i h = absurd (omega arith)
get_or-pack (v ∷ vs) zero h = (refl, refl)
get_or-pack (v ∷ vs) (suc i) h =
    let e : suc i * 2 ≡ suc (suc (i * 2)) = omega arith in
    let f : suc (suc (i * 2)) + 1 ≡ suc (suc (i * 2 + 1)) = omega arith in
    rw e (rw f (get_or-pack vs i (omega arith)))

-- The bytes below `2 * i` are in place.
record IsStored (vs : List ℕ) (i : ℕ) (d : Bytes) : Type 0 where
  same_length : length d ≡ length vs * 2
  stored : (k : ℕ) → k < i * 2 → get_or d k 0 ≡ get_or (pack vs) k 0

store_sample-IsStored :
    (vs : List ℕ) (i : ℕ) (d : Bytes)
    → i < length vs
    → IsStored vs i d
    → IsStored vs (suc i) (store_sample vs i d)
store_sample-IsStored vs i d lt s = record {
  same_length =
      omega (arith, length-set first (i * 2 + 1) high, length-set d (i * 2) low, s.same_length);
  stored = λ k hk. elim (dec_lt k (i * 2)) [
    | yes old ↦
        get_or-set_ne first (i * 2 + 1) k high (omega arith)
        ∙ get_or-set_ne d (i * 2) k low old
        ∙ s.stored k old
    | no new ↦ elim (ℕ_discrete k (i * 2)) [
      | yes even ↦ rw even (
          get_or-set_ne first (i * 2 + 1) (i * 2) high (omega arith)
          ∙ get_or-set_self d (i * 2) low (omega (arith, s.same_length))
          ∙ low_byte
          ∙ sym (get_or-pack vs i lt).0)
      | no odd ↦
          let e : k ≡ i * 2 + 1 = omega arith in
          rw e (
            get_or-set_self first (i * 2 + 1) high
              (omega (arith, length-set d (i * 2) low, s.same_length))
            ∙ omega arith
            ∙ sym (get_or-pack vs i lt).1)
    ]
  ];
}
  where
    low : ℕ
    low = u8 (bit_and (get_or vs i 0) 0xFF)

    high : ℕ
    high = u8 (get_or vs i 0 / 2 ^ 8)

    first : Bytes
    first = set d (i * 2) low

    low_byte : low ≡ get_or vs i 0 % 256
    low_byte = omega (arith, bit_and-mask 8 (get_or vs i 0))

-- The decoder's last loop writes the packed samples.
pub stored-pack :
    (vs : List ℕ) → for_up (length vs) (store_sample vs) (replicate (length vs * 2) 0) ≡ pack vs
stored-pack vs =
    get_or_ext _ (pack vs) (end'.same_length ∙ sym (length-pack vs))
      (λ k h. end'.stored k (omega (arith, h, length-pack vs)))
  where
    end' :
        IsStored vs (length vs) (for_up (length vs) (store_sample vs) (replicate (length vs * 2) 0))
    end' =
        for_up_inv (IsStored vs) (length vs) (store_sample vs) (store_sample-IsStored vs) _
          (record {
            same_length = length-replicate (length vs * 2) 0;
            stored = λ k h. absurd (omega arith);
          })
