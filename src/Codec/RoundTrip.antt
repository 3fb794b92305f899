-- ===== src/Codec/RoundTrip.antt =====
-- The decoder of src/core/codec.cpp on the output of the encoder.
use lunar_terrain_builder.Base.{
  ℕ, zero, suc, ◌+◌, ◌-◌, ◌*◌, ◌/◌, ◌%◌, ◌^◌, ◌<◌, ◌≡◌, ◌∙◌, refl, sym, ap, ap₂, arith, List, [],
  ◌∷◌, ◌++◌, length, get_or, set, replicate, length-append, length-set, length-replicate, IsU64,
  All, u16, u32, u64, u64_max, ltb, ◌==◌, ◌/=◌, false,
}
use lunar_terrain_builder.Base.Loops.{for_up, for_grid_inv}
use lunar_terrain_builder.Error.{success}
use lunar_terrain_builder.Error.Loops.{try_up, Ends, try_grid_inv}
use lunar_terrain_builder.ByteIo.{Bytes, checked_multiply, read_u16}
use lunar_terrain_builder.ByteIo.Checked.{checked_multiply-fits}
use lunar_terrain_builder.ByteWriter.{append_u16}
use lunar_terrain_builder.ByteIo.Little.{le_bytes}
use lunar_terrain_builder.ByteWriter.Laws.{reader, append_u16-le}
use lunar_terrain_builder.Codec.{
  predicted, decode_sample, reverse_delta2d_u16, serialized_elevation_samples, residual_of,
  delta2d_u16, u16_samples_to_bytes,
}
use lunar_terrain_builder.Codec.Packed.{
  pack, length-pack, pack-append, pack-one, u16_samples_to_bytes-pack, read_u16-pack, get_or_ext,
  get_or-set_self, get_or-set_ne, stored-pack,
}
use native.Mathlib.Decide.{dec_lt}
use native.Mathlib.Nat.{div-eq_of_lt-le, div-add-mod', mul-le-mul_right}

-- The list of the first `n` values of a function.
tabulate : (ℕ → ℕ) → ℕ → List ℕ
tabulate f zero = []
tabulate f (suc n) = tabulate f n ++ f n ∷ []

pack-tabulate :
    (f : ℕ → ℕ) (n : ℕ) → pack (tabulate f (suc n)) ≡ pack (tabulate f n) ++ le_bytes 2 (f n)
unfolding tabulate
pack-tabulate f n =
    pack-append (tabulate f n) (f n ∷ [])
    ∙ ap (λ (t : Bytes). pack (tabulate f n) ++ t) (pack-one (f n))

length-tabulate : (f : ℕ → ℕ) (n : ℕ) → length (tabulate f n) ≡ n
unfolding tabulate
length-tabulate f zero = refl
length-tabulate f (suc n) =
    omega (arith, length-append (tabulate f n) (f n ∷ []), length-tabulate f n)

get_or-append_left :
    (us vs : List ℕ) (i : ℕ) → i < length us → get_or (us ++ vs) i 0 ≡ get_or us i 0
get_or-append_left [] vs i h = absurd (omega arith)
get_or-append_left (u ∷ us) vs zero h = refl
get_or-append_left (u ∷ us) vs (suc i) h = get_or-append_left us vs i (omega arith)

get_or-append_length : (us : List ℕ) (v : ℕ) → get_or (us ++ v ∷ []) (length us) 0 ≡ v
get_or-append_length [] v = refl
get_or-append_length (u ∷ us) v = get_or-append_length us v

get_or-tabulate : (f : ℕ → ℕ) (n i : ℕ) → i < n → get_or (tabulate f n) i 0 ≡ f i
unfolding tabulate
get_or-tabulate f zero i h = absurd (omega arith)
get_or-tabulate f (suc n) i h = elim (dec_lt i n) [
  | yes old ↦
      get_or-append_left (tabulate f n) (f n ∷ []) i (omega (arith, length-tabulate f n))
      ∙ get_or-tabulate f n i old
  | no new ↦
      let e : i ≡ length (tabulate f n) = omega (arith, length-tabulate f n) in
      let last : n ≡ i = omega arith in
      rw e (get_or-append_length (tabulate f n) (f n) ∙ ap f (last ∙ e))
]

-- The row and the column of a cell come back from its index.
cell : (w y x : ℕ) → x < w → ((y * w + x) / w ≡ y) × ((y * w + x) % w ≡ x)
cell w y x h =
    let row : (y * w + x) / w ≡ y = div-eq_of_lt-le w {m = y * w + x} (omega arith) (omega arith) in
    (row, omega (arith, div-add-mod' (y * w + x) w, ap (λ (t : ℕ). t * w) row))

-- The prediction reads only samples before its own.
predicted_before :
    (as' bs : List ℕ) (w y x index : ℕ)
    → x < w
    → index ≡ y * w + x
    → ((i : ℕ) → i < index → get_or as' i 0 ≡ get_or bs i 0)
    → predicted as' w y x index ≡ predicted bs w y x index
unfolding predicted
predicted_before as' bs w zero zero index h e same = refl
predicted_before as' bs w zero (suc x) index h e same =
    ground (arith, same (index - 1) (omega arith))
predicted_before as' bs w (suc y) zero index h e same =
    ground (arith, same (index - w) (omega arith))
predicted_before as' bs w (suc y) (suc x) index h e same = ground (
  arith,
  same (index - 1) (omega arith),
  same (index - w) (omega arith),
  same (index - w - 1) (omega arith),
)

predicted-lt :
    (as' : List ℕ) (w y x index : ℕ)
    → ((i : ℕ) → get_or as' i 0 < 2 ^ 16)
    → predicted as' w y x index < 2 ^ 16
unfolding predicted
predicted-lt as' w y x index small = ground (arith, small (index - 1), small (index - w))

module _ (samples : List ℕ) (w h : ℕ) (small : (i : ℕ) → get_or samples i 0 < 2 ^ 16)
    (whole : length samples ≡ h * w) (fits : IsU64 (h * w * 2)) where
  residual_at : ℕ → ℕ
  residual_at i = residual_of samples w (i / w) (i % w)

  residual_at-cell : (y x : ℕ) → x < w → residual_at (y * w + x) ≡ residual_of samples w y x
  unfolding residual_at
  residual_at-cell y x hx = rw ((cell w y x hx).0, (cell w y x hx).1)

  abbrev encoded : Bytes
  encoded =
      for_up h (λ y. for_up w (λ x residuals. append_u16 residuals (residual_of samples w y x))) []

  encoded-pack : encoded ≡ pack (tabulate residual_at (h * w))
  encoded-pack =
      for_grid_inv (λ i bytes. bytes ≡ pack (tabulate residual_at i)) w
        (λ y x residuals. append_u16 residuals (residual_of samples w y x)) h step []
        (unfold pack tabulate in refl)
    where
      step :
          (y x : ℕ) (bytes : Bytes)
          → y < h
          → x < w
          → bytes ≡ pack (tabulate residual_at (y * w + x))
          → append_u16 bytes (residual_of samples w y x)
            ≡ pack (tabulate residual_at (y * w + suc x))
      step y x bytes hy hx e =
          let next : y * w + suc x ≡ suc (y * w + x) = omega arith in
          append_u16-le bytes (residual_of samples w y x)
          ∙ ap₂ ◌++◌ e (ap (le_bytes 2) (sym (residual_at-cell y x hx)))
          ∙ sym (pack-tabulate residual_at (y * w + x))
          ∙ ap (λ (n : ℕ). pack (tabulate residual_at n)) (sym next)

  -- The samples below `i` are decoded.
  record IsDecoded (i : ℕ) (arr : List ℕ) : Type 0 where
    same_length : length arr ≡ h * w
    same : (j : ℕ) → j < i → get_or arr j 0 ≡ get_or samples j 0

  decode_sample-IsDecoded :
      (y x : ℕ) (arr : List ℕ)
      → y < h
      → x < w
      → IsDecoded (y * w + x) arr
      → Ends
          (IsDecoded (y * w + suc x))
          (decode_sample (reader (pack (tabulate residual_at (h * w)))) w y x arr)
  unfolding decode_sample
  decode_sample-IsDecoded y x arr hy hx d = (
    set arr index (get_or samples index 0),
    rw (index_fits, offset_fits, read, prediction, restored) refl,
    record {
      same_length = omega (arith, length-set arr index (get_or samples index 0), d.same_length);
      same = λ j hj. elim (dec_lt j index) [
        | yes old ↦ get_or-set_ne arr index j _ old ∙ d.same j old
        | no new ↦
            let e : j ≡ index = omega arith in
            rw e (get_or-set_self arr index _ (omega (arith, inside, d.same_length)))
      ];
    },
  )
    where
      index : ℕ
      index = y * w + x

      inside : index < h * w
      inside = omega (arith, mul-le-mul_right w hy)

      index_fits : u64 (y * w + x) ≡ y * w + x
      index_fits = omega (arith, inside)

      offset_fits : u64 ((y * w + x) * 2) ≡ (y * w + x) * 2
      offset_fits = omega (arith, inside)

      found : get_or (tabulate residual_at (h * w)) index 0 ≡ residual_of samples w y x
      found = get_or-tabulate residual_at (h * w) index inside ∙ residual_at-cell y x hx

      read :
          read_u16 (reader (pack (tabulate residual_at (h * w)))) ((y * w + x) * 2)
          ≡ success (residual_of samples w y x)
      read =
          read_u16-pack (tabulate residual_at (h * w)) index
            (omega (arith, inside, length-tabulate residual_at (h * w)))
            (omega (arith, length-tabulate residual_at (h * w))) (omega (arith, found))
          ∙ ap success found

      prediction : predicted arr w y x (y * w + x) ≡ predicted samples w y x (y * w + x)
      prediction = predicted_before arr samples w y x index hx refl d.same

      restored :
          u16 (u32 (predicted samples w y x (y * w + x) + residual_of samples w y x))
          ≡ get_or samples (y * w + x) 0
      restored = omega (arith, small index, predicted-lt samples w y x index small)

  decoded-success :
      Ends
        (λ arr. arr ≡ samples)
        (try_up h
          (λ y. try_up w (decode_sample (reader (pack (tabulate residual_at (h * w)))) w y))
          (replicate (h * w) 0))
  decoded-success =
      let (arr, e, d) =
        try_grid_inv IsDecoded w (decode_sample (reader (pack (tabulate residual_at (h * w)))) w) h
          decode_sample-IsDecoded (replicate (h * w) 0)
          (record {
            same_length = length-replicate (h * w) 0;
            same = λ j hj. absurd (omega arith);
          }) in
      (
        arr,
        e,
        get_or_ext arr samples (d.same_length ∙ sym whole)
            (λ i hi. d.same i (omega (arith, whole))),
      )

  reverse_delta2d_u16-encoded :
      0 < w → 0 < h → reverse_delta2d_u16 encoded w h ≡ success (u16_samples_to_bytes samples)
  unfolding reverse_delta2d_u16
  reverse_delta2d_u16-encoded hw hh =
      let (arr, e, same) = decoded-success in
      let size : w * h ≡ h * w = omega arith in
      let wide : (w == 0) ≡ false = ground arith in
      let tall : (h == 0) ≡ false = ground arith in
      let required : ((h * w * 2) /= length (pack (tabulate residual_at (h * w)))) ≡ false =
        ground (
          arith,
          length-pack (tabulate residual_at (h * w)),
          length-tabulate residual_at (h * w),
        ) in
      let bounded : ltb u64_max (h * w * 2) ≡ false = ground arith in
      let product : checked_multiply w h ≡ success (h * w) =
        checked_multiply-fits w h (omega (arith, mul-le-mul_right w hh))
          (omega (arith, size, mul-le-mul_right h hw)) (omega arith)
        ∙ ap success size in
      let bytes : checked_multiply (h * w) 2 ≡ success (h * w * 2) =
        checked_multiply-fits (h * w) 2 (omega arith) (omega arith) (omega arith) in
      rw (encoded-pack, wide, tall, product, bytes, required, bounded, e, same, ← whole)
        (ap success (stored-pack samples ∙ sym (u16_samples_to_bytes-pack samples)))

pub get_or-All : (P : ℕ → Type 0) (vs : List ℕ) → P 0 → All P vs → (i : ℕ) → P (get_or vs i 0)
get_or-All P [] zero_P all i = zero_P
get_or-All P (v ∷ vs) zero_P all zero = all.0
get_or-All P (v ∷ vs) zero_P all (suc i) = get_or-All P vs zero_P all.1 i

-- For 259 × 259 samples of 16 bits, `reverse_delta2d_u16` on the output of `delta2d_u16` succeeds
-- and returns the bytes that `u16_samples_to_bytes` gives for the samples.
pub delta2d_u16-reversed :
    (samples : List ℕ)
    → length samples ≡ serialized_elevation_samples * serialized_elevation_samples
    → All (λ (v : ℕ). v < 2 ^ 16) samples
    → reverse_delta2d_u16
        (delta2d_u16 samples)
        serialized_elevation_samples
        serialized_elevation_samples
      ≡ success (u16_samples_to_bytes samples)
unfolding delta2d_u16
delta2d_u16-reversed samples whole small =
    reverse_delta2d_u16-encoded samples serialized_elevation_samples serialized_elevation_samples
      (get_or-All (λ (v : ℕ). v < 2 ^ 16) samples (omega arith) small) whole (omega arith)
      (omega arith) (omega arith)
