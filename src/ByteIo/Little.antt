-- ===== src/ByteIo/Little.antt =====
-- Little-endian numerals: the value of a list of bytes, and the bytes of a value.
use lunar_terrain_builder.Base.{
  ℕ, zero, suc, ◌+◌, ◌*◌, ◌/◌, ◌%◌, ◌^◌, ◌≤◌, ◌<◌, ◌≡◌, ◌∙◌, refl, sym, ap, arith, [], ◌∷◌, length,
  get_or, take, All, IsByte,
}
use lunar_terrain_builder.Base.Bits.{bit_or-shifted}
use lunar_terrain_builder.ByteIo.{Bytes, join_u16, join_bytes}
use native.Mathlib.Nat.{pow-suc, one-le-pow, mod-eq_of_lt, pow-le-pow_right, mul-le-mul_right}

pub le_value : Bytes → ℕ
le_value [] = 0
le_value (b ∷ bs) = b + 256 * le_value bs

unfoldable pub le_bytes : ℕ → ℕ → Bytes
le_bytes zero v = []
le_bytes (suc n) v = v % 256 ∷ le_bytes n (v / 256)

pub length-le_bytes : (n v : ℕ) → length (le_bytes n v) ≡ n
unfolding le_bytes
length-le_bytes zero v = refl
length-le_bytes (suc n) v = ap suc (length-le_bytes n (v / 256))

pub le_bytes-IsByte : (n v : ℕ) → All IsByte (le_bytes n v)
unfolding le_bytes
le_bytes-IsByte zero v = tt
le_bytes-IsByte (suc n) v = (omega arith, le_bytes-IsByte n (v / 256))

pub le_value-le_bytes : (n v : ℕ) → v < 256 ^ n → le_value (le_bytes n v) ≡ v
unfolding le_value le_bytes
le_value-le_bytes zero v h = omega arith
le_value-le_bytes (suc n) v h =
    omega (arith, pow-suc 256 n, le_value-le_bytes n (v / 256) (omega (arith, pow-suc 256 n)))

pub le_value-lt : (bs : Bytes) → All IsByte bs → le_value bs < 256 ^ length bs
unfolding le_value
le_value-lt [] h = omega arith
le_value-lt (b ∷ bs) h = omega (arith, pow-suc 256 (length bs), le_value-lt bs h.1)

pub pow-bytes : (n : ℕ) → 2 ^ (n * 8) ≡ 256 ^ n
pow-bytes zero = refl
pow-bytes (suc n) =
    let e : suc n * 8 ≡ suc (suc (suc (suc (suc (suc (suc (suc (n * 8)))))))) = omega arith in
    rw e (
      omega (
        arith,
        pow-suc 256 n,
        pow-bytes n,
        pow-suc 2 (n * 8),
        pow-suc 2 (n * 8 + 1),
        pow-suc 2 (n * 8 + 2),
        pow-suc 2 (n * 8 + 3),
        pow-suc 2 (n * 8 + 4),
        pow-suc 2 (n * 8 + 5),
        pow-suc 2 (n * 8 + 6),
        pow-suc 2 (n * 8 + 7),
      ))

take-IsByte : (n : ℕ) (bs : Bytes) → All IsByte bs → All IsByte (take n bs)
take-IsByte zero bs h = tt
take-IsByte (suc n) [] h = tt
take-IsByte (suc n) (b ∷ bs) h = (h.0, take-IsByte n bs h.1)

get_or-IsByte : (i : ℕ) (bs : Bytes) → All IsByte bs → get_or bs i 0 < 256
get_or-IsByte i [] h = omega arith
get_or-IsByte zero (b ∷ bs) h = h.0
get_or-IsByte (suc i) (b ∷ bs) h = get_or-IsByte i bs h.1

-- The next byte enters above the bytes read so far.
le_value-take :
    (i : ℕ) (bs : Bytes)
    → le_value (take (suc i) bs) ≡ le_value (take i bs) + get_or bs i 0 * 2 ^ (i * 8)
unfolding le_value
le_value-take zero [] = omega arith
le_value-take (suc i) [] = omega arith
le_value-take zero (b ∷ bs) = omega arith
le_value-take (suc i) (b ∷ bs) = omega (
  arith,
  ap (λ (t : ℕ). get_or bs i 0 * t) (pow-bytes i),
  ap (λ (t : ℕ). get_or bs i 0 * t) (pow-bytes (suc i) ∙ pow-suc 256 i),
  le_value-take i bs,
)

le_value-take-lt : (i : ℕ) (bs : Bytes) → All IsByte bs → le_value (take i bs) < 2 ^ (i * 8)
le_value-take-lt zero bs h = unfold le_value in omega arith
le_value-take-lt (suc i) bs h = omega (
  arith,
  le_value-take i bs,
  le_value-take-lt i bs h,
  mul-le-mul_right (2 ^ (i * 8)) (get_or-IsByte i bs h),
  pow-bytes i,
  pow-bytes (suc i),
  pow-suc 256 i,
)

-- The byte loop of the readers, in a word that has room for the bytes.
pub join_bytes-le_value :
    (w n : ℕ) (bs : Bytes) → All IsByte bs → n * 8 ≤ w → join_bytes w n bs ≡ le_value (take n bs)
join_bytes-le_value w zero bs h fits = unfold le_value in refl
join_bytes-le_value w (suc n) bs h fits =
    rw (join_bytes-le_value w n bs h (omega arith), room)
      (bit_or-shifted (n * 8) _ (get_or bs n 0) (le_value-take-lt n bs h)
        ∙ sym (le_value-take n bs))
  where
    top : 2 ^ (suc n * 8) ≤ 2 ^ w
    top = pow-le-pow_right (omega arith) {j = w} fits

    room : get_or bs n 0 * 2 ^ (n * 8) % 2 ^ w ≡ get_or bs n 0 * 2 ^ (n * 8)
    room = mod-eq_of_lt (
        omega (
          arith,
          top,
          mul-le-mul_right (2 ^ (n * 8)) (get_or-IsByte n bs h),
          pow-bytes n,
          pow-bytes (suc n),
          pow-suc 256 n,
          one-le-pow n 256,
        ))

le_value-none : (bs : Bytes) → le_value (take 0 bs) ≡ 0
unfolding le_value
le_value-none bs = refl

pub join_u16-le_value : (bs : Bytes) → All IsByte bs → join_u16 bs ≡ le_value (take 2 bs)
join_u16-le_value bs h =
    let low = get_or-IsByte 0 bs h in
    let high = get_or-IsByte 1 bs h in
    rw (bit_or-shifted 8 (get_or bs 0 0) (get_or bs 1 0) low)
      (omega (arith, low, high, le_value-take 1 bs, le_value-take 0 bs, le_value-none bs))
