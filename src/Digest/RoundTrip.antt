-- ===== src/Digest/RoundTrip.antt =====
-- The text form of a digest, read back and written again.
use lunar_terrain_builder.Base.{
  ℕ, ◌+◌, ◌-◌, ◌*◌, ◌/◌, ◌%◌, ◌^◌, ◌<◌, ◌≡◌, ◌∙◌, inl, inr, refl, sym, arith, ◌&&◌, Option, none,
  some, [], ◌∷◌, map, length, All, IsByte, leb, if◌then◌else◌, u8, bit_and, bit_or, Bool-cases,
  ◌/=◌, /=→eq,
}
use lunar_terrain_builder.Base.Bits.{bit_and-mask, shifted-bit_or}
use lunar_terrain_builder.Error.{success, failure, >>=-eq-success}
use lunar_terrain_builder.ByteIo.{Bytes}
use lunar_terrain_builder.Digest.{hex_digit, hex_value, to_hex, join_digits, read_pairs, from_hex}

-- The letters of hexadecimal digits in lower case.
pub lower : ℕ → ℕ
lower c = if leb b'A' c && leb c b'F' then c + 32 else c

hex_value-hex_digit : (n : ℕ) → n < 16 → hex_value (hex_digit n) ≡ some n
unfolding hex_value hex_digit
hex_value-hex_digit n h = ground arith

hex_value-lt : (c n : ℕ) → hex_value c ≡ some n → n < 16
unfolding hex_value
hex_value-lt c n h = ground arith

hex_digit-hex_value : (c n : ℕ) → hex_value c ≡ some n → hex_digit n ≡ lower c
unfolding hex_value hex_digit lower
hex_digit-hex_value c n h = ground arith

joined : (high low : ℕ) → high < 16 → low < 16 → u8 (bit_or (high * 2 ^ 4) low) ≡ high * 16 + low
joined high low h l = omega (arith, shifted-bit_or 4 low high l)

read_pairs-to_hex : (d : Bytes) → All IsByte d → read_pairs (to_hex d) ≡ success d
unfolding read_pairs to_hex join_digits
read_pairs-to_hex [] all = refl
read_pairs-to_hex (b ∷ rest) all =
    let mask : bit_and b 0x0F ≡ b % 16 = bit_and-mask 4 b in
    let high : hex_value (hex_digit (b / 2 ^ 4)) ≡ some (b / 2 ^ 4) =
      hex_value-hex_digit _ (omega (arith, all.0)) in
    let low : hex_value (hex_digit (b % 16)) ≡ some (b % 16) =
      hex_value-hex_digit _ (omega arith) in
    let whole : u8 (bit_or (b / 2 ^ 4 * 2 ^ 4) (b % 16)) ≡ b =
      omega (arith, joined (b / 2 ^ 4) (b % 16) (omega (arith, all.0)) (omega arith)) in
    rw (mask, high, low, whole, read_pairs-to_hex rest all.1) refl

length-to_hex : (d : Bytes) → length (to_hex d) ≡ 2 * length d
unfolding to_hex
length-to_hex [] = refl
length-to_hex (b ∷ rest) = omega (arith, length-to_hex rest)

-- `from_hex` reads the text of a digest of 32 bytes back.
pub from_hex-to_hex : (d : Bytes) → length d ≡ 32 → All IsByte d → from_hex (to_hex d) ≡ success d
unfolding from_hex
from_hex-to_hex d n all =
    let e : length (to_hex d) ≡ 64 = omega (arith, length-to_hex d) in
    rw e (read_pairs-to_hex d all)

join_digits-eq-success :
    (h l : Option ℕ) (b : ℕ)
    → join_digits h l ≡ success b
    → (high : ℕ) × (low : ℕ) × (h ≡ some high)
      × (l ≡ some low)
      × (u8 (bit_or (high * 2 ^ 4) low) ≡ b)
unfolding join_digits
join_digits-eq-success (some high) (some low) b e = (high, low, refl, refl, ground arith)
join_digits-eq-success (some high) none b e = cc
join_digits-eq-success none l b e = cc

-- What the loop returns, pair by pair.
read_pairs-eq-success :
    (text d : Bytes) (n : ℕ)
    → length text ≡ 2 * n
    → read_pairs text ≡ success d
    → (to_hex d ≡ map lower text) × (length d ≡ n) × All IsByte d
unfolding read_pairs to_hex
read_pairs-eq-success [] d n len h = let e : d ≡ [] = cc in rw e (refl, omega (arith, len), tt)
read_pairs-eq-success (high ∷ []) d n len h = absurd (omega arith)
read_pairs-eq-success (high ∷ (low ∷ rest)) d n len h =
    let (b, joins, more) = >>=-eq-success (join_digits (hex_value high) (hex_value low)) _ h in
    let (bytes, reads, whole) = >>=-eq-success (read_pairs rest) _ more in
    let (p, q, hp, hq, value) = join_digits-eq-success _ _ b joins in
    let (texts, count, all) = read_pairs-eq-success rest bytes (n - 1) (omega arith) reads in
    let e : d ≡ b ∷ bytes = cc in
    let hp' = hex_value-lt high p hp in
    let hq' = hex_value-lt low q hq in
    let sum : b ≡ p * 16 + q = sym value ∙ joined p q hp' hq' in
    let first : b / 2 ^ 4 ≡ p = omega arith in
    let second : bit_and b 0x0F ≡ q = bit_and-mask 4 b ∙ omega arith in
    rw e (
      rw (first, second, hex_digit-hex_value high p hp, hex_digit-hex_value low q hq, texts) refl,
      omega arith,
      (omega arith, all),
    )

-- Where `from_hex` succeeds the text has 64 characters, the digest has 32 bytes, and `to_hex` of it
-- is the text with the letters A to F in lower case.
pub from_hex-eq-success :
    (text d : Bytes)
    → from_hex text ≡ success d
    → (length text ≡ 64) × (length d ≡ 32) × All IsByte d × (to_hex d ≡ map lower text)
unfolding from_hex
from_hex-eq-success text d h = elim (Bool-cases (length text /= 64)) [
  | inl bad ↦ let refused : failure _ ≡ success d = rw bad at h in cc
  | inr good ↦
      let reads : read_pairs text ≡ success d = rw good at h in
      let len : length text ≡ 64 = /=→eq (length text) 64 good in
      let (texts, count, all) = read_pairs-eq-success text d 32 len reads in
      (len, count, all, texts)
]
