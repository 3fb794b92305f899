-- ===== src/TileKey/Text/Decimal.antt =====
-- Decimal numerals: `decimal` and `parse_decimal`.
use lunar_terrain_builder.Base.{
  ℕ, zero, suc, ◌+◌, ◌-◌, ◌*◌, ◌/◌, ◌%◌, ◌^◌, ◌≤◌, ◌<◌, ◌≡◌, ◌∙◌, refl, ap, arith, Bool-cases, inl,
  inr, none, some, List, [], ◌∷◌, ◌++◌, length, replicate, length-append, length-replicate, All,
  ltb, max,
}
use native.Mathlib.Nat.{pow-suc}
use lunar_terrain_builder.TileKey.Text.{
  Bytes, is_digit, digits_run, from_chars, parse_decimal, decimal_digits, decimal, padded,
  find_slash,
}

abbrev pub IsDigit : ℕ → Type 0
IsDigit c = (b'0' ≤ c) × (c ≤ b'9')

-- The number that a numeral stands for, after the digits read so far.
pub value : ℕ → Bytes → ℕ
value acc [] = acc
value acc (c ∷ cs) = value (acc * 10 + (c - b'0')) cs

pub All-append {ℓ κ} :
    {A : Type ℓ} (P : A → Type κ) (xs ys : List A) → All P xs → All P ys → All P (xs ++ ys)
All-append P [] ys hx hy = hy
All-append P (a ∷ xs) ys hx hy = (hx.0, All-append P xs ys hx.1 hy)

value-append : (acc : ℕ) (xs ys : Bytes) → value acc (xs ++ ys) ≡ value (value acc xs) ys
unfolding value
value-append acc [] ys = refl
value-append acc (c ∷ xs) ys = value-append (acc * 10 + (c - b'0')) xs ys

digits_run-value : (acc : ℕ) (ds : Bytes) → All IsDigit ds → digits_run acc ds ≡ (value acc ds, [])
unfolding digits_run is_digit value
digits_run-value acc [] h = refl
digits_run-value acc (c ∷ cs) h = ground (arith, digits_run-value (acc * 10 + (c - b'0')) cs h.1)

decimal_digits-IsDigit : (fuel n : ℕ) → All IsDigit (decimal_digits fuel n)
unfolding decimal_digits
decimal_digits-IsDigit zero n = tt
decimal_digits-IsDigit (suc fuel) n = elim (Bool-cases (ltb n 10)) [
  | inl small ↦ rw small ((omega arith, ground arith), tt)
  | inr large ↦ rw large (
      All-append IsDigit _ _ (decimal_digits-IsDigit fuel (n / 10))
        ((omega arith, omega arith), tt))
]

value-one : (acc c : ℕ) → value acc (c ∷ []) ≡ acc * 10 + (c - b'0')
unfolding value
value-one acc c = refl

value-decimal_digits : (fuel n : ℕ) → n < 10 ^ fuel → value 0 (decimal_digits fuel n) ≡ n
unfolding decimal_digits
value-decimal_digits zero n h = unfold value in omega arith
value-decimal_digits (suc fuel) n h = elim (Bool-cases (ltb n 10)) [
  | inl small ↦ rw (small, value-one) (ground arith)
  | inr large ↦
      rw (large, value-append 0 (decimal_digits fuel (n / 10)) _)
        (omega (
          arith,
          value-one (value 0 (decimal_digits fuel (n / 10))) (b'0' + n % 10),
          value-decimal_digits fuel (n / 10) (omega (arith, pow-suc 10 fuel)),
        ))
]

value-zeros : (n : ℕ) → value 0 (replicate n b'0') ≡ 0
unfolding value
value-zeros zero = refl
value-zeros (suc n) = value-zeros n

zeros-IsDigit : (n : ℕ) → All IsDigit (replicate n b'0')
zeros-IsDigit zero = tt
zeros-IsDigit (suc n) = ((omega arith, omega arith), zeros-IsDigit n)

pub value-padded : (w : ℕ) (ds : Bytes) → value 0 (padded w ds) ≡ value 0 ds
unfolding padded
value-padded w ds =
    value-append 0 (replicate (w - length ds) b'0') ds
    ∙ ap (λ (a : ℕ). value a ds) (value-zeros (w - length ds))

pub padded-IsDigit : (w : ℕ) (ds : Bytes) → All IsDigit ds → All IsDigit (padded w ds)
unfolding padded
padded-IsDigit w ds h = All-append IsDigit _ ds (zeros-IsDigit (w - length ds)) h

pub length-padded : (w : ℕ) (ds : Bytes) → length (padded w ds) ≡ max w (length ds)
unfolding padded
length-padded w ds = omega (
  arith,
  length-append (replicate (w - length ds) b'0') ds,
  length-replicate {A = ℕ} (w - length ds) b'0',
)

pub decimal-IsDigit : (n : ℕ) → All IsDigit (decimal n)
unfolding decimal
decimal-IsDigit n = decimal_digits-IsDigit 20 n

pub value-decimal : (n : ℕ) → n < 2 ^ 64 → value 0 (decimal n) ≡ n
unfolding decimal
value-decimal n h = value-decimal_digits 20 n (omega arith)

length-decimal_digits : (k fuel n : ℕ) → n < 10 ^ suc k → length (decimal_digits fuel n) ≤ suc k
unfolding decimal_digits
length-decimal_digits k zero n h = omega arith
length-decimal_digits zero (suc fuel) n h = ground arith
length-decimal_digits (suc k) (suc fuel) n h = ground (
  arith,
  pow-suc 10 (suc k),
  length-append (decimal_digits fuel (n / 10)) ((b'0' + n % 10) ∷ []),
  length-decimal_digits k fuel (n / 10),
)

-- A number below 10 ^ (k + 1) takes at most k + 1 digits.
pub length-decimal : (k n : ℕ) → n < 10 ^ suc k → length (decimal n) ≤ suc k
unfolding decimal
length-decimal k n h = length-decimal_digits k 20 n h

decimal_digits_pos : (fuel n : ℕ) → 0 < length (decimal_digits (suc fuel) n)
unfolding decimal_digits
decimal_digits_pos fuel n =
    ground (arith, length-append (decimal_digits fuel (n / 10)) ((b'0' + n % 10) ∷ []))

pub decimal_pos : (n : ℕ) → 0 < length (decimal n)
unfolding decimal
decimal_pos n = decimal_digits_pos 19 n

-- A numeral within 32 bits is read whole.
pub parse_decimal-value :
    (ds : Bytes)
    → All IsDigit ds
    → 0 < length ds
    → value 0 ds < 2 ^ 32
    → parse_decimal ds ≡ some (value 0 ds)
unfolding parse_decimal from_chars is_digit
parse_decimal-value [] h pos fits = absurd (omega arith)
parse_decimal-value (c ∷ cs) h pos fits = ground (arith, digits_run-value 0 (c ∷ cs) h)

pub find_slash-digits :
    (ds rest : Bytes) → All IsDigit ds → find_slash (ds ++ (b'/' ∷ rest)) ≡ some (ds, rest)
unfolding find_slash
find_slash-digits [] rest h = refl
find_slash-digits (c ∷ cs) rest h = ground (arith, find_slash-digits cs rest h.1)

pub find_slash-none : (ds : Bytes) → All IsDigit ds → find_slash ds ≡ none
unfolding find_slash
find_slash-none [] h = refl
find_slash-none (c ∷ cs) h = ground (arith, find_slash-none cs h.1)
