-- ===== src/Base/Bits.antt =====
-- `|` of disjoint bits and `&` with a mask, as arithmetic at every width.
use Prim.Native.Nat.{
  ℕ, zero, suc, ◌+◌, ◌-◌, ◌*◌, ◌/◌, ◌%◌, ◌^◌, ◌≤◌, ◌<◌, min, max, bit_and, bit_or, digits,
  bit_and-bitwise, bit_or-bitwise,
}
use mathlib.Core.Logic.{◌≢◌}
use mathlib.Core.Path.{◌≡◌, ◌∙◌, refl, sym, ap}
use native.Mathlib.Nat.{
  pow-suc, one-le-pow, mod-eq_of_lt, mod-lt, div-add-mod', div-lt_iff_lt-mul, div-div-eq-div-mul,
}
use lunar_terrain_builder.Base.Words.{complement64}
use native.Mathlib.Omega.{arith}

-- The recursion that the native operations stand for does not depend on its fuel.
module _ (rest : ℕ → ℕ) (digit : ℕ → ℕ → ℕ) where
  digits_enough : (k l a b : ℕ) → a ≤ k → a ≤ l → digits rest digit k a b ≡ digits rest digit l a b
  digits_enough zero zero zero b hk hl = refl
  digits_enough zero (suc l) zero b hk hl = refl
  digits_enough (suc k) zero zero b hk hl = refl
  digits_enough (suc k) (suc l) zero b hk hl = refl
  digits_enough zero l (suc a) b hk hl = absurd (omega arith)
  digits_enough (suc k) zero (suc a) b hk hl = absurd (omega arith)
  digits_enough (suc k) (suc l) (suc a) b hk hl =
      let same = digits_enough k l (suc a / 2) (b / 2) (omega arith) (omega arith) in rw same

-- One binary digit at a time.
pub bit_or_digit : (a b : ℕ) → bit_or a b ≡ 2 * bit_or (a / 2) (b / 2) + max (a % 2) (b % 2)
bit_or_digit zero b = omega (arith, bit_or-bitwise 0 b, bit_or-bitwise 0 (b / 2))
bit_or_digit (suc a) b = omega (
  arith,
  bit_or-bitwise (suc a) b,
  bit_or-bitwise (suc a / 2) (b / 2),
  digits_enough (λ y. y) max a (suc a / 2) (suc a / 2) (b / 2) (omega arith) (omega arith),
)

pub bit_and_digit : (a b : ℕ) → bit_and a b ≡ 2 * bit_and (a / 2) (b / 2) + min (a % 2) (b % 2)
bit_and_digit zero b = omega (arith, bit_and-bitwise 0 b, bit_and-bitwise 0 (b / 2))
bit_and_digit (suc a) b = omega (
  arith,
  bit_and-bitwise (suc a) b,
  bit_and-bitwise (suc a / 2) (b / 2),
  digits_enough (λ y. 0) min a (suc a / 2) (suc a / 2) (b / 2) (omega arith) (omega arith),
)

bit_or-zero_below : (k a : ℕ) → a ≤ k → (bit_or a 0 ≡ a) × (bit_and a 0 ≡ 0)
bit_or-zero_below k zero h = (refl, refl)
bit_or-zero_below zero (suc a) h = absurd (omega arith)
bit_or-zero_below (suc k) (suc a) h =
    let (o, n) = bit_or-zero_below k (suc a / 2) (omega arith) in
    (omega (arith, bit_or_digit (suc a) 0, o), omega (arith, bit_and_digit (suc a) 0, n))

pub bit_or-zero : (a : ℕ) → bit_or a 0 ≡ a
bit_or-zero a = (bit_or-zero_below a a (omega arith)).0

pub bit_and-zero : (a : ℕ) → bit_and a 0 ≡ 0
bit_and-zero a = (bit_or-zero_below a a (omega arith)).1

zero-bit_or : (b : ℕ) → bit_or 0 b ≡ b
zero-bit_or b = omega (arith, bit_or-bitwise 0 b)

pub mul-pow-suc : (b k : ℕ) → b * 2 ^ suc k ≡ 2 * (b * 2 ^ k)
mul-pow-suc b k = omega (arith, ap (λ (t : ℕ). b * t) (pow-suc 2 k))

-- `low | (high << k)` where `low` has at most `k` bits.
pub bit_or-shifted : (k low high : ℕ) → low < 2 ^ k → bit_or low (high * 2 ^ k) ≡ low + high * 2 ^ k
bit_or-shifted zero low high h = ground (arith, zero-bit_or (high * 2 ^ 0))
bit_or-shifted (suc k) low high h = ground (
  arith,
  mul-pow-suc high k,
  pow-suc 2 k,
  bit_or_digit low (high * 2 ^ suc k),
  bit_or-shifted k (low / 2) high,
)

pub shifted-bit_or : (k low high : ℕ) → low < 2 ^ k → bit_or (high * 2 ^ k) low ≡ high * 2 ^ k + low
shifted-bit_or zero low high h = ground (arith, bit_or-zero (high * 2 ^ 0))
shifted-bit_or (suc k) low high h = ground (
  arith,
  mul-pow-suc high k,
  pow-suc 2 k,
  bit_or_digit (high * 2 ^ suc k) low,
  shifted-bit_or k (low / 2) high,
)

-- `value & ((1 << k) - 1)`, over the quotient and the remainder of the value.
bit_and_ones : (k high low : ℕ) → low < 2 ^ k → bit_and (high * 2 ^ k + low) (2 ^ k - 1) ≡ low
bit_and_ones zero high low h = ground (arith, bit_and-zero (high * 2 ^ 0 + low))
bit_and_ones (suc k) high low h = ground (
  arith,
  mul-pow-suc high k,
  pow-suc 2 k,
  one-le-pow k 2,
  bit_and_digit (high * 2 ^ suc k + low) (2 ^ suc k - 1),
  bit_and_ones k high (low / 2),
)

pub bit_and-mask : (k a : ℕ) → bit_and a (2 ^ k - 1) ≡ a % 2 ^ k
bit_and-mask k a = ground (arith, one-le-pow k 2, bit_and_ones k (a / 2 ^ k) (a % 2 ^ k))

-- `value & ~((1 << k) - 1)` in a word of `k + w` bits.
pub bit_and-high :
    (k w high low : ℕ)
    → low < 2 ^ k
    → high < 2 ^ w
    → bit_and (high * 2 ^ k + low) ((2 ^ w - 1) * 2 ^ k) ≡ high * 2 ^ k
bit_and-high zero w high low h hw = ground (arith, mod-eq_of_lt hw, bit_and-mask w high)
bit_and-high (suc k) w high low h hw = ground (
  arith,
  mul-pow-suc high k,
  mul-pow-suc (2 ^ w - 1) k,
  pow-suc 2 k,
  bit_and_digit (high * 2 ^ suc k + low) ((2 ^ w - 1) * 2 ^ suc k),
  bit_and-high k w high (low / 2),
)

-- `value & 1`
pub bit_and-one : (a : ℕ) → bit_and a 1 ≡ a % 2
bit_and-one a = bit_and-mask 1 a

pub pow-add : (k w : ℕ) → 2 ^ (k + w) ≡ 2 ^ w * 2 ^ k
pow-add zero w = let e : 0 + w ≡ w = omega arith in rw e (omega arith)
pow-add (suc k) w =
    let e : suc k + w ≡ suc (k + w) = omega arith in
    rw e (omega (arith, pow-suc 2 (k + w), pow-add k w, mul-pow-suc (2 ^ w) k))

-- `value & ~((1 << k) - 1)` on 64 bits clears the `k` low bits.
pub bit_and-complement :
    (k a : ℕ) → k ≤ 64 → a < 2 ^ 64 → bit_and a (complement64 (2 ^ k - 1)) ≡ a / 2 ^ k * 2 ^ k
bit_and-complement k a hk ha =
    ground
      (arith, cleared, ap (bit_and (a / 2 ^ k * 2 ^ k + a % 2 ^ k)) mask, div-add-mod' a (2 ^ k))
  where
    whole : 2 ^ (64 - k) * 2 ^ k ≡ 2 ^ 64
    whole =
        let e : 64 ≡ k + (64 - k) = omega arith in
        sym (ap (λ (t : ℕ). 2 ^ t) e ∙ pow-add k (64 - k))

    mask : (2 ^ (64 - k) - 1) * 2 ^ k ≡ complement64 (2 ^ k - 1)
    mask =
        let pos = one-le-pow (64 - k) 2 (omega arith) in
        let step : 2 ^ (64 - k) ≡ suc (2 ^ (64 - k) - 1) = omega arith in
        omega (arith, whole, one-le-pow k 2, ap (λ (t : ℕ). t * 2 ^ k) step)

    cleared :
        bit_and (a / 2 ^ k * 2 ^ k + a % 2 ^ k) ((2 ^ (64 - k) - 1) * 2 ^ k) ≡ a / 2 ^ k * 2 ^ k
    cleared =
        bit_and-high k (64 - k) (a / 2 ^ k) (a % 2 ^ k) (mod-lt a (one-le-pow k 2 (omega arith)))
          ((div-lt_iff_lt-mul (one-le-pow k 2 (omega arith))).1 (rw whole ha))

pub div-pow-suc : (a n : ℕ) → a / 2 ^ suc n ≡ a / 2 / 2 ^ n
div-pow-suc a n =
    ap (λ (t : ℕ). a / t) (omega (arith, pow-suc 2 n)) ∙ sym (div-div-eq-div-mul a 2 (2 ^ n))

-- Digit `k` of the number.
abbrev pub bit : ℕ → ℕ → ℕ
bit k a = a / 2 ^ k % 2

-- Digit `k` of `a | b` is set where it is set in one of them.
pub bit_or-bit : (k a b : ℕ) → bit k (bit_or a b) ≡ max (bit k a) (bit k b)
bit_or-bit zero a b = omega (arith, bit_or_digit a b)
bit_or-bit (suc k) a b =
    let half : bit_or a b / 2 ≡ bit_or (a / 2) (b / 2) = omega (arith, bit_or_digit a b) in
    rw (div-pow-suc (bit_or a b) k, div-pow-suc a k, div-pow-suc b k, half)
      (bit_or-bit k (a / 2) (b / 2))

pub pow-bit_self : (k : ℕ) → bit k (2 ^ k) ≡ 1
pow-bit_self zero = refl
pow-bit_self (suc k) =
    let half : 2 ^ suc k / 2 ≡ 2 ^ k = omega (arith, pow-suc 2 k) in
    rw (div-pow-suc (2 ^ suc k) k, half) (pow-bit_self k)

pub pow-bit_other : (q k : ℕ) → q ≢ k → bit k (2 ^ q) ≡ 0
pow-bit_other zero zero h = absurd (h refl)
pow-bit_other zero (suc k) h = rw (div-pow-suc (2 ^ 0) k) (omega (arith, zero-div-le (2 ^ k)))
  where
    zero-div-le : (n : ℕ) → 0 / n ≡ 0
    zero-div-le n = omega arith
pow-bit_other (suc q) zero h = omega (arith, pow-suc 2 q)
pow-bit_other (suc q) (suc k) h =
    let half : 2 ^ suc q / 2 ≡ 2 ^ q = omega (arith, pow-suc 2 q) in
    rw (div-pow-suc (2 ^ suc q) k, half) (pow-bit_other q k (λ e. h (ap suc e)))
