-- ===== src/TileKey/Morton.antt =====
-- The bit loops of src/core/tile_key.cpp against a recursion on the binary digits of x and y.
use lunar_terrain_builder.Base.{
  ℕ, zero, suc, ◌+◌, ◌*◌, ◌/◌, ◌%◌, ◌^◌, ◌≤◌, ◌<◌, ◌≡◌, ◌∙◌, refl, sym, ap, ap₂, arith, u32, u64,
}
use lunar_terrain_builder.Base.Bits.{bit_or-shifted, bit_and-one, div-pow-suc}
use lunar_terrain_builder.Base.Loops.{for_up}
use lunar_terrain_builder.TileKey.{interleave, x_bit, y_bit}
use native.Mathlib.Nat.{
  pow-suc, pow-le-pow_right, div-div-eq-div-mul, mod-eq_of_lt, mul-le-mul_right,
}
use native.Mathlib.Decide.{dec_lt}

-- Digit `i` of x is digit 2 * i of the code, and digit `i` of y is digit 2 * i + 1.
pub weave : ℕ → ℕ → ℕ → ℕ
weave zero x y = 0
weave (suc n) x y = 4 * weave n (x / 2) (y / 2) + x % 2 + 2 * (y % 2)

-- The `n` lowest digits at the even places.
pub evens : ℕ → ℕ → ℕ
evens zero m = 0
evens (suc n) m = 2 * evens n (m / 4) + m % 2

pub odds : ℕ → ℕ → ℕ
odds n m = evens n (m / 2)

pub pow-double-suc : (n : ℕ) → 2 ^ (2 * suc n) ≡ 4 * 2 ^ (2 * n)
pow-double-suc n =
    let e : 2 * suc n ≡ suc (suc (2 * n)) = omega arith in
    rw e (omega (arith, pow-suc 2 (suc (2 * n)), pow-suc 2 (2 * n)))

pow-double-odd : (n : ℕ) → 2 ^ (2 * n + 1) ≡ 2 * 2 ^ (2 * n)
pow-double-odd n =
    let e : 2 * n + 1 ≡ suc (2 * n) = omega arith in rw e (omega (arith, pow-suc 2 (2 * n)))

div-double-odd : (a n : ℕ) → a / 2 ^ (2 * n + 1) ≡ a / 2 / 2 ^ (2 * n)
div-double-odd a n =
    ap (λ (t : ℕ). a / t) (pow-double-odd n) ∙ sym (div-div-eq-div-mul a 2 (2 ^ (2 * n)))

pub div-four-pow-suc : (a n : ℕ) → a / 2 ^ (2 * suc n) ≡ a / 4 / 2 ^ (2 * n)
div-four-pow-suc a n =
    ap (λ (t : ℕ). a / t) (pow-double-suc n) ∙ sym (div-div-eq-div-mul a 4 (2 ^ (2 * n)))

pub weave-lt : (n x y : ℕ) → weave n x y < 2 ^ (2 * n)
unfolding weave
weave-lt zero x y = omega arith
weave-lt (suc n) x y = omega (arith, pow-double-suc n, weave-lt n (x / 2) (y / 2))

pub evens-weave : (n x y : ℕ) → x < 2 ^ n → evens n (weave n x y) ≡ x
unfolding evens weave
evens-weave zero x y h = omega arith
evens-weave (suc n) x y h =
    let below : weave n (x / 2) (y / 2) ≡ weave (suc n) x y / 4 = omega arith in
    omega (arith, ap (evens n) below, pow-suc 2 n, evens-weave n (x / 2) (y / 2))

pub odds-weave : (n x y : ℕ) → y < 2 ^ n → odds n (weave n x y) ≡ y
unfolding odds evens weave
odds-weave zero x y h = omega arith
odds-weave (suc n) x y h =
    let below : weave n (x / 2) (y / 2) / 2 ≡ weave (suc n) x y / 2 / 4 = omega arith in
    omega (arith, ap (evens n) below, pow-suc 2 n, odds-weave n (x / 2) (y / 2))

pub weave-evens-odds : (n m : ℕ) → m < 2 ^ (2 * n) → weave n (evens n m) (odds n m) ≡ m
unfolding odds evens weave
weave-evens-odds zero m h = omega arith
weave-evens-odds (suc n) m h =
    let swap : m / 4 / 2 ≡ m / 2 / 4 = omega arith in
    let dx : evens n (m / 4) ≡ (2 * evens n (m / 4) + m % 2) / 2 = omega arith in
    let dy : evens n (m / 2 / 4) ≡ (2 * evens n (m / 2 / 4) + m / 2 % 2) / 2 = omega arith in
    omega (
      arith,
      pow-double-suc n,
      weave-evens-odds n (m / 4),
      ap (evens n) swap,
      ap₂ (weave n) dx (ap (evens n) swap ∙ dy),
    )

pub evens-lt : (n m : ℕ) → evens n m < 2 ^ n
unfolding evens
evens-lt zero m = omega arith
evens-lt (suc n) m = omega (arith, pow-suc 2 n, evens-lt n (m / 4))

pub odds-lt : (n m : ℕ) → odds n m < 2 ^ n
unfolding odds
odds-lt n m = evens-lt n (m / 2)

-- The digit that one more round adds at the top.
weave-top :
    (n x y : ℕ)
    → weave (suc n) x y
      ≡ weave n x y + x / 2 ^ n % 2 * 2 ^ (2 * n) + y / 2 ^ n % 2 * 2 ^ (2 * n + 1)
unfolding weave
weave-top zero x y = omega arith
weave-top (suc n) x y = omega (
  arith,
  ap (λ (t : ℕ). t % 2 * 2 ^ (2 * suc n)) (div-pow-suc x n),
  ap (λ (t : ℕ). t % 2 * 2 ^ (2 * suc n + 1)) (div-pow-suc y n),
  ap (λ (t : ℕ). x / 2 / 2 ^ n % 2 * t) (pow-double-suc n),
  ap (λ (t : ℕ). y / 2 / 2 ^ n % 2 * t)
      (pow-double-odd (suc n) ∙ ap (λ (t : ℕ). 2 * t) (pow-double-suc n)),
  ap (λ (t : ℕ). y / 2 / 2 ^ n % 2 * t) (pow-double-odd n),
  weave-top n (x / 2) (y / 2),
)

evens-top : (n m : ℕ) → evens (suc n) m ≡ evens n m + m / 2 ^ (2 * n) % 2 * 2 ^ n
unfolding evens
evens-top zero m = omega arith
evens-top (suc n) m = omega (
  arith,
  ap (λ (t : ℕ). t % 2 * 2 ^ suc n) (div-four-pow-suc m n),
  ap (λ (t : ℕ). m / 4 / 2 ^ (2 * n) % 2 * t) (pow-suc 2 n),
  evens-top n (m / 4),
)

-- A digit shifted into place does not leave the word.
u64-digit : (d k : ℕ) → d < 2 → k ≤ 62 → u64 (d * 2 ^ k) ≡ d * 2 ^ k
u64-digit d k hd hk =
    let top : 2 ^ k ≤ 2 ^ 62 = pow-le-pow_right (omega arith) hk in
    mod-eq_of_lt (elim (dec_lt d 1) [
      | yes z ↦ let e : d ≡ 0 = omega arith in rw e (omega arith)
      | no z ↦ let e : d ≡ 1 = omega arith in rw e (omega arith)
    ])

u32-digit : (d k : ℕ) → d < 2 → k ≤ 30 → u32 (u32 d * 2 ^ k) ≡ d * 2 ^ k
u32-digit d k hd hk =
    let top : 2 ^ k ≤ 2 ^ 30 = pow-le-pow_right (omega arith) hk in
    elim (dec_lt d 1) [
      | yes z ↦ let e : d ≡ 0 = omega arith in rw e (omega arith)
      | no z ↦ let e : d ≡ 1 = omega arith in rw e (omega arith)
    ]

-- The loop of `interleave` computes the interleaved digits.
pub interleave-weave : (n x y : ℕ) → n ≤ 28 → interleave x y n ≡ weave n x y
unfolding interleave
interleave-weave zero x y h = unfold weave in refl
interleave-weave (suc n) x y h =
    rw
      (
        interleave-weave n x y (omega arith),
        bit_and-one (x / 2 ^ n),
        bit_and-one (y / 2 ^ n),
        u64-digit (x / 2 ^ n % 2) (2 * n) (omega arith) (omega arith),
        u64-digit (y / 2 ^ n % 2) (2 * n + 1) (omega arith) (omega arith),
        bit_or-shifted (2 * n) (weave n x y) (x / 2 ^ n % 2) (weave-lt n x y),
        bit_or-shifted (2 * n + 1) (weave n x y + x / 2 ^ n % 2 * 2 ^ (2 * n)) (y / 2 ^ n % 2) room,
      )
      (sym (weave-top n x y))
  where
    digit : x / 2 ^ n % 2 * 2 ^ (2 * n) ≤ 1 * 2 ^ (2 * n)
    digit = mul-le-mul_right (2 ^ (2 * n)) (omega arith)

    room : weave n x y + x / 2 ^ n % 2 * 2 ^ (2 * n) < 2 ^ (2 * n + 1)
    room = omega (arith, pow-double-odd n, weave-lt n x y, digit)

pub x_loop-evens : (n m : ℕ) → n ≤ 28 → for_up n (x_bit m) 0 ≡ evens n m
unfolding x_bit
x_loop-evens zero m h = unfold evens in refl
x_loop-evens (suc n) m h =
    rw
      (
        x_loop-evens n m (omega arith),
        bit_and-one (m / 2 ^ (2 * n)),
        u32-digit (m / 2 ^ (2 * n) % 2) n (omega arith) (omega arith),
      )
      (bit_or-shifted n (evens n m) (m / 2 ^ (2 * n) % 2) (evens-lt n m) ∙ sym (evens-top n m))

pub y_loop-odds : (n m : ℕ) → n ≤ 28 → for_up n (y_bit m) 0 ≡ odds n m
unfolding y_bit
y_loop-odds zero m h = unfold odds evens in refl
y_loop-odds (suc n) m h =
    rw
      (
        y_loop-odds n m (omega arith),
        div-double-odd m n,
        bit_and-one (m / 2 / 2 ^ (2 * n)),
        u32-digit (m / 2 / 2 ^ (2 * n) % 2) n (omega arith) (omega arith),
      )
      (bit_or-shifted n (odds n m) (m / 2 / 2 ^ (2 * n) % 2) (unfold odds in evens-lt n (m / 2))
        ∙ unfold odds in sym (evens-top n (m / 2)))

-- One more level: the code of a child has two more digits, and the code of a parent two fewer.
pub evens-child : (n m i : ℕ) → i < 4 → evens (suc n) (4 * m + i) ≡ 2 * evens n m + i % 2
unfolding evens
evens-child n m i h = let e : (4 * m + i) / 4 ≡ m = omega arith in omega (arith, ap (evens n) e)

pub odds-child : (n m i : ℕ) → i < 4 → odds (suc n) (4 * m + i) ≡ 2 * odds n m + i / 2
unfolding odds evens
odds-child n m i h =
    let e : (4 * m + i) / 2 / 4 ≡ m / 2 = omega arith in omega (arith, ap (evens n) e)

pub evens-parent : (n m : ℕ) → evens n (m / 4) ≡ evens (suc n) m / 2
unfolding evens
evens-parent n m = omega arith

pub odds-parent : (n m : ℕ) → odds n (m / 4) ≡ odds (suc n) m / 2
unfolding odds evens
odds-parent n m = let e : m / 4 / 2 ≡ m / 2 / 4 = omega arith in omega (arith, ap (evens n) e)
