-- ===== src/TileKey/Layout.antt =====
-- The bit fields of an encoded key as arithmetic: face * 2^61 + level * 2^56 + Morton code.
use lunar_terrain_builder.Base.{ℕ, ◌+◌, ◌*◌, ◌/◌, ◌%◌, ◌^◌, ◌≤◌, ◌<◌, bit_or, ◌≡◌, arith, u64}
use lunar_terrain_builder.Base.Bits.{shifted-bit_or, bit_and-mask}
use lunar_terrain_builder.TileKey.{LunarTileKey, face, level, morton, x, y, max_face, max_level}
use lunar_terrain_builder.TileKey.Morton.{evens, odds, x_loop-evens, y_loop-odds}
use native.Mathlib.Nat.{pow-le-pow_right}

-- What every constructor of `LunarTileKey` guarantees of the 64 bits it keeps.
pub record IsKey (k : LunarTileKey) : Type 0 where
  pub fits : k.encoded < 2 ^ 64
  pub face_ok : face k ≤ max_face
  pub level_ok : level k ≤ max_level
  pub code_fits : morton k < 2 ^ (2 * level k)

abbrev pub packed : ℕ → ℕ → ℕ → LunarTileKey
packed f l m = record { encoded = f * 2 ^ 61 + l * 2 ^ 56 + m }

-- The three fields side by side, as `create`, `parent` and `children` join them.
pub join_fields :
    (f l m : ℕ)
    → f < 8
    → l < 32
    → m < 2 ^ 56
    → bit_or (bit_or (u64 (f * 2 ^ 61)) (u64 (l * 2 ^ 56))) m ≡ f * 2 ^ 61 + l * 2 ^ 56 + m
join_fields f l m hf hl hm =
    let ef : u64 (f * 2 ^ 61) ≡ f * 2 ^ 61 = omega arith in
    let el : u64 (l * 2 ^ 56) ≡ l * 2 ^ 56 = omega arith in
    let outer : f * 2 ^ 61 + l * 2 ^ 56 ≡ (f * 32 + l) * 2 ^ 56 = omega arith in
    rw (ef, el, shifted-bit_or 61 (l * 2 ^ 56) f (omega arith), outer)
      (shifted-bit_or 56 m (f * 32 + l) hm)

module _ (k : LunarTileKey) where
  pub face-div : k.encoded < 2 ^ 64 → face k ≡ k.encoded / 2 ^ 61
  unfolding face
  face-div h = omega arith

  pub level-div : level k ≡ k.encoded / 2 ^ 56 % 32
  unfolding level
  level-div = rw (bit_and-mask 5 (k.encoded / 2 ^ 56)) (omega arith)

  pub morton-mod : morton k ≡ k.encoded % 2 ^ 56
  unfolding morton
  morton-mod = bit_and-mask 56 k.encoded

  pub morton-lt : morton k < 2 ^ 56
  morton-lt = omega (arith, morton-mod)

  pub x-evens : level k ≤ 28 → x k ≡ evens (level k) (morton k)
  unfolding x
  x-evens h = x_loop-evens (level k) (morton k) h

  pub y-odds : level k ≤ 28 → y k ≡ odds (level k) (morton k)
  unfolding y
  y-odds h = y_loop-odds (level k) (morton k) h

module _ (f l m : ℕ) (hf : f < 8) (hl : l < 32) (hm : m < 2 ^ 56) where
  pub face-packed : face (packed f l m) ≡ f
  face-packed = omega (arith, face-div (packed f l m) (omega arith))

  pub level-packed : level (packed f l m) ≡ l
  level-packed = omega (arith, level-div (packed f l m))

  pub morton-packed : morton (packed f l m) ≡ m
  morton-packed = omega (arith, morton-mod (packed f l m))

-- A code of at most 28 digits for each coordinate stays below the level field.
pub code-lt : (l m : ℕ) → l ≤ 28 → m < 2 ^ (2 * l) → m < 2 ^ 56
code-lt l m hl hm =
    let top : 2 ^ (2 * l) ≤ 2 ^ 56 = pow-le-pow_right (omega arith) {j = 56} (omega arith) in
    omega arith

pub packed-IsKey :
    (f l m : ℕ) → f ≤ max_face → l ≤ max_level → m < 2 ^ (2 * l) → IsKey (packed f l m)
packed-IsKey f l m hf hl hm =
    let small = code-lt l m hl hm in
    let lev = level-packed f l m (omega arith) (omega arith) small in
    record {
      fits = omega arith;
      face_ok = omega (arith, face-packed f l m (omega arith) (omega arith) small);
      level_ok = omega (arith, lev);
      code_fits = rw (lev, morton-packed f l m (omega arith) (omega arith) small) hm;
    }

pub encoded-eq : {j k : LunarTileKey} → j.encoded ≡ k.encoded → j ≡ k
encoded-eq e = λ i. record { encoded = e i }

-- A key is its fields.
pub packed-fields :
    (k : LunarTileKey) → k.encoded < 2 ^ 64 → packed (face k) (level k) (morton k) ≡ k
packed-fields k h = encoded-eq (omega (arith, face-div k h, level-div k, morton-mod k))
