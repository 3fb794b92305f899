-- ===== src/TileKey/Create.antt =====
-- `create` and `from_encoded`: which arguments they take, and the fields of the key they return.
use lunar_terrain_builder.Base.{
  ℕ, ◌-◌, ◌*◌, ◌/◌, ◌^◌, ◌≤◌, ◌<◌, bit_and, ◌≡◌, ◌∙◌, ◌↔◌, refl, sym, ap, subst, arith, u8, u32,
  u64, true, Bool-cases, inl, inr, ltb, ◌||◌, ◌/=◌, complement64, ◌==◌, if◌then◌else◌,
}
use lunar_terrain_builder.Base.Bits.{bit_and-complement}
use lunar_terrain_builder.Error.{success, failure, has_value, ErrorCode, make_error}
use lunar_terrain_builder.TileKey.{
  LunarTileKey, face, level, morton, x, y, max_face, max_level, create, from_encoded, morton_mask,
}
use lunar_terrain_builder.TileKey.Morton.{
  weave, weave-lt, evens-weave, odds-weave, evens-lt, odds-lt, weave-evens-odds, interleave-weave,
}
use lunar_terrain_builder.TileKey.Layout.{
  IsKey, packed, join_fields, x-evens, y-odds, face-packed, level-packed, morton-packed, morton-lt,
  code-lt, packed-IsKey, packed-fields,
}
use native.Mathlib.Nat.{pow-le-pow_right, one-le-pow, mod-lt, div-add-mod', div-eq_of_lt}

-- The arguments name a tile: a face of the cube, a level, and a place in that level's grid.
pub record IsPlace (f l a b : ℕ) : Type 0 where
  pub face_range : f ≤ max_face
  pub level_range : l ≤ max_level
  pub x_range : a < 2 ^ l
  pub y_range : b < 2 ^ l

pow-level-lt : (l : ℕ) → l ≤ 28 → 2 ^ l ≤ 2 ^ 28
pow-level-lt l h = pow-le-pow_right (omega arith) {j = 28} h

tiles_per_axis-eq : (l : ℕ) → l ≤ 28 → u32 (2 ^ l) ≡ 2 ^ l
tiles_per_axis-eq l h = omega (arith, pow-level-lt l h)

pub place_code : (f l a b : ℕ) → IsPlace f l a b → weave l a b < 2 ^ 56
place_code f l a b p = code-lt l _ p.level_range (weave-lt l a b)

pub create-packed :
    (f l a b : ℕ) → IsPlace f l a b → create f l a b ≡ success (packed f l (weave l a b))
unfolding create
create-packed f l a b p =
    let ef : u8 f ≡ f = omega (arith, p.face_range) in
    let el : u8 l ≡ l = omega (arith, p.level_range) in
    let code = interleave-weave l a b p.level_range in
    let join =
      join_fields f l _ (omega (arith, p.face_range)) (omega (arith, p.level_range))
        (place_code f l a b p) in
    rw (ef, el, code, join) (ground (arith, tiles_per_axis-eq l p.level_range))

-- The coordinates of a packed key are the ones woven into its code.
pub x-packed : (f l a b : ℕ) → IsPlace f l a b → x (packed f l (weave l a b)) ≡ a
x-packed f l a b p =
    let small = place_code f l a b p in
    let lev =
      level-packed f l _ (omega (arith, p.face_range)) (omega (arith, p.level_range)) small in
    let code =
      morton-packed f l _ (omega (arith, p.face_range)) (omega (arith, p.level_range)) small in
    x-evens _ (rw lev p.level_range) ∙ rw (lev, code) (evens-weave l a b p.x_range)

pub y-packed : (f l a b : ℕ) → IsPlace f l a b → y (packed f l (weave l a b)) ≡ b
y-packed f l a b p =
    let small = place_code f l a b p in
    let lev =
      level-packed f l _ (omega (arith, p.face_range)) (omega (arith, p.level_range)) small in
    let code =
      morton-packed f l _ (omega (arith, p.face_range)) (omega (arith, p.level_range)) small in
    y-odds _ (rw lev p.level_range) ∙ rw (lev, code) (odds-weave l a b p.y_range)

-- The key has these fields, and is well formed.
pub record IsAt (f l a b : ℕ) (k : LunarTileKey) : Type 0 where
  pub key : IsKey k
  pub at_face : face k ≡ f
  pub at_level : level k ≡ l
  pub at_x : x k ≡ a
  pub at_y : y k ≡ b

packed-IsAt : (f l a b : ℕ) → IsPlace f l a b → IsAt f l a b (packed f l (weave l a b))
packed-IsAt f l a b p =
    let small = place_code f l a b p in
    record {
      key = packed-IsKey f l _ p.face_range p.level_range (weave-lt l a b);
      at_face =
          face-packed f l _ (omega (arith, p.face_range)) (omega (arith, p.level_range)) small;
      at_level =
          level-packed f l _ (omega (arith, p.face_range)) (omega (arith, p.level_range)) small;
      at_x = x-packed f l a b p;
      at_y = y-packed f l a b p;
    }

-- `create` succeeds on every place of the grid, with a well-formed key that reads back the four
-- arguments.
pub create_place :
    (f l a b : ℕ)
    → IsPlace f l a b
    → (k : LunarTileKey) × (create f l a b ≡ success k) × IsAt f l a b k
create_place f l a b p = (_, create-packed f l a b p, packed-IsAt f l a b p)

create-IsPlace_only : (f l a b : ℕ) → has_value (create f l a b) ≡ true → IsPlace f l a b
unfolding create
create-IsPlace_only f l a b h = record {
  face_range = tests.0;
  level_range = tests.1;
  x_range = omega (arith, tests, tiles_per_axis-eq l tests.1);
  y_range = omega (arith, tests, tiles_per_axis-eq l tests.1);
}
  where
    tests : (f ≤ 5) × (l ≤ 28) × (a < u32 (2 ^ l)) × (b < u32 (2 ^ l))
    tests = ground arith

-- `create` succeeds exactly on the places of the grid.
pub create_iff : (f l a b : ℕ) → (has_value (create f l a b) ≡ true) ↔ IsPlace f l a b
create_iff f l a b = (create-IsPlace_only f l a b, λ p. rw (create-packed f l a b p))

-- The fields of a well-formed key name a place.
pub fields-IsPlace : (k : LunarTileKey) → IsKey k → IsPlace (face k) (level k) (x k) (y k)
fields-IsPlace k v = record {
  face_range = v.face_ok;
  level_range = v.level_ok;
  x_range = rw (x-evens k v.level_ok) (evens-lt (level k) (morton k));
  y_range = rw (y-odds k v.level_ok) (odds-lt (level k) (morton k));
}

-- `create` of the four fields of a well-formed key returns the key.
pub create-fields : (k : LunarTileKey) → IsKey k → create (face k) (level k) (x k) (y k) ≡ success k
create-fields k v =
    create-packed (face k) (level k) (x k) (y k) (fields-IsPlace k v)
    ∙ ap success (ap (packed (face k) (level k)) code ∙ packed-fields k v.fits)
  where
    code : weave (level k) (x k) (y k) ≡ morton k
    code =
        rw (x-evens k v.level_ok, y-odds k v.level_ok)
          (weave-evens-odds (level k) (morton k) v.code_fits)

-- The test on the unused Morton bits asks whether the code has more than 2 * level bits.
unused_bits :
    (l m : ℕ)
    → l ≤ 28
    → m < 2 ^ 56
    → bit_and m (complement64 (if l == max_level then morton_mask else u64 (2 ^ (2 * l)) - 1))
      ≡ m / 2 ^ (2 * l) * 2 ^ (2 * l)
unused_bits l m hl hm = elim (Bool-cases (l == max_level)) [
  | inl top ↦
      let e : l ≡ 28 = ground arith in rw e (bit_and-complement 56 m (omega arith) (omega arith))
  | inr below ↦
      let small : 2 ^ (2 * l) ≤ 2 ^ 56 = pow-le-pow_right (omega arith) {j = 56} (omega arith) in
      let e : u64 (2 ^ (2 * l)) ≡ 2 ^ (2 * l) = omega arith in
      rw (below, e) (bit_and-complement (2 * l) m (omega arith) (omega arith))
]

-- `from_encoded` reads its tests off the fields of the key that it would return.
from_encoded_lem :
    (k : LunarTileKey)
    → from_encoded k.encoded ≡ (
        if ltb max_face (face k) || ltb max_level (level k)
        then failure
            (make_error ErrorCode.invalid_tile_key "encoded tile face or level is out of range")
        else if bit_and (morton k) (
              complement64
                (if level k == max_level then morton_mask else u64 (2 ^ (2 * level k)) - 1))
            /= 0
        then failure (
            make_error ErrorCode.invalid_tile_key "encoded tile key has nonzero unused Morton bits")
        else success k)
unfolding from_encoded face level morton
from_encoded_lem k = refl

high_zero : (m p : ℕ) → 0 < p → m / p * p ≡ 0 → m < p
high_zero m p h e = omega (arith, mod-lt m h, div-add-mod' m p, e)

pub from_encoded-IsKey : (k : LunarTileKey) → IsKey k → from_encoded k.encoded ≡ success k
from_encoded-IsKey k v = ground (
  arith,
  from_encoded_lem k,
  unused_bits (level k) (morton k) v.level_ok (morton-lt k),
  div-eq_of_lt v.code_fits,
)

from_encoded_only :
    (k : LunarTileKey) → k.encoded < 2 ^ 64 → has_value (from_encoded k.encoded) ≡ true → IsKey k
from_encoded_only k h q = record {
  fits = h;
  face_ok = face_ok;
  level_ok = level_ok;
  code_fits = high_zero (morton k) (2 ^ (2 * level k)) (one-le-pow (2 * level k) 2 (omega arith)) (
      ground
        (arith, from_encoded_lem k, q, unused_bits (level k) (morton k) level_ok (morton-lt k)));
}
  where
    face_ok : face k ≤ max_face
    face_ok = ground (arith, from_encoded_lem k, q)

    level_ok : level k ≤ max_level
    level_ok = ground (arith, from_encoded_lem k, q)

from_encoded_key : (k j : LunarTileKey) → from_encoded k.encoded ≡ success j → j ≡ k
from_encoded_key k j h = ground (arith, from_encoded_lem k)

-- On 64 bits, `from_encoded` returns exactly the well-formed key that has those bits.
pub from_encoded_iff :
    (e : ℕ) (k : LunarTileKey)
    → e < 2 ^ 64
    → (from_encoded e ≡ success k) ↔ (IsKey k × (k.encoded ≡ e))
from_encoded_iff e k h = (only, λ p. rw (← p.1) (from_encoded-IsKey k p.0))
  where
    only : from_encoded e ≡ success k → IsKey k × (k.encoded ≡ e)
    only q =
        let same : k ≡ record { encoded = e } = from_encoded_key (record { encoded = e }) k q in
        let v : IsKey (record { encoded = e }) =
          from_encoded_only (record { encoded = e }) h (rw q) in
        (subst IsKey (sym same) v, ap (λ (j : LunarTileKey). j.encoded) same)
