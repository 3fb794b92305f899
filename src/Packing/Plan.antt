-- ===== src/Packing/Plan.antt =====
-- What a pack plan is, and what the inner loop of the planner has found when it ends.
use lunar_terrain_builder.Base.{
  ℕ, suc, ◌+◌, ◌-◌, ◌*◌, ◌/◌, ◌^◌, ◌≤◌, ◌<◌, ◌≡◌, ◌⊎◌, inl, inr, refl, ap, subst, arith, Bool, true,
  false, not, ◌&&◌, List, [], ◌∷◌, ◌++◌, length, All, ltb, ◌==◌, ◌/=◌, u64, u64_max,
}
use lunar_terrain_builder.Error.{success}
use lunar_terrain_builder.TileKey.{face, level}
use lunar_terrain_builder.ByteWriter.{align8}
use lunar_terrain_builder.ByteWriter.Laws.{align8_least}
use lunar_terrain_builder.Packing.{PackingTile, CanonicalPackRange, StopPoint, pack_header, grow}

-- The tiles lie on one face at one level.
pub record IsMate (t u : PackingTile) : Type 0 where
  same_face : face u.key ≡ face t.key
  same_level : level u.key ≡ level t.key

-- The size of a file after payloads that start at multiples of eight.
unfoldable pub file_size : ℕ → List PackingTile → ℕ
file_size bytes [] = bytes
file_size bytes (t ∷ rest) = file_size ((bytes + 7) / 8 * 8 + t.payload_bytes) rest

-- The next tile belongs to another pack: by its face or its level, or because it does not fit.
pub CannotJoin : ℕ → PackingTile → ℕ → List PackingTile → Type 0
CannotJoin target t bytes [] = Unit
CannotJoin target t bytes (u ∷ rest) =
    (¬ IsMate t u) ⊎ (target < (bytes + 7) / 8 * 8 + u.payload_bytes)

-- The ranges cut the tiles, the first of which has the index `first`, into packs.
pub data IsPlan (target : ℕ) : ℕ → List PackingTile → List CanonicalPackRange → Type 0 where
  finished : (first : ℕ) → IsPlan target first [] []
  pack :
      (first : ℕ) (t : PackingTile) (mates rest : List PackingTile)
      (ranges : List CanonicalPackRange)
      → All (IsMate t) mates
      → (mates ≡ []) ⊎ (file_size pack_header (t ∷ mates) ≤ target)
      → CannotJoin target t (file_size pack_header (t ∷ mates)) rest
      → IsPlan target (first + suc (length mates)) rest ranges
      → IsPlan target first
          (t ∷ (mates ++ rest))
          (record { first_tile = first; tile_count = suc (length mates) } ∷ ranges)

-- What the inner loop has found when it ends at `stop_at`.
pub record Grown (target : ℕ) (t : PackingTile) (bytes end' stop_at : ℕ) (tiles : List PackingTile)
    : Type 0 where
  pub mates : List PackingTile
  pub rest : List PackingTile
  pub split : tiles ≡ mates ++ rest
  pub count : stop_at ≡ end' + length mates
  pub all_mates : All (IsMate t) mates
  pub fits : (mates ≡ []) ⊎ (file_size bytes mates ≤ target)
  pub closed : CannotJoin target t (file_size bytes mates) rest

pub mates_test :
    (t u : PackingTile)
    → (face u.key == face t.key && level u.key == level t.key) ≡ true
    → IsMate t u
mates_test t u h = record { same_face = ground arith; same_level = ground arith }

mates_test_complete :
    (t u : PackingTile)
    → (face u.key == face t.key && level u.key == level t.key) ≡ false
    → ¬ IsMate t u
mates_test_complete t u h m = let one = m.same_face in let two = m.same_level in ground arith

not-true : (b : Bool) → not b ≡ true → b ≡ false
not-true true h = cc
not-true false h = refl

not-false : (b : Bool) → not b ≡ false → b ≡ true
not-false true h = refl
not-false false h = cc

pub align8-padded : (n : ℕ) → n + 8 ≤ 2 ^ 64 → align8 n ≡ (n + 7) / 8 * 8
align8-padded n h = omega (arith, align8_least n h)

-- One round of the inner loop that does not fail.
pub grow_round :
    (stop : StopPoint → Bool) (target first : ℕ) (t : PackingTile) (end' bytes stop_at : ℕ)
    (u : PackingTile) (us : List PackingTile)
    → grow stop target (face t.key) (level t.key) first end' bytes (u ∷ us) ≡ success stop_at
    → ((face u.key == face t.key && level u.key == level t.key) ≡ false) × (end' ≡ stop_at)
      ⊎ ((face u.key == face t.key && level u.key == level t.key) ≡ true)
        × (ltb (u64_max - align8 bytes) u.payload_bytes ≡ false)
        × (((end' /= first && ltb target (u64 (align8 bytes + u.payload_bytes))) ≡ true)
              × (end' ≡ stop_at)
            ⊎ ((end' /= first && ltb target (u64 (align8 bytes + u.payload_bytes))) ≡ false)
              × (grow stop target
                    (face t.key)
                    (level t.key)
                    first
                    (suc end')
                    (u64 (align8 bytes + u.payload_bytes))
                    us
                  ≡ success stop_at))
unfolding grow
grow_round stop target first t end' bytes stop_at u us h = ground arith

add_mate :
    (target : ℕ) (t u : PackingTile) (bytes end' stop_at : ℕ) (us : List PackingTile)
    → IsMate t u
    → (bytes + 7) / 8 * 8 + u.payload_bytes ≤ target
    → Grown target t ((bytes + 7) / 8 * 8 + u.payload_bytes) (suc end') stop_at us
    → Grown target t bytes end' stop_at (u ∷ us)
unfolding file_size
add_mate target t u bytes end' stop_at us mate room g = record {
  mates = u ∷ g.mates;
  rest = g.rest;
  split = ap (◌∷◌ u) g.split;
  count = omega (arith, g.count);
  all_mates = (mate, g.all_mates);
  fits = inr (elim g.fits [ inl alone ↦ rw alone room | inr small ↦ small ]);
  closed = g.closed;
}

pub grow-Grown :
    (stop : StopPoint → Bool) (target first : ℕ) (t : PackingTile) (end' bytes stop_at : ℕ)
    (tiles : List PackingTile)
    → first < end'
    → bytes + 8 ≤ 2 ^ 64
    → target + 8 ≤ 2 ^ 64
    → grow stop target (face t.key) (level t.key) first end' bytes tiles ≡ success stop_at
    → Grown target t bytes end' stop_at tiles
unfolding grow file_size CannotJoin
grow-Grown stop target first t end' bytes stop_at [] after small bound h = record {
  mates = [];
  rest = [];
  split = refl;
  count = ground arith;
  all_mates = tt;
  fits = inl refl;
  closed = tt;
}
grow-Grown stop target first t end' bytes stop_at (u ∷ us) after small bound h =
    elim (grow_round stop target first t end' bytes stop_at u us h) [
      | inl (other, e) ↦ ended (inl (mates_test_complete t u other)) e
      | inr (mate, no_overflow, inl (full, e)) ↦
          ended (inr (ground (arith, align8-padded bytes small))) e
      | inr (mate, no_overflow, inr (room, h1)) ↦
          let padded = align8-padded bytes small in
          let exact : u64 (align8 bytes + u.payload_bytes) ≡ (bytes + 7) / 8 * 8 + u.payload_bytes =
            ground (arith, padded) in
          let fits : (bytes + 7) / 8 * 8 + u.payload_bytes ≤ target = ground (arith, exact) in
          add_mate target t u bytes end' stop_at us (mates_test t u mate) fits (
            grow-Grown stop target first t (suc end') _ stop_at us (omega arith) (omega arith) bound
              (subst
                (λ n.
                  grow stop target (face t.key) (level t.key) first (suc end') n us
                  ≡ success stop_at)
                exact h1))
    ]
  where
    ended :
        CannotJoin target t bytes (u ∷ us)
        → end' ≡ stop_at
        → Grown target t bytes end' stop_at (u ∷ us)
    ended closed e = record {
      mates = [];
      rest = u ∷ us;
      split = refl;
      count = omega arith;
      all_mates = tt;
      fits = inl refl;
      closed = closed;
    }
