-- ===== src/Packing/Sound.antt =====
-- The ranges that the planner returns, against the plan of Packing.Plan.
use lunar_terrain_builder.Base.{
  ℕ, zero, suc, ◌+◌, ◌-◌, ◌^◌, ◌≤◌, ◌≡◌, ◌∙◌, inl, inr, sym, subst, arith, Bool, false, List, [],
  ◌∷◌, ◌++◌, length, drop, drop-length, All, All-append_right, u64, u32_max, Option, none, some,
}
use lunar_terrain_builder.Error.{success, Result-cases}
use lunar_terrain_builder.TileKey.{face, level}
use lunar_terrain_builder.ByteWriter.{align8}
use mathlib.Core.List.{append_assoc, append-nil}
use lunar_terrain_builder.Packing.{
  PackingTile, CanonicalPackRange, StopPoint, pack_header, not_increasing, check_tiles, grow,
  plan_from, plan_canonical_pack_ranges,
}
use lunar_terrain_builder.Packing.Plan.{
  file_size, IsPlan, finished, pack, Grown, grow_round, grow-Grown, align8-padded,
}

-- The inner loop from the first tile of a range.
grow_first :
    (stop : StopPoint → Bool) (target first stop_at : ℕ) (t : PackingTile) (us : List PackingTile)
    → target + 8 ≤ 2 ^ 64
    → t.payload_bytes ≤ u32_max
    → grow stop target (face t.key) (level t.key) first first pack_header (t ∷ us) ≡ success stop_at
    → Grown target t (64 + t.payload_bytes) (suc first) stop_at us
grow_first stop target first stop_at t us bound small h =
    elim (grow_round stop target first t first pack_header stop_at t us h) [
      | inl (other, e) ↦ absurd (ground arith)
      | inr (mate, no_overflow, inl (full, e)) ↦ absurd (ground arith)
      | inr (mate, no_overflow, inr (room, h1)) ↦
          let exact : u64 (align8 pack_header + t.payload_bytes) ≡ 64 + t.payload_bytes =
            omega (arith, align8-padded pack_header (omega arith)) in
          grow-Grown stop target first t (suc first) _ stop_at us (omega arith) (omega arith) bound
            (subst
              (λ n.
                grow stop target (face t.key) (level t.key) first (suc first) n us
                ≡ success stop_at)
              exact h1)
    ]

-- One round of the outer loop that does not fail.
pub plan_round :
    (stop : StopPoint → Bool) (target fuel first : ℕ) (t : PackingTile) (us : List PackingTile)
    (ranges result : List CanonicalPackRange)
    → plan_from stop target (suc fuel) first (t ∷ us) ranges ≡ some (success result)
    → (stop_at : ℕ) × (grow stop target (face t.key) (level t.key) first first pack_header (t ∷ us)
        ≡ success stop_at)
      × (plan_from stop target fuel stop_at
            (drop (stop_at - first) (t ∷ us))
            (ranges ++ record { first_tile = first; tile_count = stop_at - first } ∷ [])
          ≡ some (success result))
unfolding plan_from
plan_round stop target fuel first t us ranges result h =
    elim (Result-cases
      (grow stop target (face t.key) (level t.key) first first pack_header (t ∷ us))) [
        | inl (stop_at, e) ↦ (stop_at, e, ground arith)
        | inr (err, e) ↦ absurd (ground arith)
      ]

add_range :
    (target first stop_at : ℕ) (t : PackingTile) (us : List PackingTile)
    (more : List CanonicalPackRange)
    (g : Grown target t (64 + t.payload_bytes) (suc first) stop_at us)
    → IsPlan target stop_at g.rest more
    → IsPlan target first
        (t ∷ us)
        (record { first_tile = first; tile_count = suc (length g.mates) } ∷ more)
unfolding file_size
add_range target first stop_at t us more g p =
    let n : stop_at ≡ first + suc (length g.mates) = omega (arith, g.count) in
    subst
      (λ vs.
        IsPlan target first (t ∷ vs)
          (record { first_tile = first; tile_count = suc (length g.mates) } ∷ more))
      (sym g.split)
      (pack first t g.mates g.rest more g.all_mates g.fits g.closed
        (subst (λ k. IsPlan target k g.rest more) n p))

-- The outer loop appends a plan of the tiles that it is given.
plan_from-IsPlan :
    (stop : StopPoint → Bool) (target fuel first : ℕ) (tiles : List PackingTile)
    (ranges result : List CanonicalPackRange)
    → target + 8 ≤ 2 ^ 64
    → All (λ (t : PackingTile). t.payload_bytes ≤ u32_max) tiles
    → plan_from stop target fuel first tiles ranges ≡ some (success result)
    → (more : List CanonicalPackRange) × (result ≡ ranges ++ more) × IsPlan target first tiles more
unfolding plan_from
plan_from-IsPlan stop target fuel first [] ranges result bound small h =
    ([], ground (arith, append-nil ranges), finished first)
plan_from-IsPlan stop target zero first (t ∷ us) ranges result bound small h = cc
plan_from-IsPlan stop target (suc fuel) first (t ∷ us) ranges result bound small h =
    let (stop_at, grown, h1) = plan_round stop target fuel first t us ranges result h in
    let g = grow_first stop target first stop_at t us bound small.0 grown in
    let behind : drop (stop_at - first) (t ∷ us) ≡ g.rest =
      let n : stop_at - first ≡ length (t ∷ g.mates) = omega (arith, g.count) in
      rw (n, g.split) (drop-length (t ∷ g.mates) g.rest) in
    let range : CanonicalPackRange = record {
      first_tile = first;
      tile_count = suc (length g.mates);
    } in
    let n : stop_at - first ≡ suc (length g.mates) = omega (arith, g.count) in
    let (more, e, p) =
      plan_from-IsPlan stop target fuel stop_at g.rest (ranges ++ range ∷ []) result bound
        (All-append_right _ g.mates g.rest
          (subst (All (λ (u : PackingTile). u.payload_bytes ≤ u32_max)) g.split small.1))
        (subst
          (λ r. plan_from stop target fuel stop_at r (ranges ++ range ∷ []) ≡ some (success result))
          behind
          (subst
            (λ k.
              plan_from stop target fuel stop_at (drop (stop_at - first) (t ∷ us))
                (ranges ++ record { first_tile = first; tile_count = k } ∷ [])
              ≡ some (success result))
            n h1)) in
    (
      range ∷ more,
      e ∙ append_assoc ranges (range ∷ []) more,
      add_range target first stop_at t us more g p,
    )

pub check_round :
    (stop : StopPoint → Bool) (index : ℕ) (before : Option PackingTile) (t : PackingTile)
    (us : List PackingTile)
    → check_tiles stop index before (t ∷ us) ≡ success tt
    → (t.payload_bytes ≤ u32_max)
      × (not_increasing before t ≡ false)
      × (check_tiles stop (suc index) (some t) us ≡ success tt)
unfolding check_tiles
check_round stop index before t us h = ground arith

-- What the checks have found when they go through.
pub check_tiles-payloads :
    (stop : StopPoint → Bool) (index : ℕ) (before : Option PackingTile) (tiles : List PackingTile)
    → check_tiles stop index before tiles ≡ success tt
    → All (λ (t : PackingTile). t.payload_bytes ≤ u32_max) tiles
unfolding check_tiles
check_tiles-payloads stop index before [] h = tt
check_tiles-payloads stop index before (t ∷ us) h =
    let (small, sorted, h1) = check_round stop index before t us h in
    (small, check_tiles-payloads stop (suc index) (some t) us h1)

-- Where the target is at most 2^64 - 8 and `plan_canonical_pack_ranges` returns ranges, these cut
-- the tiles in their order into packs that are not empty. The tiles of a pack share face and level,
-- its file has at most the target's size unless the pack is a single tile, and the tile after it
-- has another face or level or would take the file over the target.
pub plan_canonical_pack_ranges-IsPlan :
    (stop : StopPoint → Bool) (tiles : List PackingTile) (target : ℕ)
    (ranges : List CanonicalPackRange)
    → target + 8 ≤ 2 ^ 64
    → plan_canonical_pack_ranges stop tiles target ≡ some (success ranges)
    → IsPlan target 0 tiles ranges
unfolding plan_canonical_pack_ranges
plan_canonical_pack_ranges-IsPlan stop tiles target ranges bound h =
    let (checked, planned) = parts in
    let (more, e, p) =
      plan_from-IsPlan stop target (length tiles) 0 tiles [] ranges bound
        (check_tiles-payloads stop 0 none tiles checked) planned in
    subst (IsPlan target 0 tiles) (sym e) p
  where
    parts :
        (check_tiles stop 0 none tiles ≡ success tt)
        × (plan_from stop target (length tiles) 0 tiles [] ≡ some (success ranges))
    parts = elim (Result-cases (check_tiles stop 0 none tiles)) [
      | inl (tt, e) ↦ (e, ground arith)
      | inr (err, e) ↦ absurd (ground arith)
    ]
