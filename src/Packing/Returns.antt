-- ===== src/Packing/Returns.antt =====
-- The fuel of the planner's loop.
use lunar_terrain_builder.Base.{
  ℕ, zero, suc, ◌-◌, ◌≤◌, ◌<◌, ◌≡◌, inl, inr, refl, arith, Bool, ◌||◌, List, [], ◌∷◌, ◌++◌, length,
  drop, length-drop, ◌==◌, Bool-cases, none, some,
}
use lunar_terrain_builder.Error.{ErrorCode, make_error, Result, success, failure, Result-cases}
use lunar_terrain_builder.TileKey.{face, level}
use lunar_terrain_builder.Packing.{
  PackingTile, CanonicalPackRange, StopPoint, starting, pack_header, check_tiles, cancelled_error,
  grow, plan_from, is_empty, plan_canonical_pack_ranges,
}
use lunar_terrain_builder.Packing.Plan.{grow_round}

grow_forward :
    (stop : StopPoint → Bool) (target first : ℕ) (t : PackingTile) (end' bytes stop_at : ℕ)
    (tiles : List PackingTile)
    → grow stop target (face t.key) (level t.key) first end' bytes tiles ≡ success stop_at
    → end' ≤ stop_at
unfolding grow
grow_forward stop target first t end' bytes stop_at [] h = ground arith
grow_forward stop target first t end' bytes stop_at (u ∷ us) h =
    elim (grow_round stop target first t end' bytes stop_at u us h) [
      | inl (other, e) ↦ omega arith
      | inr (mate, no_overflow, inl (full, e)) ↦ omega arith
      | inr (mate, no_overflow, inr (room, h1)) ↦
          omega (arith, grow_forward stop target first t (suc end') _ stop_at us h1)
    ]

-- A range has its first tile.
grow_moves :
    (stop : StopPoint → Bool) (target first stop_at : ℕ) (t : PackingTile) (us : List PackingTile)
    → grow stop target (face t.key) (level t.key) first first pack_header (t ∷ us) ≡ success stop_at
    → first < stop_at
grow_moves stop target first stop_at t us h =
    elim (grow_round stop target first t first pack_header stop_at t us h) [
      | inl (other, e) ↦ absurd (ground arith)
      | inr (mate, no_overflow, inl (full, e)) ↦ absurd (ground arith)
      | inr (mate, no_overflow, inr (room, h1)) ↦
          omega (arith, grow_forward stop target first t (suc first) _ stop_at us h1)
    ]

-- What stays for the next range is shorter.
drop-moves :
    (first stop_at fuel : ℕ) (t : PackingTile) (us : List PackingTile)
    → first < stop_at
    → length (t ∷ us) ≤ suc fuel
    → length (drop (stop_at - first) (t ∷ us)) ≤ fuel
drop-moves first stop_at fuel t us moved enough =
    omega (arith, length-drop (stop_at - first) (t ∷ us))

plan_from-returns :
    (stop : StopPoint → Bool) (target fuel first : ℕ) (tiles : List PackingTile)
    (ranges : List CanonicalPackRange)
    → length tiles ≤ fuel
    → (r : Result (List CanonicalPackRange)) × (plan_from stop target fuel first tiles ranges
        ≡ some r)
unfolding plan_from
plan_from-returns stop target fuel first [] ranges enough = (success ranges, refl)
plan_from-returns stop target zero first (t ∷ us) ranges enough = absurd (omega arith)
plan_from-returns stop target (suc fuel) first (t ∷ us) ranges enough =
    elim (Bool-cases (stop (starting first))) [
      | inl stopped ↦ (failure cancelled_error, rw stopped refl)
      | inr going ↦
          elim (Result-cases
            (grow stop target (face t.key) (level t.key) first first pack_header (t ∷ us))) [
              | inr (err, e) ↦ (failure err, rw (going, e) refl)
              | inl (stop_at, e) ↦
                  let moved = grow_moves stop target first stop_at t us e in
                  let (r, f) =
                    plan_from-returns stop target fuel stop_at (drop (stop_at - first) (t ∷ us))
                      (ranges ++ record { first_tile = first; tile_count = stop_at - first } ∷ [])
                      (drop-moves first stop_at fuel t us moved enough) in
                  (r, rw (going, e) f)
            ]
    ]

-- For all tiles, targets and stop requests, the planner's loops end: `plan_canonical_pack_ranges`
-- does not run out of fuel and returns ranges or an error.
pub plan_canonical_pack_ranges-returns :
    (stop : StopPoint → Bool) (tiles : List PackingTile) (target : ℕ)
    → (r : Result (List CanonicalPackRange)) × (plan_canonical_pack_ranges stop tiles target
        ≡ some r)
unfolding plan_canonical_pack_ranges
plan_canonical_pack_ranges-returns stop tiles target =
    elim (Bool-cases (is_empty tiles || target == 0)) [
      | inl refused ↦ (
        failure (
            make_error ErrorCode.invalid_argument
              "canonical pack planning requires nonempty tiles and a positive target size"),
        rw refused refl,
      )
      | inr accepted ↦ elim (Result-cases (check_tiles stop 0 none tiles)) [
        | inr (err, e) ↦ (failure err, rw (accepted, e) refl)
        | inl (tt, e) ↦
            let (r, f) = plan_from-returns stop target (length tiles) 0 tiles [] (omega arith) in
            (r, rw (accepted, e) f)
      ]
    ]
