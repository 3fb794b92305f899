-- ===== src/Packing/Tests.antt =====
-- A run of the planner on three tiles.
use lunar_terrain_builder.Base.{◌+◌, ◌^◌, Bool, false, ◌≡◌, refl, arith, List, [], ◌∷◌, some}
use lunar_terrain_builder.Error.{Result, success}
use lunar_terrain_builder.TileKey.{face, level}
use lunar_terrain_builder.ByteWriter.{align8}
use lunar_terrain_builder.Packing.{
  PackingTile, CanonicalPackRange, StopPoint, not_increasing, check_tiles, grow, plan_from,
  is_empty, plan_canonical_pack_ranges,
}
use lunar_terrain_builder.Packing.Plan.{IsPlan}
use lunar_terrain_builder.Packing.Sound.{plan_canonical_pack_ranges-IsPlan}
use lunar_terrain_builder.Packing.Returns.{plan_canonical_pack_ranges-returns}

abbrev never : StopPoint → Bool
never p = false

-- Two tiles of level 1 that fill a pack of 200 bytes to 196 and a third that does not fit.
abbrev three_tiles : List PackingTile
three_tiles =
    record { key = record { encoded = 2 ^ 56 }; payload_bytes = 60 }
    ∷ record { key = record { encoded = 2 ^ 56 + 1 }; payload_bytes = 68 }
    ∷ record { key = record { encoded = 2 ^ 56 + 2 }; payload_bytes = 9 }
    ∷ []

abbrev two_ranges : List CanonicalPackRange
two_ranges =
    record { first_tile = 0; tile_count = 2 } ∷ record { first_tile = 2; tile_count = 1 } ∷ []

three_tiles_run : plan_canonical_pack_ranges never three_tiles 200 ≡ some (success two_ranges)
unfolding plan_canonical_pack_ranges check_tiles not_increasing plan_from grow is_empty face level
    align8
three_tiles_run = refl

IsPlan_example : IsPlan 200 0 three_tiles two_ranges
IsPlan_example =
    plan_canonical_pack_ranges-IsPlan never three_tiles 200 two_ranges (omega arith) three_tiles_run

returns_example :
    (r : Result (List CanonicalPackRange)) × (plan_canonical_pack_ranges never three_tiles 200
      ≡ some r)
returns_example = plan_canonical_pack_ranges-returns never three_tiles 200
