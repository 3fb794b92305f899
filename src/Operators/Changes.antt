-- ===== src/Operators/Changes.antt =====
-- Which tiles a comparison reports, and under which heading.
use lunar_terrain_builder.Base.{
  ℕ, suc, ◌≡◌, ◌∙◌, inl, inr, sym, ap, arith, List, [], ◌∷◌, ltb, Bool-cases,
}
use mathlib.Core.List.{append-nil}
use lunar_terrain_builder.Error.{Result, success, ◌>>=◌, >>=-eq-success}
use lunar_terrain_builder.Execution.{Moments, check_execution}
use lunar_terrain_builder.TileKey.{LunarTileKey}
use lunar_terrain_builder.Database.Index.{TileIndexEntry}
use lunar_terrain_builder.Database.Index.Order.{IsIndex}
use lunar_terrain_builder.Database.Open.{DatabaseState}
use lunar_terrain_builder.Database.Tiles.{DecodedTerrainTile}
use lunar_terrain_builder.Operators.{
  DiffReport, compare_matching_tile, remove_tile, add_tile, diff_tiles,
}
use lunar_terrain_builder.Operators.Minus.{minus}
use lunar_terrain_builder.Operators.Matched.{matched}
use lunar_terrain_builder.Operators.Noted.{compare-PairReport}
use lunar_terrain_builder.Operators.Rounds.{
  Reported, key_codes, removed-Reported, added-Reported, noted-Reported, removed_last, added_last,
}

module _ (read : DatabaseState → LunarTileKey → Result DecodedTerrainTile) (moments : Moments)
    (bd ad : DatabaseState) where
  -- Where the loop over two indexes in order of their keys ends, it has added to the report: as
  -- removed the tiles of the first whose key the second does not have, as added those of the second
  -- whose key the first does not have, and of the tiles in both, under each heading, those whose
  -- dependency hash, content hash or place differs.
  pub diff_tiles-Reported :
      (before after : List TileIndexEntry) (n : ℕ) (r s : DiffReport)
      → IsIndex before
      → IsIndex after
      → diff_tiles read moments bd ad before after n r ≡ success s
      → Reported before after r s
  unfolding diff_tiles IsIndex
  diff_tiles-Reported [] [] n r s sb sa h =
      let e : s ≡ r = cc in
      unfold minus matched in
      record {
        removed = ap (λ (t : DiffReport). key_codes t.removed_tiles) e ∙ sym (append-nil _);
        added = ap (λ (t : DiffReport). key_codes t.added_tiles) e ∙ sym (append-nil _);
        dependency = ap (λ (t : DiffReport). t.dependency_changes) e ∙ sym (append-nil _);
        content = ap (λ (t : DiffReport). t.content_changes) e ∙ sym (append-nil _);
        layout = ap (λ (t : DiffReport). t.package_layout_changes) e ∙ sym (append-nil _);
      }
  diff_tiles-Reported (b ∷ before) [] n r s sb sa h =
      let (ok, checked, more) = >>=-eq-success (check_execution (moments n)) _ h in
      removed_last b before r s (diff_tiles-Reported before [] (suc n) _ s sb.1 sa more)
  diff_tiles-Reported [] (a ∷ after) n r s sb sa h =
      let (ok, checked, more) = >>=-eq-success (check_execution (moments n)) _ h in
      added_last a after r s (diff_tiles-Reported [] after (suc n) _ s sb sa.1 more)
  diff_tiles-Reported (b ∷ before) (a ∷ after) n r s sb sa h =
      let (ok, checked, more) = >>=-eq-success (check_execution (moments n)) _ h in
      elim (Bool-cases (ltb b.key.encoded a.key.encoded)) [
        | inl less ↦
            let t : diff_tiles read moments bd ad before (a ∷ after) (suc n) (remove_tile r b.key)
                ≡ success s =
              rw less at more in
            removed-Reported b a before after r s sb sa (ground arith)
              (diff_tiles-Reported before (a ∷ after) (suc n) _ s sb.1 sa t)
        | inr not_less ↦ elim (Bool-cases (ltb a.key.encoded b.key.encoded)) [
          | inl less ↦
              let t : diff_tiles read moments bd ad (b ∷ before) after (suc n) (add_tile r a.key)
                  ≡ success s =
                rw (not_less, less) at more in
              added-Reported b a before after r s sb sa (ground arith)
                (diff_tiles-Reported (b ∷ before) after (suc n) _ s sb sa.1 t)
          | inr same ↦
              let t : (compare_matching_tile read moments bd ad b a r
                    >>= diff_tiles read moments bd ad before after (suc n))
                  ≡ success s =
                rw (not_less, same) at more in
              let (noted, compared, rest) =
                >>=-eq-success (compare_matching_tile read moments bd ad b a r) _ t in
              noted-Reported b a before after r s sb sa noted (ground arith)
                (compare-PairReport read moments bd ad b a r noted compared)
                (diff_tiles-Reported before after (suc n) noted s sb.1 sa.1 rest)
        ]
      ]
