-- ===== src/Operators/Noted.antt =====
-- What a pair of entries with one key adds to the report.
use lunar_terrain_builder.Base.{
  ◌≡◌, ◌∙◌, inl, inr, sym, ap, subst, arith, Bool, not, List, [], ◌∷◌, ◌++◌, Bool-cases,
  if◌then◌else◌,
}
use mathlib.Core.List.{append-nil}
use lunar_terrain_builder.Error.{Result, success, >>=-eq-success}
use lunar_terrain_builder.Execution.{Moments}
use lunar_terrain_builder.TileKey.{LunarTileKey}
use lunar_terrain_builder.TileKey.Text.{bytes_eq}
use lunar_terrain_builder.Database.Index.{TileIndexEntry}
use lunar_terrain_builder.Database.Open.{DatabaseState}
use lunar_terrain_builder.Database.Tiles.{DecodedTerrainTile}
use lunar_terrain_builder.Operators.{
  DiffReport, note_dependency, content_changed, placed_elsewhere, note_layout, note_provenance,
  note_content, compare_matching_tile,
}
use lunar_terrain_builder.Operators.Matched.{only}

pub dependency_changed : TileIndexEntry → TileIndexEntry → Bool
dependency_changed b a = not (bytes_eq b.dependency_hash_prefix a.dependency_hash_prefix)

pub record PairReport (b a : TileIndexEntry) (r s : DiffReport) : Type 0 where
  pub removed : s.removed_tiles ≡ r.removed_tiles
  pub added : s.added_tiles ≡ r.added_tiles
  pub dependency :
      s.dependency_changes ≡ r.dependency_changes ++ only (dependency_changed b a) b.key
  pub content : s.content_changes ≡ r.content_changes ++ only (content_changed b a) b.key
  pub layout :
      s.package_layout_changes ≡ r.package_layout_changes ++ only (placed_elsewhere b a) b.key

module _ (read : DatabaseState → LunarTileKey → Result DecodedTerrainTile) (moments : Moments)
    (bd ad : DatabaseState) where
  note_layout-PairReport :
      (b a : TileIndexEntry) (r noted : DiffReport)
      → noted.removed_tiles ≡ r.removed_tiles
      → noted.added_tiles ≡ r.added_tiles
      → noted.dependency_changes ≡ r.dependency_changes ++ only (dependency_changed b a) b.key
      → noted.content_changes ≡ r.content_changes ++ only (content_changed b a) b.key
      → noted.package_layout_changes ≡ r.package_layout_changes
      → PairReport b a r (note_layout b a noted)
  unfolding note_layout only
  note_layout-PairReport b a r noted e f g h k = elim (Bool-cases (placed_elsewhere b a)) [
    | inl yes' ↦ rw yes' (record {
      removed = e;
      added = f;
      dependency = g;
      content = h;
      layout = rw yes' (ap (λ (t : List LunarTileKey). t ++ b.key ∷ []) k);
    })
    | inr no' ↦ rw no' (record {
      removed = e;
      added = f;
      dependency = g;
      content = h;
      layout = rw no' (k ∙ sym (append-nil _));
    })
  ]

  noted_fields :
      (b a : TileIndexEntry) (r noted : DiffReport)
      → (if content_changed b a
          then note_content read moments bd ad b a (note_dependency b a r)
          else success (note_dependency b a r))
        ≡ success noted
      → PairReport b a r (note_layout b a noted)
  unfolding note_content note_dependency note_provenance dependency_changed only
  noted_fields b a r noted made = elim (Bool-cases (content_changed b a)) [
    | inl changed ↦
        let t : note_content read moments bd ad b a (note_dependency b a r) ≡ success noted =
          rw changed at made in
        let (bt, reads, more) = >>=-eq-success (read bd b.key) _ t in
        let (at, reads', last) = >>=-eq-success (read ad a.key) _ more in
        let e : noted
            ≡ note_provenance bt at b.key (record (note_dependency b a r) {
              content_changes = (note_dependency b a r).content_changes ++ b.key ∷ [];
            }) =
          cc in
        rw e (
          note_layout-PairReport b a r _ (ground arith) (ground arith)
            (ground (arith, append-nil r.dependency_changes)) (rw changed (ground arith))
            (ground arith))
    | inr same ↦
        let t : success (note_dependency b a r) ≡ success noted = rw same at made in
        let e : noted ≡ note_dependency b a r = cc in
        rw e (
          note_layout-PairReport b a r _ (ground arith) (ground arith)
            (ground (arith, append-nil r.dependency_changes))
            (rw same (ground (arith, append-nil r.content_changes))) (ground arith))
  ]

  pub compare-PairReport :
      (b a : TileIndexEntry) (r s : DiffReport)
      → compare_matching_tile read moments bd ad b a r ≡ success s
      → PairReport b a r s
  unfolding compare_matching_tile note_content
  compare-PairReport b a r s h =
      let (noted, made, last) =
        >>=-eq-success
          (if content_changed b a
            then note_content read moments bd ad b a (note_dependency b a r)
            else success (note_dependency b a r))
          _ h in
      let e : note_layout b a noted ≡ s = cc in
      subst (PairReport b a r) e (noted_fields b a r noted made)
