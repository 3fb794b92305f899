-- ===== src/Operators/Identical.antt =====
-- When a comparison reports nothing: `DiffReport::identical` against the databases themselves.
use lunar_terrain_builder.Base.{
  ℕ, suc, ◌≡◌, ◌↔◌, ◌∙◌, inl, inr, refl, sym, ap, subst, arith, String, true, false, List, [], ◌∷◌,
  ◌++◌, ltb, Bool-cases, if◌then◌else◌,
}
use lunar_terrain_builder.Error.{Result, success, ◌>>=◌, >>=-eq-success}
use lunar_terrain_builder.Execution.{Moments, check_execution}
use lunar_terrain_builder.TileKey.{LunarTileKey}
use lunar_terrain_builder.TileKey.Layout.{encoded-eq}
use lunar_terrain_builder.TileKey.Text.Equality.{bytes_eq→eq, eq→bytes_eq}
use lunar_terrain_builder.Database.Index.{TileIndexEntry}
use lunar_terrain_builder.Database.Open.{DatabaseState}
use lunar_terrain_builder.Database.Tiles.{DecodedTerrainTile}
use lunar_terrain_builder.Operators.{
  DiffReport, identical, diff_dataset_ids, note_dependency, content_changed, placed_elsewhere,
  note_layout, note_provenance, remove_tile, add_tile, note_content, compare_matching_tile,
  diff_tiles, start_report, registries_report, settle_layout, diff_states,
}
use lunar_terrain_builder.Operators.Report.{
  removed_tile, added_tile, changed_content, kept_provenance, kept_dependency, kept_layout, settled,
}
use lunar_terrain_builder.Operators.Same.{
  Corresponds, SameEntry, SameDatabase, same_packs, diff_dataset_ids-identical,
  diff_dataset_ids_self, start_report-identical, registries-identical,
}

changed-content :
    (b a : TileIndexEntry)
    → content_changed b a ≡ false
    → b.content_hash_prefix ≡ a.content_hash_prefix
unfolding content_changed
changed-content b a h = bytes_eq→eq b.content_hash_prefix a.content_hash_prefix (ground arith)

module _ (read : DatabaseState → LunarTileKey → Result DecodedTerrainTile) (moments : Moments)
    (bd ad : DatabaseState) where
  note_content-loud :
      (b a : TileIndexEntry) (r s : DiffReport)
      → note_content read moments bd ad b a r ≡ success s
      → identical s ≡ true
      → ⊥
  unfolding note_content
  note_content-loud b a r s h quiet =
      let (bt, reads, more) = >>=-eq-success (read bd b.key) _ h in
      let (at, reads', last) = >>=-eq-success (read ad a.key) _ more in
      let e : s
          ≡ note_provenance bt at b.key
              (record r { content_changes = r.content_changes ++ b.key ∷ [] }) =
        cc in
      changed_content r b.key
        (kept_provenance _ bt at b.key (subst (λ (t : DiffReport). identical t ≡ true) e quiet))

  -- A pair that leaves the report without a change.
  compare-identical :
      (b a : TileIndexEntry) (r s : DiffReport)
      → b.key ≡ a.key
      → compare_matching_tile read moments bd ad b a r ≡ success s
      → identical s ≡ true
      → SameEntry b a × (identical r ≡ true)
  unfolding compare_matching_tile
  compare-identical b a r s key h quiet =
      let (noted, made, last) =
        >>=-eq-success
          (if content_changed b a
            then note_content read moments bd ad b a (note_dependency b a r)
            else success (note_dependency b a r))
          _ h in
      let e : s ≡ note_layout b a noted = cc in
      let (same_place, noted_quiet) =
        kept_layout noted b a (subst (λ (t : DiffReport). identical t ≡ true) e quiet) in
      elim (Bool-cases (content_changed b a)) [
        | inl changed ↦
            let t : note_content read moments bd ad b a (note_dependency b a r) ≡ success noted =
              rw changed at made in
            absurd (note_content-loud b a _ noted t noted_quiet)
        | inr same ↦
            let t : success (note_dependency b a r) ≡ success noted = rw same at made in
            let f : noted ≡ note_dependency b a r = cc in
            let (hash, before_quiet) =
              kept_dependency r b a
                (subst (λ (t : DiffReport). identical t ≡ true) f noted_quiet) in
            (
              record {
                key = key;
                dependency = bytes_eq→eq b.dependency_hash_prefix a.dependency_hash_prefix hash;
                content = changed-content b a same;
                pack_id = unfold placed_elsewhere in ground arith;
                payload_offset = unfold placed_elsewhere in ground arith;
                stored_bytes = unfold placed_elsewhere in ground arith;
              },
              before_quiet,
            )
      ]

  compare-SameEntry :
      (b a : TileIndexEntry) (r : DiffReport)
      → SameEntry b a
      → compare_matching_tile read moments bd ad b a r ≡ success r
  unfolding compare_matching_tile content_changed note_dependency note_layout placed_elsewhere
  compare-SameEntry b a r s = ground (
    arith,
    eq→bytes_eq b.dependency_hash_prefix a.dependency_hash_prefix s.dependency,
    eq→bytes_eq b.content_hash_prefix a.content_hash_prefix s.content,
    s.pack_id,
    s.payload_offset,
    s.stored_bytes,
  )

  diff_tiles-identical :
      (before after : List TileIndexEntry) (n : ℕ) (r s : DiffReport)
      → diff_tiles read moments bd ad before after n r ≡ success s
      → identical s ≡ true
      → Corresponds SameEntry before after × (identical r ≡ true)
  unfolding diff_tiles
  diff_tiles-identical [] [] n r s h quiet =
      let e : s ≡ r = cc in (tt, subst (λ (t : DiffReport). identical t ≡ true) e quiet)
  diff_tiles-identical (b ∷ before) [] n r s h quiet =
      let (ok, checked, more) = >>=-eq-success (check_execution (moments n)) _ h in
      absurd (removed_tile r b.key (diff_tiles-identical before [] (suc n) _ s more quiet).1)
  diff_tiles-identical [] (a ∷ after) n r s h quiet =
      let (ok, checked, more) = >>=-eq-success (check_execution (moments n)) _ h in
      absurd (added_tile r a.key (diff_tiles-identical [] after (suc n) _ s more quiet).1)
  diff_tiles-identical (b ∷ before) (a ∷ after) n r s h quiet =
      let (ok, checked, more) = >>=-eq-success (check_execution (moments n)) _ h in
      elim (Bool-cases (ltb b.key.encoded a.key.encoded)) [
        | inl less ↦
            let t : diff_tiles read moments bd ad before (a ∷ after) (suc n) (remove_tile r b.key)
                ≡ success s =
              rw less at more in
            absurd
              (removed_tile r b.key (diff_tiles-identical before (a ∷ after) (suc n) _ s t quiet).1)
        | inr not_less ↦ elim (Bool-cases (ltb a.key.encoded b.key.encoded)) [
          | inl less ↦
              let t : diff_tiles read moments bd ad (b ∷ before) after (suc n) (add_tile r a.key)
                  ≡ success s =
                rw (not_less, less) at more in
              absurd
                (added_tile r a.key (diff_tiles-identical (b ∷ before) after (suc n) _ s t quiet).1)
          | inr same ↦
              let t : (compare_matching_tile read moments bd ad b a r
                    >>= diff_tiles read moments bd ad before after (suc n))
                  ≡ success s =
                rw (not_less, same) at more in
              let (noted, compared, rest) =
                >>=-eq-success (compare_matching_tile read moments bd ad b a r) _ t in
              let (others, noted_quiet) =
                diff_tiles-identical before after (suc n) noted s rest quiet in
              let key : b.key ≡ a.key = encoded-eq (ground arith) in
              let (entry, before_quiet) = compare-identical b a r noted key compared noted_quiet in
              ((entry, others), before_quiet)
        ]
      ]

  diff_tiles-SameEntry :
      (before after : List TileIndexEntry) (n : ℕ) (r s : DiffReport)
      → Corresponds SameEntry before after
      → diff_tiles read moments bd ad before after n r ≡ success s
      → s ≡ r
  unfolding diff_tiles
  diff_tiles-SameEntry [] [] n r s same h = cc
  diff_tiles-SameEntry (b ∷ before) [] n r s same h = absurd same
  diff_tiles-SameEntry [] (a ∷ after) n r s same h = absurd same
  diff_tiles-SameEntry (b ∷ before) (a ∷ after) n r s (entry, others) h =
      let (ok, checked, more) = >>=-eq-success (check_execution (moments n)) _ h in
      let key : b.key.encoded ≡ a.key.encoded = ap (λ (k : LunarTileKey). k.encoded) entry.key in
      let not_less : ltb b.key.encoded a.key.encoded ≡ false = ground arith in
      let not_more : ltb a.key.encoded b.key.encoded ≡ false = ground arith in
      let t : diff_tiles read moments bd ad before after (suc n) r ≡ success s =
        rw (not_less, not_more, compare-SameEntry b a r entry) at more in
      diff_tiles-SameEntry before after (suc n) r s others t

  -- Where the comparison of two opened databases succeeds, its report is `identical` exactly when the
  -- databases agree in the hashes of the registry and of the builder's configuration, in their
  -- datasets, in all that the comparison reads of their packs, and, entry by entry, in the keys, the
  -- hashes and the places of their tiles.
  pub diff_states-identical_iff :
      (before_path after_path : String) (report : DiffReport)
      → diff_states read moments bd ad before_path after_path ≡ success report
      → (identical report ≡ true) ↔ SameDatabase bd ad
  unfolding diff_states
  diff_states-identical_iff before_path after_path report h =
      let start = registries_report bd ad before_path after_path in
      let (s, walked, last) =
        >>=-eq-success (diff_tiles read moments bd ad bd.index ad.index 1 start) _ h in
      let e : report ≡ settle_layout s = cc in
      let level : identical report ≡ identical s = ap identical e ∙ settled s in
      (
        λ quiet.
            let (entries, rest) =
              diff_tiles-identical bd.index ad.index 1 start s walked (sym level ∙ quiet) in
            let (ids, packs) = (registries-identical bd ad before_path after_path).0 rest in
            let (datasets, first) =
              diff_dataset_ids-identical bd.dataset_ids ad.dataset_ids _ ids in
            let (registry, configuration) =
              (start_report-identical bd ad before_path after_path).0 first in
            record {
              registry = registry;
              configuration = configuration;
              datasets = datasets;
              packs = (same_packs bd.packs ad.packs).0 packs;
              index = entries;
            },
        λ same.
            let first =
              (start_report-identical bd ad before_path after_path).1
                (same.registry, same.configuration) in
            let kept : diff_dataset_ids bd.dataset_ids ad.dataset_ids
                  (start_report bd ad before_path after_path)
                ≡ start_report bd ad before_path after_path =
              subst
                (λ (ids : List ℕ).
                  diff_dataset_ids bd.dataset_ids ids (start_report bd ad before_path after_path)
                  ≡ start_report bd ad before_path after_path)
                same.datasets (diff_dataset_ids_self bd.dataset_ids _) in
            level
            ∙ ap identical (diff_tiles-SameEntry bd.index ad.index 1 start s same.index walked)
            ∙ (registries-identical bd ad before_path after_path).1
                (ap identical kept ∙ first, (same_packs bd.packs ad.packs).1 same.packs),
      )

  tiles_succeed :
      (before after : List TileIndexEntry) (n : ℕ) (r : DiffReport)
      → ((i : ℕ) → check_execution (moments i) ≡ success tt)
      → Corresponds SameEntry before after
      → diff_tiles read moments bd ad before after n r ≡ success r
  unfolding diff_tiles
  tiles_succeed [] [] n r ok same = refl
  tiles_succeed [] (a ∷ after) n r ok same = absurd same
  tiles_succeed (b ∷ before) [] n r ok same = absurd same
  tiles_succeed (b ∷ before) (a ∷ after) n r ok (entry, others) =
      let key : b.key.encoded ≡ a.key.encoded = ap (λ (k : LunarTileKey). k.encoded) entry.key in
      let not_less : ltb b.key.encoded a.key.encoded ≡ false = ground arith in
      let not_more : ltb a.key.encoded b.key.encoded ≡ false = ground arith in
      rw (ok n, not_less, not_more, compare-SameEntry b a r entry)
        (tiles_succeed before after (suc n) r ok others)

  -- Where no check stops it, the comparison of two databases that agree in all it reads succeeds,
  -- whatever reading a tile would do, and its report is `identical`.
  pub diff_states-SameDatabase :
      (before_path after_path : String)
      → ((i : ℕ) → check_execution (moments i) ≡ success tt)
      → SameDatabase bd ad
      → (report : DiffReport) × (diff_states read moments bd ad before_path after_path
          ≡ success report)
        × (identical report ≡ true)
  unfolding diff_states
  diff_states-SameDatabase before_path after_path ok same =
      let walked =
        tiles_succeed bd.index ad.index 1 (registries_report bd ad before_path after_path) ok
          same.index in
      let done : diff_states read moments bd ad before_path after_path
          ≡ success (settle_layout (registries_report bd ad before_path after_path)) =
        rw walked refl in
      (_, done, (diff_states-identical_iff before_path after_path _ done).1 same)
