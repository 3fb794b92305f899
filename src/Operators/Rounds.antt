-- ===== src/Operators/Rounds.antt =====
-- What one round of the loop over two indexes adds to the report.
use lunar_terrain_builder.Base.{
  ℕ, ◌<◌, ◌≡◌, ◌∙◌, refl, sym, ap, Bool, List, [], ◌∷◌, ◌++◌, map, All,
}
use mathlib.Core.List.{append_assoc}
use lunar_terrain_builder.TileKey.{LunarTileKey}
use lunar_terrain_builder.Database.Index.{TileIndexEntry, mem}
use lunar_terrain_builder.Database.Index.Order.{IsIndex}
use lunar_terrain_builder.Operators.{
  DiffReport, content_changed, placed_elsewhere, remove_tile, add_tile,
}
use lunar_terrain_builder.Operators.Minus.{IsSorted, minus}
use lunar_terrain_builder.Operators.Keys.{take_first, skip_first, skip_both}
use lunar_terrain_builder.Operators.Matched.{
  only, matched, matched-nil, matched-less, matched-more, matched_same,
}
use lunar_terrain_builder.Operators.Noted.{dependency_changed, PairReport}

abbrev pub key_codes : List LunarTileKey → List ℕ
key_codes = map (λ (k : LunarTileKey). k.encoded)

abbrev pub entry_codes : List TileIndexEntry → List ℕ
entry_codes = map (λ (e : TileIndexEntry). e.key.encoded)

-- What the loop over two indexes has added to the report.
pub record Reported (before after : List TileIndexEntry) (r s : DiffReport) : Type 0 where
  pub removed :
      key_codes s.removed_tiles
      ≡ key_codes r.removed_tiles ++ minus (entry_codes before) (entry_codes after)
  pub added :
      key_codes s.added_tiles
      ≡ key_codes r.added_tiles ++ minus (entry_codes after) (entry_codes before)
  pub dependency :
      s.dependency_changes ≡ r.dependency_changes ++ matched dependency_changed before after
  pub content : s.content_changes ≡ r.content_changes ++ matched content_changed before after
  pub layout :
      s.package_layout_changes ≡ r.package_layout_changes ++ matched placed_elsewhere before after

codes-above :
    (n : ℕ) (entries : List TileIndexEntry)
    → All (λ (e : TileIndexEntry). n < e.key.encoded) entries
    → All (λ m. n < m) (entry_codes entries)
codes-above n [] all = tt
codes-above n (e ∷ rest) all = (all.0, codes-above n rest all.1)

pub IsIndex-IsSorted :
    (entries : List TileIndexEntry) → IsIndex entries → IsSorted (entry_codes entries)
unfolding IsIndex
IsIndex-IsSorted [] h = tt
IsIndex-IsSorted (e ∷ rest) h = (codes-above e.key.encoded rest h.0, IsIndex-IsSorted rest h.1)

key_codes-snoc :
    (ks : List LunarTileKey) (k : LunarTileKey)
    → key_codes (ks ++ k ∷ []) ≡ key_codes ks ++ k.encoded ∷ []
key_codes-snoc [] k = refl
key_codes-snoc (j ∷ ks) k = ap (◌∷◌ j.encoded) (key_codes-snoc ks k)

-- One round of the loop, seen from its end.
module _ (b a : TileIndexEntry) (before after : List TileIndexEntry) (r s : DiffReport)
    (sb : IsIndex (b ∷ before)) (sa : IsIndex (a ∷ after)) where
  pub removed-Reported :
      b.key.encoded < a.key.encoded
      → Reported before (a ∷ after) (remove_tile r b.key) s
      → Reported (b ∷ before) (a ∷ after) r s
  unfolding remove_tile
  removed-Reported less rest = record {
    removed =
        rest.removed
        ∙ ap (λ (t : List ℕ). t ++ minus (entry_codes before) (entry_codes (a ∷ after)))
            (key_codes-snoc r.removed_tiles b.key)
        ∙ take_first _ _ (entry_codes before) (entry_codes after) _ less
            (IsIndex-IsSorted (a ∷ after) sa);
    added =
        rest.added
        ∙ skip_first _ _ (entry_codes before) (entry_codes after) _ less
            (IsIndex-IsSorted (a ∷ after) sa);
    dependency =
        rest.dependency
        ∙ ap (λ t. r.dependency_changes ++ t)
            (sym (matched-less dependency_changed b a before after less));
    content =
        rest.content
        ∙ ap (λ t. r.content_changes ++ t)
            (sym (matched-less content_changed b a before after less));
    layout =
        rest.layout
        ∙ ap (λ t. r.package_layout_changes ++ t)
            (sym (matched-less placed_elsewhere b a before after less));
  }

  pub added-Reported :
      a.key.encoded < b.key.encoded
      → Reported (b ∷ before) after (add_tile r a.key) s
      → Reported (b ∷ before) (a ∷ after) r s
  unfolding add_tile
  added-Reported more rest = record {
    removed =
        rest.removed
        ∙ skip_first _ _ (entry_codes after) (entry_codes before) _ more
            (IsIndex-IsSorted (b ∷ before) sb);
    added =
        rest.added
        ∙ ap (λ (t : List ℕ). t ++ minus (entry_codes after) (entry_codes (b ∷ before)))
            (key_codes-snoc r.added_tiles a.key)
        ∙ take_first _ _ (entry_codes after) (entry_codes before) _ more
            (IsIndex-IsSorted (b ∷ before) sb);
    dependency =
        rest.dependency
        ∙ ap (λ t. r.dependency_changes ++ t)
            (sym (matched-more dependency_changed b a before after more sb));
    content =
        rest.content
        ∙ ap (λ t. r.content_changes ++ t)
            (sym (matched-more content_changed b a before after more sb));
    layout =
        rest.layout
        ∙ ap (λ t. r.package_layout_changes ++ t)
            (sym (matched-more placed_elsewhere b a before after more sb));
  }

  pub noted-Reported :
      (noted : DiffReport)
      → b.key.encoded ≡ a.key.encoded
      → PairReport b a r noted
      → Reported before after noted s
      → Reported (b ∷ before) (a ∷ after) r s
  noted-Reported noted same note rest = record {
    removed =
        rest.removed
        ∙ ap (λ t. key_codes t ++ minus (entry_codes before) (entry_codes after)) note.removed
        ∙ skip_both _ _ (entry_codes before) (entry_codes after) _ same
            (IsIndex-IsSorted (b ∷ before) sb);
    added =
        rest.added
        ∙ ap (λ t. key_codes t ++ minus (entry_codes after) (entry_codes before)) note.added
        ∙ skip_both _ _ (entry_codes after) (entry_codes before) _ (sym same)
            (IsIndex-IsSorted (a ∷ after) sa);
    dependency =
        rest.dependency
        ∙ joined dependency_changed r.dependency_changes noted.dependency_changes note.dependency;
    content =
        rest.content ∙ joined content_changed r.content_changes noted.content_changes note.content;
    layout =
        rest.layout
        ∙ joined placed_elsewhere r.package_layout_changes noted.package_layout_changes note.layout;
  }
    where
      joined :
          (test : TileIndexEntry → TileIndexEntry → Bool) (old new : List LunarTileKey)
          → new ≡ old ++ only (test b a) b.key
          → new ++ matched test before after ≡ old ++ matched test (b ∷ before) (a ∷ after)
      joined test old new e =
          ap (λ t. t ++ matched test before after) e
          ∙ append_assoc old (only (test b a) b.key) (matched test before after)
          ∙ ap (λ t. old ++ t) (sym (matched_same test b a before after same sb))

pub removed_last :
    (b : TileIndexEntry) (before : List TileIndexEntry) (r s : DiffReport)
    → Reported before [] (remove_tile r b.key) s
    → Reported (b ∷ before) [] r s
unfolding remove_tile minus mem
removed_last b before r s rest = record {
  removed =
      rest.removed
      ∙ ap (λ t. t ++ minus (entry_codes before) []) (key_codes-snoc r.removed_tiles b.key)
      ∙ append_assoc (key_codes r.removed_tiles) (b.key.encoded ∷ [])
          (minus (entry_codes before) []);
  added = rest.added;
  dependency = rest.dependency ∙ ap (λ t. r.dependency_changes ++ t) (gone dependency_changed);
  content = rest.content ∙ ap (λ t. r.content_changes ++ t) (gone content_changed);
  layout = rest.layout ∙ ap (λ t. r.package_layout_changes ++ t) (gone placed_elsewhere);
}
  where
    gone :
        (test : TileIndexEntry → TileIndexEntry → Bool)
        → matched test before [] ≡ matched test (b ∷ before) []
    gone test = matched-nil test before ∙ sym (matched-nil test (b ∷ before))

pub added_last :
    (a : TileIndexEntry) (after : List TileIndexEntry) (r s : DiffReport)
    → Reported [] after (add_tile r a.key) s
    → Reported [] (a ∷ after) r s
unfolding add_tile minus matched mem
added_last a after r s rest = record {
  removed = rest.removed;
  added =
      rest.added
      ∙ ap (λ t. t ++ minus (entry_codes after) []) (key_codes-snoc r.added_tiles a.key)
      ∙ append_assoc (key_codes r.added_tiles) (a.key.encoded ∷ []) (minus (entry_codes after) []);
  dependency = rest.dependency;
  content = rest.content;
  layout = rest.layout;
}
