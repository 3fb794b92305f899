-- ===== src/Operators/Same.antt =====
-- What the comparison reads of two databases, and the registries' part of the report.
use lunar_terrain_builder.Base.{
  Bool-cases, List, String, [], ap, ap₂, arith, false, inl, inr, ltb, refl, true, ℕ, ◌↔◌, ◌∙◌, ◌∷◌,
  ◌≡◌,
}
use lunar_terrain_builder.TileKey.{LunarTileKey}
use lunar_terrain_builder.TileKey.Layout.{encoded-eq}
use lunar_terrain_builder.TileKey.Text.Equality.{bytes_eq→eq, eq→bytes_eq}
use lunar_terrain_builder.Database.Packs.{PackInfo}
use lunar_terrain_builder.Database.Index.{TileIndexEntry}
use lunar_terrain_builder.Database.Open.{DatabaseState}
use lunar_terrain_builder.Operators.{
  DiffReport, add_dataset, diff_dataset_ids, is_empty, identical, pack_eq, registries_report,
  remove_dataset, same_pack_layout, start_report,
}
use lunar_terrain_builder.Operators.Report.{removed_dataset, added_dataset}

-- Two lists of the same length whose elements correspond one by one.
abbrev pub Corresponds {ℓ} : {A : Type ℓ} → (A → A → Type 0) → List A → List A → Type 0
Corresponds R [] [] = Unit
Corresponds R [] (y ∷ ys) = ⊥
Corresponds R (x ∷ xs) [] = ⊥
Corresponds R (x ∷ xs) (y ∷ ys) = R x y × Corresponds R xs ys

-- What the comparison looks at in a pack: its default codec and its hash are not among it.
pub record SamePack (b a : PackInfo) : Type 0 where
  pub id : b.id ≡ a.id
  pub relative_path : b.relative_path ≡ a.relative_path
  pub tile_count : b.tile_count ≡ a.tile_count
  pub file_bytes : b.file_bytes ≡ a.file_bytes
  pub first_key : b.first_key ≡ a.first_key
  pub last_key : b.last_key ≡ a.last_key

-- What it looks at in an entry of the tile index.
pub record SameEntry (b a : TileIndexEntry) : Type 0 where
  pub key : b.key ≡ a.key
  pub dependency : b.dependency_hash_prefix ≡ a.dependency_hash_prefix
  pub content : b.content_hash_prefix ≡ a.content_hash_prefix
  pub pack_id : b.pack_id ≡ a.pack_id
  pub payload_offset : b.payload_offset ≡ a.payload_offset
  pub stored_bytes : b.stored_bytes ≡ a.stored_bytes

pub record SameDatabase (b a : DatabaseState) : Type 0 where
  pub registry : b.header.dataset_registry_hash ≡ a.header.dataset_registry_hash
  pub configuration : b.header.builder_configuration_hash ≡ a.header.builder_configuration_hash
  pub datasets : b.dataset_ids ≡ a.dataset_ids
  pub packs : Corresponds SamePack b.packs a.packs
  pub index : Corresponds SameEntry b.index a.index

pack_eq-SamePack : (b a : PackInfo) → pack_eq b a ≡ true → SamePack b a
unfolding pack_eq
pack_eq-SamePack b a h = record {
  id = ground arith;
  relative_path = bytes_eq→eq b.relative_path a.relative_path (ground arith);
  tile_count = ground arith;
  file_bytes = ground arith;
  first_key = encoded-eq (ground arith);
  last_key = encoded-eq (ground arith);
}

SamePack-pack_eq : (b a : PackInfo) → SamePack b a → pack_eq b a ≡ true
unfolding pack_eq
SamePack-pack_eq b a s =
    let first : b.first_key.encoded ≡ a.first_key.encoded =
      ap (λ (k : LunarTileKey). k.encoded) s.first_key in
    let last : b.last_key.encoded ≡ a.last_key.encoded =
      ap (λ (k : LunarTileKey). k.encoded) s.last_key in
    ground (
      arith,
      eq→bytes_eq b.relative_path a.relative_path s.relative_path,
      s.id,
      s.tile_count,
      s.file_bytes,
    )

pub same_packs :
    (before after : List PackInfo)
    → (same_pack_layout before after ≡ true) ↔ Corresponds SamePack before after
unfolding same_pack_layout
same_packs [] [] = (λ h. tt, λ h. refl)
same_packs [] (a ∷ after) = (λ h. cc, λ h. absurd h)
same_packs (b ∷ before) [] = (λ h. cc, λ h. absurd h)
same_packs (b ∷ before) (a ∷ after) = (
  λ h. (pack_eq-SamePack b a (ground arith), (same_packs before after).0 (ground arith)),
  λ (s, rest). rw (SamePack-pack_eq b a s) ((same_packs before after).1 rest),
)

pub diff_dataset_ids-identical :
    (before after : List ℕ) (r : DiffReport)
    → identical (diff_dataset_ids before after r) ≡ true
    → (before ≡ after) × (identical r ≡ true)
unfolding diff_dataset_ids
diff_dataset_ids-identical [] [] r h = (refl, h)
diff_dataset_ids-identical (b ∷ before) [] r h =
    absurd (removed_dataset r b (diff_dataset_ids-identical before [] _ h).1)
diff_dataset_ids-identical [] (a ∷ after) r h =
    absurd (added_dataset r a (diff_dataset_ids-identical [] after _ h).1)
diff_dataset_ids-identical (b ∷ before) (a ∷ after) r h = elim (Bool-cases (ltb b a)) [
  | inl less ↦
      let t : identical (diff_dataset_ids before (a ∷ after) (remove_dataset r b)) ≡ true =
        rw (less, diff_dataset_ids) at h in
      absurd (removed_dataset r b (diff_dataset_ids-identical before (a ∷ after) _ t).1)
  | inr more ↦ elim (Bool-cases (ltb a b)) [
    | inl less ↦
        let t : identical (diff_dataset_ids (b ∷ before) after (add_dataset r a)) ≡ true =
          rw (more, less, diff_dataset_ids) at h in
        absurd (added_dataset r a (diff_dataset_ids-identical (b ∷ before) after _ t).1)
    | inr same ↦
        let t : identical (diff_dataset_ids before after r) ≡ true =
          rw (more, same, diff_dataset_ids) at h in
        let (rest, quiet) = diff_dataset_ids-identical before after r t in
        let e : b ≡ a = ground arith in (ap₂ (◌∷◌) e rest, quiet)
  ]
]

pub diff_dataset_ids_self : (ids : List ℕ) (r : DiffReport) → diff_dataset_ids ids ids r ≡ r
unfolding diff_dataset_ids
diff_dataset_ids_self [] r = refl
diff_dataset_ids_self (b ∷ ids) r =
    let e : ltb b b ≡ false = ground arith in
    rw (e, diff_dataset_ids) (rw e (diff_dataset_ids_self ids r))

diff_dataset_ids-layout :
    (before after : List ℕ) (r : DiffReport)
    → (diff_dataset_ids before after r).package_layout_changed ≡ r.package_layout_changed
unfolding diff_dataset_ids remove_dataset add_dataset
diff_dataset_ids-layout [] [] r = refl
diff_dataset_ids-layout (b ∷ before) [] r = diff_dataset_ids-layout before [] _
diff_dataset_ids-layout [] (a ∷ after) r = diff_dataset_ids-layout [] after _
diff_dataset_ids-layout (b ∷ before) (a ∷ after) r = elim (Bool-cases (ltb b a)) [
  | inl less ↦ rw (less, diff_dataset_ids) (diff_dataset_ids-layout before (a ∷ after) _)
  | inr more ↦ elim (Bool-cases (ltb a b)) [
    | inl less ↦ rw (more, less, diff_dataset_ids) (diff_dataset_ids-layout (b ∷ before) after _)
    | inr same ↦ rw (more, same, diff_dataset_ids) (diff_dataset_ids-layout before after r)
  ]
]

module _ (bd ad : DatabaseState) (before_path after_path : String) where
  pub start_report-identical : (identical (start_report bd ad before_path after_path) ≡ true) ↔ (
      (bd.header.dataset_registry_hash ≡ ad.header.dataset_registry_hash)
      × (bd.header.builder_configuration_hash ≡ ad.header.builder_configuration_hash))
  unfolding start_report identical is_empty
  start_report-identical = (
    λ h. (
      bytes_eq→eq bd.header.dataset_registry_hash ad.header.dataset_registry_hash (ground arith),
      bytes_eq→eq bd.header.builder_configuration_hash ad.header.builder_configuration_hash
          (ground arith),
    ),
    λ (e, f). ground (
      arith,
      eq→bytes_eq bd.header.dataset_registry_hash ad.header.dataset_registry_hash e,
      eq→bytes_eq bd.header.builder_configuration_hash ad.header.builder_configuration_hash f,
    ),
  )

  pub registries-identical : (identical (registries_report bd ad before_path after_path) ≡ true) ↔ (
      (identical (
          diff_dataset_ids bd.dataset_ids ad.dataset_ids
            (start_report bd ad before_path after_path))
        ≡ true)
      × (same_pack_layout bd.packs ad.packs ≡ true))
  unfolding registries_report identical
  registries-identical =
      let unchanged : (diff_dataset_ids bd.dataset_ids ad.dataset_ids
            (start_report bd ad before_path after_path)).package_layout_changed
          ≡ false =
        diff_dataset_ids-layout bd.dataset_ids ad.dataset_ids _ ∙ unfold start_report in refl in
      (λ h. (ground arith, ground arith), λ h. ground arith)
