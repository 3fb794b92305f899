-- ===== src/Operators/Keys.antt =====
-- Which datasets and tiles a comparison reports as added and removed.
use lunar_terrain_builder.Base.{
  ℕ, ◌<◌, ◌≡◌, ◌∙◌, inl, inr, refl, sym, ap, arith, List, [], ◌∷◌, ◌++◌, ltb, Bool-cases,
}
use mathlib.Core.List.{append-nil, append_assoc}
use lunar_terrain_builder.Operators.{DiffReport, diff_dataset_ids, remove_dataset, add_dataset}
use lunar_terrain_builder.Operators.Minus.{IsSorted, minus, minus-nil, minus-less, minus_same}

-- The difference of ordered lists, one step of the walk at a time.
module _ (b a : ℕ) (before after done : List ℕ) where
  pub take_first :
      b < a
      → IsSorted (a ∷ after)
      → (done ++ b ∷ []) ++ minus before (a ∷ after) ≡ done ++ minus (b ∷ before) (a ∷ after)
  take_first less sorted =
      append_assoc done (b ∷ []) (minus before (a ∷ after))
      ∙ ap (λ (t : List ℕ). done ++ t) (sym (minus-less b a before after less sorted).0)

  pub skip_first :
      b < a
      → IsSorted (a ∷ after)
      → done ++ minus (a ∷ after) before ≡ done ++ minus (a ∷ after) (b ∷ before)
  skip_first less sorted =
      ap (λ (t : List ℕ). done ++ t) (sym (minus-less b a before after less sorted).1)

pub skip_both :
    (b a : ℕ) (before after done : List ℕ)
    → b ≡ a
    → IsSorted (b ∷ before)
    → done ++ minus before after ≡ done ++ minus (b ∷ before) (a ∷ after)
skip_both b a before after done e sorted =
    ap (λ (t : List ℕ). done ++ t)
      (sym (minus_same b before after sorted) ∙ ap (λ (n : ℕ). minus (b ∷ before) (n ∷ after)) e)

-- On ascending identifiers without repetition, the walk over two registries adds to the report
-- exactly the datasets of the first that the second does not have as removed, and those of the
-- second that the first does not have as added.
pub diff_dataset_ids-minus :
    (before after : List ℕ) (r : DiffReport)
    → IsSorted before
    → IsSorted after
    → ((diff_dataset_ids before after r).removed_datasets
        ≡ r.removed_datasets ++ minus before after)
      × ((diff_dataset_ids before after r).added_datasets ≡ r.added_datasets ++ minus after before)
unfolding diff_dataset_ids remove_dataset add_dataset
diff_dataset_ids-minus [] [] r sb sa = unfold minus in (sym (append-nil _), sym (append-nil _))
diff_dataset_ids-minus (b ∷ before) [] r sb sa =
    let (removed, added) = diff_dataset_ids-minus before [] (remove_dataset r b) sb.1 sa in
    (
      removed
          ∙ append_assoc r.removed_datasets (b ∷ []) (minus before [])
          ∙ rw (minus-nil before, minus-nil (b ∷ before)) refl,
      added ∙ unfold minus in refl,
    )
diff_dataset_ids-minus [] (a ∷ after) r sb sa =
    let (removed, added) = diff_dataset_ids-minus [] after (add_dataset r a) sb sa.1 in
    (
      removed ∙ unfold minus in refl,
      added
          ∙ append_assoc r.added_datasets (a ∷ []) (minus after [])
          ∙ rw (minus-nil after, minus-nil (a ∷ after)) refl,
    )
diff_dataset_ids-minus (b ∷ before) (a ∷ after) r sb sa = elim (Bool-cases (ltb b a)) [
  | inl less ↦
      let (removed, added) =
        diff_dataset_ids-minus before (a ∷ after) (remove_dataset r b) sb.1 sa in
      rw (less, diff_dataset_ids)
        (
          removed ∙ take_first b a before after r.removed_datasets (ground arith) sa,
          added ∙ skip_first b a before after r.added_datasets (ground arith) sa,
        )
  | inr more ↦ elim (Bool-cases (ltb a b)) [
    | inl less ↦
        let (removed, added) =
          diff_dataset_ids-minus (b ∷ before) after (add_dataset r a) sb sa.1 in
        rw (more, less, diff_dataset_ids)
          (
            removed ∙ skip_first a b after before r.removed_datasets (ground arith) sb,
            added ∙ take_first a b after before r.added_datasets (ground arith) sb,
          )
    | inr same ↦
        let (removed, added) = diff_dataset_ids-minus before after r sb.1 sa.1 in
        let e : b ≡ a = ground arith in
        rw (more, same, diff_dataset_ids)
          (
            removed ∙ skip_both b a before after r.removed_datasets e sb,
            added ∙ skip_both a b after before r.added_datasets (sym e) sa,
          )
  ]
]
