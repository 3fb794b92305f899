-- ===== src/Hierarchy/Masks/Index.antt =====
-- The map of the first loop, and what the second loop has set in each mask.
use lunar_terrain_builder.Base.{
  ℕ, zero, suc, ◌+◌, ◌<◌, ◌≡◌, ◌⊎◌, ◌↔◌, inl, inr, ◌∙◌, refl, sym, ap, arith, ◌==◌, true, false,
  Option, none, some, List, [], ◌∷◌, length, length-replicate, get_or, get_elem?, replicate,
  Bool-cases, some-injective,
}
use lunar_terrain_builder.Base.Bits.{bit}
use mathlib.Core.List.{Memᴰ}
use mathlib.Core.List.Memᴰ.{head, tail}
use lunar_terrain_builder.Error.{success, Result-cases}
use lunar_terrain_builder.TileKey.{LunarTileKey, x, parent}
use lunar_terrain_builder.TileKey.Layout.{encoded-eq}
use lunar_terrain_builder.Hierarchy.{
  KeyMap, find_index, is_some, index_tiles, quadrant, mark_children, materialized_child_masks,
}
use lunar_terrain_builder.Hierarchy.Masks.{mark_children-bit}

is_some-false : (o : Option ℕ) → is_some o ≡ false → o ≡ none
unfolding is_some
is_some-false none h = refl
is_some-false (some i) h = cc

index_tiles-round :
    (before : Option LunarTileKey) (index : ℕ) (key : LunarTileKey) (rest : List LunarTileKey)
    (by_key out : KeyMap)
    → index_tiles before index (key ∷ rest) by_key ≡ success out
    → (is_some (find_index by_key key.encoded) ≡ false)
      × (index_tiles (some key) (index + 1) rest ((key.encoded, index) ∷ by_key) ≡ success out)
unfolding index_tiles
index_tiles-round before index key rest by_key out h = ground arith

-- The tile with this place in the list has this code.
abbrev pub Stands : List LunarTileKey → ℕ → ℕ → ℕ → Type 0
Stands tiles index e i =
    (t : LunarTileKey) × (j : ℕ) × (get_elem? tiles j ≡ some t) × (t.encoded ≡ e) × (i ≡ index + j)

pub index_tiles-find :
    (before : Option LunarTileKey) (index : ℕ) (tiles : List LunarTileKey) (by_key out : KeyMap)
    → index_tiles before index tiles by_key ≡ success out
    → (e i : ℕ)
    → (find_index out e ≡ some i) ↔ ((find_index by_key e ≡ some i) ⊎ Stands tiles index e i)
unfolding index_tiles find_index
index_tiles-find before index [] by_key out h e i =
    let same : by_key ≡ out = ground arith in
    rw (← same) (inl, λ c. elim c [ inl f ↦ f | inr (t, j, at', code, place) ↦ cc ])
index_tiles-find before index (key ∷ rest) by_key out h e i =
    let (new', next) = index_tiles-round before index key rest by_key out h in
    let absent = is_some-false _ new' in
    let (f, g) =
      index_tiles-find (some key) (index + 1) rest ((key.encoded, index) ∷ by_key) out next e i in
    (
      λ b. elim (f b) [
        | inr (t, j, at', code, place) ↦ inr (t, suc j, at', code, omega (arith, place))
        | inl found ↦ elim (Bool-cases (key.encoded == e)) [
          | inl same ↦ inr (key, 0, refl, ground arith, ground arith)
          | inr other ↦ inl (ground arith)
        ]
      ],
      λ c. elim c [
        | inl found ↦ elim (Bool-cases (key.encoded == e)) [
          | inl same ↦
              let code : key.encoded ≡ e = ground arith in
              cc (absent, ap (find_index by_key) code, found)
          | inr other ↦ g (inl (rw other found))
        ]
        | inr (t, zero, at', code, place) ↦
            let first : key ≡ t = some-injective key t at' in
            let same : (key.encoded == e) ≡ true =
              ground (arith, ap (λ (k : LunarTileKey). k.encoded) first ∙ code) in
            g (inl (rw same (ap some (omega (arith, place)))))
        | inr (t, suc j, at', code, place) ↦ g (inr (t, j, at', code, omega (arith, place)))
      ],
    )

get_elem?-bound :
    (tiles : List LunarTileKey) (i : ℕ) (t : LunarTileKey)
    → get_elem? tiles i ≡ some t
    → i < length tiles
get_elem?-bound [] i t h = cc
get_elem?-bound (s ∷ tiles) zero t h = omega arith
get_elem?-bound (s ∷ tiles) (suc i) t h = omega (arith, get_elem?-bound tiles i t h)

pub get_elem?-Mem :
    (tiles : List LunarTileKey) (i : ℕ) (t : LunarTileKey)
    → get_elem? tiles i ≡ some t
    → Memᴰ t tiles
get_elem?-Mem [] i t h = cc
get_elem?-Mem (s ∷ tiles) zero t h = head (sym (some-injective s t h))
get_elem?-Mem (s ∷ tiles) (suc i) t h = tail (get_elem?-Mem tiles i t h)

-- The masks before the second loop.
abbrev blank : ℕ → List ℕ
blank n = replicate n 0

get_or-blank : (n i : ℕ) → ◌≡◌ {A = ℕ} (get_or (blank n) i 0) 0
get_or-blank zero i = refl
get_or-blank (suc n) zero = refl
get_or-blank (suc n) (suc i) = get_or-blank n i

pub find_index-nil : (e i : ℕ) → find_index [] e ≡ some i → ⊥
unfolding find_index
find_index-nil e i h = cc

pub materialized-parts :
    (tiles : List LunarTileKey) (masks : List ℕ)
    → materialized_child_masks tiles ≡ success masks
    → (by_key : KeyMap) × (index_tiles none 0 tiles [] ≡ success by_key)
      × (mark_children by_key tiles (blank (length tiles)) ≡ success masks)
unfolding materialized_child_masks
materialized-parts tiles masks h = elim (Result-cases (index_tiles none 0 tiles [])) [
  | inl (by_key, e) ↦ (by_key, e, rw e at h)
  | inr (x, e) ↦ ground arith
]

-- Bit `q` of the mask of a tile is set exactly when the list holds a tile of quadrant `q` whose
-- parent it is.
pub masks_bit :
    (tiles : List LunarTileKey) (masks : List ℕ) (i : ℕ) (t : LunarTileKey) (q : ℕ)
    → materialized_child_masks tiles ≡ success masks
    → get_elem? tiles i ≡ some t
    → q < 4
    → (bit q (get_or masks i 0) ≡ 1)
      ↔ ((key : LunarTileKey) × Memᴰ key tiles × (parent key ≡ some t) × (quadrant key ≡ q))
masks_bit tiles masks i t q h at hq =
    let (by_key, indexed, marked) = materialized-parts tiles masks h in
    let find = index_tiles-find none 0 tiles [] by_key indexed in
    let bound : (e j : ℕ) → find_index by_key e ≡ some j → j < length (blank (length tiles)) =
      λ e j found. stands-bound e j ((find e j).0 found) in
    let (f, g) = mark_children-bit by_key i q hq tiles (blank (length tiles)) masks bound marked in
    (
      λ b. elim (f b) [
        | inl old ↦ absurd (omega (arith, ap (bit q) (get_or-blank (length tiles) i)))
        | inr (key, p, m, up', found, there) ↦
            let same : p ≡ t = stands-tile p ((find p.encoded i).0 found) in
            (key, m, up' ∙ ap some same, there)
      ],
      λ (key, m, up', there).
          g (inr (key, t, m, up', (find t.encoded i).1 (inr (t, i, at, refl, omega arith)), there)),
    )
  where
    stands-bound :
        (e j : ℕ)
        → (find_index [] e ≡ some j) ⊎ Stands tiles 0 e j
        → j < length (blank (length tiles))
    stands-bound e j (inl found) = absurd (find_index-nil e j found)
    stands-bound e j (inr (s, k, at', code, place)) =
        let size : length (blank (length tiles)) ≡ length tiles =
          length-replicate (length tiles) 0 in
        omega (arith, get_elem?-bound tiles k s at', place, size)

    stands-tile :
        (p : LunarTileKey) → (find_index [] p.encoded ≡ some i) ⊎ Stands tiles 0 p.encoded i → p ≡ t
    stands-tile p (inl found) = absurd (find_index-nil p.encoded i found)
    stands-tile p (inr (s, k, at', code, place)) =
        let index : k ≡ i = omega (arith, place) in
        let same : s ≡ t = some-injective s t (sym at' ∙ ap (get_elem? tiles) index ∙ at) in
        encoded-eq (sym code ∙ ap (λ (k : LunarTileKey). k.encoded) same)
