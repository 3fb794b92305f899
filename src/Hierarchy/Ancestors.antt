-- ===== src/Hierarchy/Ancestors.antt =====
-- The nearest ancestor that is materialized, against the chain of parents.
use lunar_terrain_builder.Base.{
  ℕ, zero, suc, ◌<◌, ◌≡◌, ◌≢◌, ◌⊎◌, inl, inr, ◌∙◌, refl, sym, ap, subst, arith, ◌==◌, true, Option,
  none, some, List, [], ◌∷◌, Bool-cases, some-injective,
}
use mathlib.Core.List.{Memᴰ}
use mathlib.Core.List.Memᴰ.{head, tail}
use lunar_terrain_builder.Error.{ErrorCode, Result, success, failure}
use lunar_terrain_builder.TileKey.{LunarTileKey, level, parent}
use lunar_terrain_builder.TileKey.Layout.{IsKey, encoded-eq}
use lunar_terrain_builder.TileKey.Family.{parent-eq-none_iff, parent_halves}
use lunar_terrain_builder.Database.Query.Subtree.{IsBelow, here, up}
use lunar_terrain_builder.Hierarchy.{
  hierarchy_error, contains, climb, nearest_materialized_ancestor,
}

pub contains→Mem :
    (tiles : List LunarTileKey) (k : LunarTileKey) → contains tiles k ≡ true → Memᴰ k tiles
unfolding contains
contains→Mem [] k h = cc
contains→Mem (t ∷ rest) k h = elim (Bool-cases (t.encoded == k.encoded)) [
  | inl same ↦ let e : k.encoded ≡ t.encoded = ground arith in head (encoded-eq e)
  | inr other ↦ tail (contains→Mem rest k (ground arith))
]

pub Mem→contains :
    (tiles : List LunarTileKey) (k : LunarTileKey) → Memᴰ k tiles → contains tiles k ≡ true
unfolding contains
Mem→contains [] k m = elim m [ ]
Mem→contains (t ∷ rest) k (head same) =
    let e : t.encoded ≡ k.encoded = ap (λ (j : LunarTileKey). j.encoded) (sym same) in ground arith
Mem→contains (t ∷ rest) k (tail m) = ground (arith, Mem→contains rest k m)

IsBelow-cases :
    (b k : LunarTileKey)
    → IsBelow b k
    → (b ≡ k) ⊎ ((p : LunarTileKey) × (parent k ≡ some p) × IsBelow b p)
IsBelow-cases b k here = inl refl
IsBelow-cases b k (up k' p e h) = inr (p, e, h)

-- The tile is the parent, or the parent's parent, and so on.
abbrev pub IsAbove : LunarTileKey → LunarTileKey → Type 0
IsAbove a k = (p : LunarTileKey) × (parent k ≡ some p) × IsBelow a p

module _ (descendant : LunarTileKey) (tiles : List LunarTileKey) where
  abbrev not_found : Result LunarTileKey
  not_found =
      failure (hierarchy_error ErrorCode.not_found "tile has no materialized ancestor" descendant)

  -- Among the tiles with the property, the result is the one below all others, or there is none.
  abbrev pub Nearest : (LunarTileKey → Type 0) → Option (Result LunarTileKey) → Type 0
  Nearest P r =
      ((a : LunarTileKey) × (r ≡ some (success a))
        × Memᴰ a tiles
        × P a
        × ((b : LunarTileKey) → Memᴰ b tiles → P b → IsBelow b a))
      ⊎ ((r ≡ some not_found) × ((b : LunarTileKey) → Memᴰ b tiles → P b → ⊥))

  Nearest-iff :
      (P Q : LunarTileKey → Type 0) (r : Option (Result LunarTileKey))
      → ((b : LunarTileKey) → P b → Q b)
      → ((b : LunarTileKey) → Memᴰ b tiles → Q b → P b)
      → Nearest P r
      → Nearest Q r
  Nearest-iff P Q r f g (inl (a, e, m, p, least)) =
      inl (a, e, m, f a p, λ b mb q. least b mb (g b mb q))
  Nearest-iff P Q r f g (inr (e, absent)) = inr (e, λ b mb q. absent b mb (g b mb q))

  climb_none : (fuel : ℕ) → climb fuel descendant tiles none ≡ some not_found
  unfolding climb
  climb_none zero = refl
  climb_none (suc fuel) = refl

  climb-Nearest :
      (fuel : ℕ) (c : LunarTileKey)
      → IsKey c
      → level c < fuel
      → Nearest (λ b. IsBelow b c) (climb fuel descendant tiles (some c))
  unfolding climb
  climb-Nearest zero c v h = absurd (omega arith)
  climb-Nearest (suc fuel) c v h = elim (Bool-cases (contains tiles c)) [
    | inl held ↦ rw held (inl (c, refl, contains→Mem tiles c held, here, λ b m q. q))
    | inr absent ↦
        let missing : (b : LunarTileKey) → Memᴰ b tiles → b ≢ c =
          λ b m e. cc (Mem→contains tiles b m, ap (contains tiles) e, absent) in
        rw absent (elim (Bool-cases (level c == 0)) [
          | inl root ↦
              let none_above : parent c ≡ none = (parent-eq-none_iff c).1 (ground arith) in
              rw (none_above, climb_none fuel)
                (inr (
                  refl,
                  λ b m q. elim (IsBelow-cases b c q) [
                    | inl e ↦ missing b m e
                    | inr (p, e, q') ↦ cc (e, none_above)
                  ],
                ))
          | inr below ↦
              let nonzero : level c ≢ 0 = ground arith in
              let (p, e, at) = parent_halves c v nonzero in
              rw e (
                Nearest-iff (λ b. IsBelow b p) (λ b. IsBelow b c)
                  (climb fuel descendant tiles (some p)) (λ b q. up c p e q)
                  (λ b m q. elim (IsBelow-cases b c q) [
                    | inl same ↦ absurd (missing b m same)
                    | inr (p', e', q') ↦
                        subst (λ t. IsBelow b t) (some-injective p' p (sym e' ∙ e)) q'
                  ])
                  (climb-Nearest fuel p at.key (omega (arith, at.at_level))))
        ])
  ]

  -- For a well-formed key, either some tile of the list is above it, and `nearest_materialized_ancestor`
  -- returns the one that is below every other such tile; or none is, and it fails with `not_found`.
  pub nearest_materialized_ancestor-Nearest :
      IsKey descendant
      → Nearest (λ b. IsAbove b descendant) (nearest_materialized_ancestor descendant tiles)
  unfolding nearest_materialized_ancestor
  nearest_materialized_ancestor-Nearest v = elim (Bool-cases (level descendant == 0)) [
    | inl root ↦
        let none_above : parent descendant ≡ none =
          (parent-eq-none_iff descendant).1 (ground arith) in
        rw (none_above, climb_none (level descendant))
          (inr (refl, λ b m (p, e, q). cc (e, none_above)))
    | inr below ↦
        let nonzero : level descendant ≢ 0 = ground arith in
        let (p, e, at) = parent_halves descendant v nonzero in
        subst
          (λ o. Nearest (λ b. IsAbove b descendant) (climb (level descendant) descendant tiles o))
          (sym e)
          (Nearest-iff (λ b. IsBelow b p) (λ b. IsAbove b descendant)
            (climb (level descendant) descendant tiles (some p)) (λ b q. (p, e, q))
            (λ b m (p', e', q). subst (λ t. IsBelow b t) (some-injective p' p (sym e' ∙ e)) q)
            (climb-Nearest (level descendant) p at.key (omega (arith, at.at_level))))
  ]
