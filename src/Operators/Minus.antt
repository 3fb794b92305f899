-- ===== src/Operators/Minus.antt =====
-- The difference of two lists of numbers in strict order, element by element.
use lunar_terrain_builder.Base.{
  ℕ, ◌<◌, ◌≡◌, refl, ap, arith, true, false, List, [], ◌∷◌, All, All-map, Pairwise, ◌==◌,
  if◌then◌else◌,
}
use lunar_terrain_builder.Database.Index.{mem}

-- The elements of the first list that the second does not have.
unfoldable pub minus : List ℕ → List ℕ → List ℕ
minus [] ys = []
minus (x ∷ xs) ys = if mem x ys then minus xs ys else x ∷ minus xs ys

abbrev pub IsSorted : List ℕ → Type 0
IsSorted xs = Pairwise (λ x y. x < y) xs

pub minus-nil : (xs : List ℕ) → minus xs [] ≡ xs
unfolding minus mem
minus-nil [] = refl
minus-nil (x ∷ xs) = ap (◌∷◌ x) (minus-nil xs)

mem-below : (x : ℕ) (ys : List ℕ) → All (λ y. x < y) ys → mem x ys ≡ false
unfolding mem
mem-below x [] all = refl
mem-below x (y ∷ ys) all = ground (arith, mem-below x ys all.1)

-- An element below all of the first list takes nothing away from it.
pub minus-below : (y : ℕ) (xs ys : List ℕ) → All (λ x. y < x) xs → minus xs (y ∷ ys) ≡ minus xs ys
unfolding minus mem
minus-below y [] ys all = refl
minus-below y (x ∷ xs) ys all =
    let differs : (y == x) ≡ false = ground arith in rw (differs, minus-below y xs ys all.1)

module _ (b a : ℕ) (before after : List ℕ) where
  pub above : b < a → IsSorted (a ∷ after) → All (λ y. b < y) (a ∷ after)
  above less sorted = (less, All-map (λ y. a < y) (λ y. b < y) (λ y h. omega arith) after sorted.0)

  -- The smaller of the two heads stands in one list only.
  pub minus-less :
      b < a
      → IsSorted (a ∷ after)
      → (minus (b ∷ before) (a ∷ after) ≡ b ∷ minus before (a ∷ after))
        × (minus (a ∷ after) (b ∷ before) ≡ minus (a ∷ after) before)
  unfolding minus
  minus-less less sorted = (
    rw (mem-below b (a ∷ after) (above less sorted)),
    minus-below b (a ∷ after) before (above less sorted),
  )

-- Equal heads stand in both.
pub minus_same :
    (a : ℕ) (before after : List ℕ)
    → IsSorted (a ∷ before)
    → minus (a ∷ before) (a ∷ after) ≡ minus before after
unfolding minus mem
minus_same a before after sorted =
    let e : (a == a) ≡ true = ground arith in rw e (minus-below a before after sorted.0)
