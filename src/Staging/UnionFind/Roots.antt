-- ===== src/Staging/UnionFind/Roots.antt =====
-- The roots that a list of parents gives its nodes, before and behind `find_root`.
use lunar_terrain_builder.Base.{
  ℕ, zero, suc, ◌<◌, ◌≤◌, ◌≡◌, ◌≢◌, ◌∙◌, inl, inr, refl, sym, ap, subst, arith, true, false, some,
  List, length, length-set, get_or-set, set, ◌==◌, Bool-cases,
}
use native.Mathlib.Decide.{ℕ_discrete}
use lunar_terrain_builder.Staging.UnionFind.{parent_of, seek, compress, find_root}

-- Following the parents from the node ends at this root.
pub data HasRoot (parents : List ℕ) : ℕ → ℕ → Type 0 where
  top : {i r : ℕ} → parent_of parents i ≡ i → r ≡ i → HasRoot parents i r
  up : {i r : ℕ} → HasRoot parents (parent_of parents i) r → HasRoot parents i r

-- No parent is larger than its child.
abbrev pub IsDown : List ℕ → Type 0
IsDown parents = (i : ℕ) → parent_of parents i ≤ i

pub HasRoot-fixed : {parents : List ℕ} {i r : ℕ} → HasRoot parents i r → parent_of parents r ≡ r
HasRoot-fixed {parents} (top e f) = ap (parent_of parents) f ∙ e ∙ sym f
HasRoot-fixed (up d) = HasRoot-fixed d

-- A node that is its own parent has no other root.
pub HasRoot_own :
    {parents : List ℕ} {i r : ℕ} → HasRoot parents i r → parent_of parents i ≡ i → r ≡ i
HasRoot_own (top e f) h = f
HasRoot_own {parents} (up d) h = HasRoot_own d (ap (parent_of parents) h) ∙ h

pub HasRoot_unique :
    {parents : List ℕ} {i r s : ℕ} → HasRoot parents i r → HasRoot parents i s → r ≡ s
HasRoot_unique (top e f) d = f ∙ sym (HasRoot_own d e)
HasRoot_unique (up d) (top e f) = HasRoot_own (up d) e ∙ sym f
HasRoot_unique (up d) (up d') = HasRoot_unique d d'

pub HasRoot-le : {parents : List ℕ} {i r : ℕ} → IsDown parents → HasRoot parents i r → r ≤ i
HasRoot-le down (top e f) = omega (arith, f)
HasRoot-le down (up {i} d) = omega (arith, HasRoot-le down d, down i)

-- The parent of a node below its root has the same root.
pub HasRoot-parent :
    {parents : List ℕ} {i r : ℕ} → HasRoot parents i r → HasRoot parents (parent_of parents i) r
HasRoot-parent {parents} (top e f) = top (ap (parent_of parents) e) (f ∙ sym e)
HasRoot-parent (up d) = d

pub HasRoot_exists :
    (fuel : ℕ) (parents : List ℕ) (i : ℕ)
    → IsDown parents
    → i ≤ fuel
    → (r : ℕ) × (seek fuel parents i ≡ some r) × HasRoot parents i r
unfolding seek
HasRoot_exists zero parents i down h =
    let own : parent_of parents i ≡ i = omega (arith, down i) in
    let e : (parent_of parents i == i) ≡ true = ground arith in (i, rw e refl, top own refl)
HasRoot_exists (suc fuel) parents i down h = elim (Bool-cases (parent_of parents i == i)) [
  | inl own ↦ (i, rw own refl, top (ground arith) refl)
  | inr other ↦
      let smaller : parent_of parents i < i = ground (arith, down i) in
      let (r, found, d) =
        HasRoot_exists fuel parents (parent_of parents i) down (omega (arith, smaller)) in
      (r, rw other found, up d)
]

eq→== : (a b : ℕ) → a ≡ b → (a == b) ≡ true
eq→== a b h = ground arith

ne→lt : (a b : ℕ) → (a == b) ≡ false → a ≤ b → a < b
ne→lt a b h l = ground arith

module _ (parents : List ℕ) (c v : ℕ) (inside : c < length parents) where
  pub parent-set_here : parent_of (set parents c v) c ≡ v
  parent-set_here = ground (arith, get_or-set parents c c v 0 inside)

  pub parent-set_other : (j : ℕ) → j ≢ c → parent_of (set parents c v) j ≡ parent_of parents j
  parent-set_other j ne = ground (arith, get_or-set parents c j v 0 inside)

  pub set-IsDown : IsDown parents → v ≤ c → IsDown (set parents c v)
  set-IsDown down h j = elim (ℕ_discrete j c) [
    | yes e ↦ omega (arith, ap (parent_of (set parents c v)) e, parent-set_here)
    | no ne ↦ omega (arith, parent-set_other j ne, down j)
  ]

-- A node moved below its own root: every node keeps its root.
module _ (parents : List ℕ) (c root : ℕ) (inside : c < length parents)
    (at : HasRoot parents c root) where
  root_fixed : parent_of (set parents c root) root ≡ root
  root_fixed = elim (ℕ_discrete root c) [
    | yes e ↦ ap (parent_of (set parents c root)) e ∙ parent-set_here parents c root inside
    | no ne ↦ parent-set_other parents c root inside root ne ∙ HasRoot-fixed at
  ]

  moved : (j r : ℕ) → j ≡ c → HasRoot parents j r → HasRoot (set parents c root) j r
  moved j r here' d =
      let same : r ≡ root = HasRoot_unique (subst (λ n. HasRoot parents n r) here' d) at in
      subst (λ n. HasRoot (set parents c root) n r) (sym here')
        (up (
          subst (λ n. HasRoot (set parents c root) n r)
            (sym (parent-set_here parents c root inside)) (top root_fixed same)))

  pub HasRoot-set_root : {j r : ℕ} → HasRoot parents j r → HasRoot (set parents c root) j r
  HasRoot-set_root {j} {r} (top e f) = elim (ℕ_discrete j c) [
    | yes here' ↦ moved j r here' (top e f)
    | no other ↦ top (parent-set_other parents c root inside j other ∙ e) f
  ]
  HasRoot-set_root {j} {r} (up d) = elim (ℕ_discrete j c) [
    | yes here' ↦ moved j r here' (up d)
    | no other ↦ up (
        subst (λ n. HasRoot (set parents c root) n r)
          (sym (parent-set_other parents c root inside j other)) (HasRoot-set_root d))
  ]

-- What every operation on the parents leaves as it is.
pub record KeepsRoots (parents out : List ℕ) : Type 0 where
  pub down : IsDown out
  pub size : length out ≡ length parents
  pub roots : (j r : ℕ) → HasRoot parents j r → HasRoot out j r

compress-KeepsRoots :
    (fuel : ℕ) (parents : List ℕ) (current root : ℕ)
    → current ≤ fuel
    → current < length parents
    → IsDown parents
    → HasRoot parents current root
    → (out : List ℕ) × (compress fuel parents current root ≡ some out) × KeepsRoots parents out
unfolding compress
compress-KeepsRoots zero parents current root h inside down at =
    let own : parent_of parents current ≡ current = omega (arith, down current) in
    let e : (parent_of parents current == current) ≡ true = eq→== _ _ own in
    (parents, rw e refl, record { down = down; size = refl; roots = λ j r d. d })
compress-KeepsRoots (suc fuel) parents current root h inside down at =
    elim (Bool-cases (parent_of parents current == current)) [
      | inl own ↦ (parents, rw own refl, record { down = down; size = refl; roots = λ j r d. d })
      | inr other ↦
          let smaller : parent_of parents current < current = ne→lt _ _ other (down current) in
          let size = length-set parents current root in
          let keeps : (j r : ℕ) → HasRoot parents j r → HasRoot (set parents current root) j r =
            λ j r d. HasRoot-set_root parents current root inside at d in
          let (out, done, kept) =
            compress-KeepsRoots fuel (set parents current root) (parent_of parents current) root
              (omega (arith, smaller)) (omega (arith, smaller, size))
              (set-IsDown parents current root inside down (HasRoot-le down at))
              (keeps _ _ (HasRoot-parent at)) in
          (
            out,
            rw other done,
            record {
              down = kept.down;
              size = kept.size ∙ size;
              roots = λ j r d. kept.roots j r (keeps j r d);
            },
          )
    ]

-- Where no parent is larger than its child, `find_root` ends, returns the root of the node, and keeps
-- the root of every node.
pub find_root-KeepsRoots :
    (parents : List ℕ) (node : ℕ)
    → IsDown parents
    → node < length parents
    → (root : ℕ) × (out : List ℕ) × (find_root parents node ≡ some (root, out))
      × HasRoot parents node root
      × KeepsRoots parents out
unfolding find_root
find_root-KeepsRoots parents node down inside =
    let (root, found, at) = HasRoot_exists node parents node down (omega arith) in
    let (out, done, kept) =
      compress-KeepsRoots node parents node root (omega arith) inside down at in
    (root, out, rw (found, done) refl, at, kept)
