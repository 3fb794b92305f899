-- ===== src/Staging/UnionFind/Classes.antt =====
-- The corner classes of src/builder/tile_staging.cpp against the relation that the pairs generate.
use lunar_terrain_builder.Base.{
  ℕ, zero, suc, ◌+◌, ◌<◌, ◌≤◌, ◌≡◌, ◌⊎◌, ◌↔◌, ◌∙◌, inl, inr, refl, sym, ap, subst, arith, some,
  List, [], ◌∷◌, length, get_or, All, some-injective,
}
use mathlib.Core.List.{Memᴰ}
use mathlib.Core.List.Memᴰ.{head, tail}
use lunar_terrain_builder.Staging.UnionFind.{iota, unite_all, corner_classes, root_of}
use lunar_terrain_builder.Staging.UnionFind.Roots.{
  HasRoot, IsDown, HasRoot_exists, HasRoot_own, HasRoot_unique, find_root-KeepsRoots,
}
use lunar_terrain_builder.Staging.UnionFind.Link.{
  merged, merged_cases, merged_ends, MergesRoots, unite-MergesRoots,
}

-- The least equivalence relation that holds between the two nodes of each pair.
pub data Joined (pairs : List (ℕ × ℕ)) : ℕ → ℕ → Type 0 where
  listed : {i j : ℕ} → Memᴰ (i, j) pairs → Joined pairs i j
  same : {i j : ℕ} → i ≡ j → Joined pairs i j
  back : {i j : ℕ} → Joined pairs i j → Joined pairs j i
  through : {i j k : ℕ} → Joined pairs i j → Joined pairs j k → Joined pairs i k

-- Two nodes below the same root.
SameRoot : List ℕ → ℕ → ℕ → Type 0
SameRoot parents i j = (r : ℕ) × HasRoot parents i r × HasRoot parents j r

unfoldable pub IsInside : ℕ → ℕ × ℕ → Type 0
IsInside n pair = (pair.0 < n) × (pair.1 < n)

-- What `unite_all` does to the parents it starts with.
record UnitesAll (n : ℕ) (pairs : List (ℕ × ℕ)) (R : ℕ → ℕ → Type 0) (parents out : List ℕ)
    : Type 0 where
  down : IsDown out
  size : length out ≡ n
  keeps : (i j : ℕ) → SameRoot parents i j → SameRoot out i j
  joins : (i j : ℕ) → Memᴰ (i, j) pairs → SameRoot out i j
  sound : (i r : ℕ) → i < n → HasRoot out i r → R i r

MergesRoots-SameRoot :
    {parents out : List ℕ} {a b : ℕ} (i j : ℕ)
    → MergesRoots parents out a b
    → SameRoot parents i j
    → SameRoot out i j
unfolding SameRoot
MergesRoots-SameRoot {a} {b} i j m (r, at_i, at_j) =
    (merged a b r, m.roots i r at_i, m.roots j r at_j)

-- Over all the pairs: a relation that holds between each node and its root, and between the nodes of
-- each pair, holds behind `unite`.
module _ (all : List (ℕ × ℕ)) (n : ℕ) where
  merged-Joined :
      {a b : ℕ} (first second : ℕ)
      → Joined all first second
      → Joined all first a
      → Joined all second b
      → (i r s : ℕ) → Joined all i r
      → s ≡ merged a b r
      → Joined all i s
  merged-Joined {a} {b} first second fs fa sb i r s ir e =
      let a_b : Joined all a b = through (back fa) (through fs sb) in
      elim (merged_cases a b r) [
        | inl f ↦ subst (Joined all i) (sym (e ∙ f)) ir
        | inr (inl (h, f)) ↦ through ir (through (same h) (through (back a_b) (same (sym (e ∙ f)))))
        | inr (inr (h, f)) ↦ through ir (through (same h) (through a_b (same (sym (e ∙ f)))))
      ]

  unite_all-UnitesAll :
      (pairs : List (ℕ × ℕ)) (parents : List ℕ)
      → All (IsInside n) pairs
      → ((i j : ℕ) → Memᴰ (i, j) pairs → Memᴰ (i, j) all)
      → IsDown parents
      → length parents ≡ n
      → ((i r : ℕ) → i < n → HasRoot parents i r → Joined all i r)
      → (out : List ℕ) × (unite_all parents pairs ≡ some out)
        × UnitesAll n pairs (Joined all) parents out
  unfolding unite_all IsInside SameRoot
  unite_all-UnitesAll [] parents inside sub down size sound = (
    parents,
    refl,
    record {
      down = down;
      size = size;
      keeps = λ i j s. s;
      joins = λ i j m. elim m [ ];
      sound = sound;
    },
  )
  unite_all-UnitesAll ((first, second) ∷ pairs) parents inside sub down size sound =
      let ((h1, h2), rest) = inside in
      let (a, b, next, e, at_a, at_b, m) =
        unite-MergesRoots parents first second down (omega (arith, h1, size))
          (omega (arith, h2, size)) in
      let joined : (i r : ℕ) → i < n → HasRoot next i r → Joined all i r = λ i r hi d.
        let (r0, _, at) = HasRoot_exists i parents i down (omega arith) in
        merged-Joined first second (listed (sub first second (head refl))) (sound first a h1 at_a)
          (sound second b h2 at_b) i r0 r (sound i r0 hi at) (HasRoot_unique d (m.roots i r0 at)) in
      let (out, done, u) =
        unite_all-UnitesAll pairs next rest (λ i j p. sub i j (tail p)) m.down (m.size ∙ size)
          joined in
      (
        out,
        rw e done,
        record {
          down = u.down;
          size = u.size;
          keeps = λ i j s. u.keeps i j (MergesRoots-SameRoot i j m s);
          joins = λ i j p. elim p [
            | head f ↦
                subst (λ q. SameRoot out q.0 q.1) (sym f)
                  (u.keeps first second (
                    merged a b b,
                    subst (HasRoot next first) (merged_ends a b) (m.roots first a at_a),
                    m.roots second b at_b,
                  ))
            | tail q ↦ u.joins i j q
          ];
          sound = u.sound;
        },
      )

get_or-iota : (n value i : ℕ) → i < n → get_or (iota n value) i 0 ≡ value + i
unfolding iota
get_or-iota zero value i h = absurd (omega (arith, h))
get_or-iota (suc n) value zero h = omega arith
get_or-iota (suc n) value (suc i) h = omega (arith, get_or-iota n (suc value) i (omega (arith, h)))

get_or-beyond : (n value i : ℕ) → n ≤ i → get_or (iota n value) i 0 ≡ 0
unfolding iota
get_or-beyond zero value i h = refl
get_or-beyond (suc n) value zero h = absurd (omega (arith, h))
get_or-beyond (suc n) value (suc i) h = get_or-beyond n (suc value) i (omega (arith, h))

length-iota : (n value : ℕ) → length (iota n value) ≡ n
unfolding iota
length-iota zero value = refl
length-iota (suc n) value = ap suc (length-iota n (suc value))

below_or_not : (a b : ℕ) → (a < b) ⊎ (b ≤ a)
below_or_not a b = ground arith

iota-IsDown : (n : ℕ) → IsDown (iota n 0)
iota-IsDown n i = elim (below_or_not i n) [
  | inl h ↦ omega (arith, get_or-iota n 0 i h)
  | inr h ↦ omega (arith, get_or-beyond n 0 i h)
]

iota-HasRoot : (n i r : ℕ) → i < n → HasRoot (iota n 0) i r → i ≡ r
iota-HasRoot n i r h d = sym (HasRoot_own d (omega (arith, get_or-iota n 0 i h)))

Joined-SameRoot :
    (out : List ℕ) {pairs : List (ℕ × ℕ)} {i j : ℕ}
    → IsDown out
    → ((i j : ℕ) → Memᴰ (i, j) pairs → SameRoot out i j)
    → Joined pairs i j
    → SameRoot out i j
unfolding SameRoot
Joined-SameRoot out {i} {j} down joins (listed p) = joins i j p
Joined-SameRoot out {i} down joins (same e) =
    let (r, _, at) = HasRoot_exists i out i down (omega arith) in
    (r, at, subst (λ n. HasRoot out n r) e at)
Joined-SameRoot out down joins (back d) =
    let (r, at_j, at_i) = Joined-SameRoot out down joins d in (r, at_i, at_j)
Joined-SameRoot out {i} {j} down joins (through {k = k} d d') =
    let (r, at_i, at) = Joined-SameRoot out down joins d in
    let (s, at', at_j) = Joined-SameRoot out down joins d' in
    (r, at_i, subst (HasRoot out j) (HasRoot_unique at' at) at_j)

root_of-HasRoot :
    (parents : List ℕ) (i : ℕ)
    → IsDown parents
    → i < length parents
    → (r : ℕ) × (root_of parents i ≡ some r) × HasRoot parents i r
unfolding root_of
root_of-HasRoot parents i down inside =
    let (r, out, e, at, _) = find_root-KeepsRoots parents i down inside in (r, rw e refl, at)

-- For pairs of nodes below `n`, `corner_classes` ends with `n` parents, `root_of` then ends for every
-- node below `n`, and it finds the same root for two such nodes exactly where the equivalence relation
-- that the pairs generate holds between them.
pub corner_classes-Joined :
    (n : ℕ) (pairs : List (ℕ × ℕ))
    → All (IsInside n) pairs
    → (out : List ℕ) × (corner_classes n pairs ≡ some out)
      × (length out ≡ n)
      × ((i : ℕ) → i < n → (r : ℕ) × (root_of out i ≡ some r))
      × ((i j : ℕ) → i < n → j < n → (root_of out i ≡ root_of out j) ↔ Joined pairs i j)
unfolding corner_classes SameRoot
corner_classes-Joined n pairs inside =
    let (out, e, u) =
      unite_all-UnitesAll pairs n pairs (iota n 0) inside (λ i j p. p) (iota-IsDown n)
        (length-iota n 0) (λ i r h d. same (iota-HasRoot n i r h d)) in
    (
      out,
      e,
      u.size,
      λ i h. let (r, f, _) = root_of-HasRoot out i u.down (omega (arith, h, u.size)) in (r, f),
      λ i j h h'.
          let (r, f, at) = root_of-HasRoot out i u.down (omega (arith, h, u.size)) in
          let (s, g, at') = root_of-HasRoot out j u.down (omega (arith, h', u.size)) in
          (
            λ eq.
                through (u.sound i r h at) (
                  through (same (some-injective r s (sym f ∙ eq ∙ g))) (back (u.sound j s h' at'))),
            λ d.
                let (t, a, b) = Joined-SameRoot out u.down u.joins d in
                f ∙ ap some (HasRoot_unique at a ∙ HasRoot_unique b at') ∙ sym g,
          ),
    )
