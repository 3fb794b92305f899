-- ===== src/Staging/UnionFind/Link.antt =====
-- What `unite` does to the classes of its two nodes, and to the others.
use lunar_terrain_builder.Base.{
  ℕ, ◌<◌, ◌≤◌, ◌≡◌, ◌≢◌, ◌⊎◌, ◌∙◌, inl, inr, refl, sym, ap, subst, arith, true, false, some, List,
  length, length-set, set, ◌==◌, if◌then◌else◌, min, max,
}
use native.Mathlib.Decide.{ℕ_discrete}
use lunar_terrain_builder.Staging.UnionFind.{parent_of, link, unite}
use lunar_terrain_builder.Staging.UnionFind.Roots.{
  HasRoot, top, up, IsDown, HasRoot_exists, HasRoot-fixed, HasRoot_own, HasRoot_unique, HasRoot-le,
  find_root-KeepsRoots, parent-set_here, parent-set_other, set-IsDown,
}

-- A root moved below another root: the nodes of the first now have the second as their root.
module _ (parents : List ℕ) (c v : ℕ) (inside : c < length parents)
    (c_root : parent_of parents c ≡ c) (v_root : parent_of parents v ≡ v) (differ : v ≢ c) where
  v_fixed : parent_of (set parents c v) v ≡ v
  v_fixed = parent-set_other parents c v inside v differ ∙ v_root

  moved : (j r : ℕ) → j ≡ c → r ≡ v → HasRoot (set parents c v) j r
  moved j r e f =
      subst (λ n. HasRoot (set parents c v) n r) (sym e)
        (up (
          subst (λ n. HasRoot (set parents c v) n r) (sym (parent-set_here parents c v inside))
            (top v_fixed f)))

  pub set_same : {j r : ℕ} → HasRoot parents j r → r ≢ c → HasRoot (set parents c v) j r
  set_same {j} {r} (top e f) ne =
      top (parent-set_other parents c v inside j (λ j_c. ne (f ∙ j_c)) ∙ e) f
  set_same {j} {r} (up d) ne = elim (ℕ_discrete j c) [
    | yes here' ↦
        let own : parent_of parents j ≡ j = ap (parent_of parents) here' ∙ c_root ∙ sym here' in
        absurd (ne (HasRoot_own (up d) own ∙ here'))
    | no other ↦ up (
        subst (λ n. HasRoot (set parents c v) n r)
          (sym (parent-set_other parents c v inside j other)) (set_same d ne))
  ]

  pub set_moved : {j r : ℕ} → HasRoot parents j r → r ≡ c → HasRoot (set parents c v) j v
  set_moved {j} {r} (top e f) r_c = moved j v (sym f ∙ r_c) refl
  set_moved {j} {r} (up d) r_c = elim (ℕ_discrete j c) [
    | yes here' ↦ moved j v here' refl
    | no other ↦ up (
        subst (λ n. HasRoot (set parents c v) n v)
          (sym (parent-set_other parents c v inside j other)) (set_moved d r_c))
  ]

-- The root that a node has behind `unite`, from the root before it.
pub merged : ℕ → ℕ → ℕ → ℕ
merged a b r = if r == max a b then min a b else r

-- What `unite` does to the classes of two nodes with the roots `a` and `b`.
pub record MergesRoots (parents out : List ℕ) (a b : ℕ) : Type 0 where
  pub down : IsDown out
  pub size : length out ≡ length parents
  pub roots : (j r : ℕ) → HasRoot parents j r → HasRoot out j (merged a b r)

-- The larger and the smaller of two numbers, by which of them comes first.
larger_and_smaller :
    (a b : ℕ)
    → ((a ≤ b) × (max a b ≡ b) × (min a b ≡ a)) ⊎ ((b ≤ a) × (max a b ≡ a) × (min a b ≡ b))
larger_and_smaller a b = ground arith

merged_here : (a b r : ℕ) → r ≡ max a b → merged a b r ≡ min a b
unfolding merged
merged_here a b r e = ground arith

merged_other : (a b r : ℕ) → r ≢ max a b → merged a b r ≡ r
unfolding merged
merged_other a b r ne = ground arith

pub merged_cases :
    (a b r : ℕ)
    → (merged a b r ≡ r) ⊎ (((r ≡ b) × (merged a b r ≡ a)) ⊎ ((r ≡ a) × (merged a b r ≡ b)))
merged_cases a b r = elim (ℕ_discrete r (max a b)) [
  | yes h ↦ elim (larger_and_smaller a b) [
    | inl (_, e, f) ↦ inr (inl (h ∙ e, merged_here a b r h ∙ f))
    | inr (_, e, f) ↦ inr (inr (h ∙ e, merged_here a b r h ∙ f))
  ]
  | no h ↦ inl (merged_other a b r h)
]

pub merged_ends : (a b : ℕ) → merged a b a ≡ merged a b b
merged_ends a b = elim (larger_and_smaller a b) [
  | inl (_, e, f) ↦ elim (ℕ_discrete a (max a b)) [
    | yes h ↦ ap (merged a b) (h ∙ e)
    | no h ↦ merged_other a b a h ∙ sym (merged_here a b b (sym e) ∙ f)
  ]
  | inr (_, e, f) ↦ elim (ℕ_discrete b (max a b)) [
    | yes h ↦ ap (merged a b) (sym (h ∙ e))
    | no h ↦ merged_here a b a (sym e) ∙ f ∙ sym (merged_other a b b h)
  ]
]

merged_self : (a b r : ℕ) → a ≡ b → merged a b r ≡ r
merged_self a b r e = elim (ℕ_discrete r (max a b)) [
  | yes h ↦ merged_here a b r h ∙ omega (arith, e, h)
  | no h ↦ merged_other a b r h
]

linked :
    (parents : List ℕ) (a b : ℕ)
    → IsDown parents
    → a < length parents
    → b < length parents
    → parent_of parents a ≡ a
    → parent_of parents b ≡ b
    → a ≢ b
    → MergesRoots parents (set parents (max a b) (min a b)) a b
linked parents a b down ha hb ra rb differ =
    let inside : max a b < length parents = omega (arith, ha, hb) in
    let c_root : parent_of parents (max a b) ≡ max a b = elim (larger_and_smaller a b) [
      | inl (h, e, f) ↦ ap (parent_of parents) e ∙ rb ∙ sym e
      | inr (h, e, f) ↦ ap (parent_of parents) e ∙ ra ∙ sym e
    ] in
    let v_root : parent_of parents (min a b) ≡ min a b = elim (larger_and_smaller a b) [
      | inl (h, e, f) ↦ ap (parent_of parents) f ∙ ra ∙ sym f
      | inr (h, e, f) ↦ ap (parent_of parents) f ∙ rb ∙ sym f
    ] in
    let apart : min a b ≢ max a b = λ e. differ (omega (arith, e)) in
    record {
      down = set-IsDown parents (max a b) (min a b) inside down (omega arith);
      size = length-set parents (max a b) (min a b);
      roots = λ j r d. elim (ℕ_discrete r (max a b)) [
        | yes e ↦
            subst (λ n. HasRoot (set parents (max a b) (min a b)) j n) (sym (merged_here a b r e))
              (set_moved parents (max a b) (min a b) inside c_root v_root apart d e)
        | no ne ↦
            subst (λ n. HasRoot (set parents (max a b) (min a b)) j n) (sym (merged_other a b r ne))
              (set_same parents (max a b) (min a b) inside c_root v_root apart d ne)
      ];
    }

eq→== : (a b : ℕ) → a ≡ b → (a == b) ≡ true
eq→== a b h = ground arith

ne→== : (a b : ℕ) → a ≢ b → (a == b) ≡ false
ne→== a b h = ground arith

link-MergesRoots :
    (parents : List ℕ) (a b : ℕ)
    → IsDown parents
    → a < length parents
    → b < length parents
    → parent_of parents a ≡ a
    → parent_of parents b ≡ b
    → MergesRoots parents (link a b parents) a b
unfolding link
link-MergesRoots parents a b down ha hb ra rb = elim (ℕ_discrete a b) [
  | yes same ↦ rw (eq→== a b same) (record {
    down = down;
    size = refl;
    roots = λ j r d. subst (λ n. HasRoot parents j n) (sym (merged_self a b r same)) d;
  })
  | no differ ↦ rw (ne→== a b differ) (linked parents a b down ha hb ra rb differ)
]

-- With parents that lead downwards, `unite` ends, and a node behind it has the root that it had, or
-- the smaller root of the two nodes where it had the larger.
pub unite-MergesRoots :
    (parents : List ℕ) (first second : ℕ)
    → IsDown parents
    → first < length parents
    → second < length parents
    → (a b : ℕ) × (out : List ℕ) × (unite parents first second ≡ some out)
      × HasRoot parents first a
      × HasRoot parents second b
      × MergesRoots parents out a b
unfolding unite
unite-MergesRoots parents first second down h1 h2 =
    let (a, one, e1, at_a, k1) = find_root-KeepsRoots parents first down h1 in
    let (b, two, e2, at_b, k2) =
      find_root-KeepsRoots one second k1.down (omega (arith, h2, k1.size)) in
    let (b', _, at_b') = HasRoot_exists second parents second down (omega arith) in
    let same : b' ≡ b = HasRoot_unique (k1.roots second b' at_b') at_b in
    let size : length two ≡ length parents = k2.size ∙ k1.size in
    let m =
      link-MergesRoots two a b k2.down (omega (arith, h1, size, HasRoot-le down at_a))
        (omega (arith, h2, size, same, HasRoot-le down at_b'))
        (HasRoot-fixed (k2.roots first a (k1.roots first a at_a)))
        (HasRoot-fixed (k2.roots second b at_b)) in
    (
      a,
      b,
      link a b two,
      rw (e1, e2) refl,
      at_a,
      subst (λ n. HasRoot parents second n) same at_b',
      record {
        down = m.down;
        size = m.size ∙ size;
        roots = λ j r d. m.roots j r (k2.roots j r (k1.roots j r d));
      },
    )
