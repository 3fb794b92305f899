-- ===== src/Database/Query/Subtree.antt =====
-- The subtree test against the chain of parents.
use lunar_terrain_builder.Base.{
  ℕ, zero, suc, ◌+◌, ◌-◌, ◌*◌, ◌/◌, ◌^◌, ◌≤◌, ◌≡◌, ◌≢◌, ◌∙◌, ◌↔◌, refl, sym, ap, subst, arith, u8,
  true, none, some,
}
use lunar_terrain_builder.TileKey.{LunarTileKey, face, level, morton, parent}
use lunar_terrain_builder.TileKey.Layout.{IsKey, packed, packed-fields}
use lunar_terrain_builder.TileKey.Family.{
  parent_key, parent-eq-none_iff, parent-packed, parent_key-IsAt, parent_key-morton,
}
use lunar_terrain_builder.Database.Query.{in_subtree}
use lunar_terrain_builder.TileKey.Morton.{div-four-pow-suc}

-- The tile is the root or comes to it from parent to parent.
pub data IsBelow (root : LunarTileKey) : LunarTileKey → Type 0 where
  here : IsBelow root root
  up : (k p : LunarTileKey) → parent k ≡ some p → IsBelow root p → IsBelow root k

-- What the subtree test computes, where the level's difference is `n`.
in_subtree_iff :
    (k root : LunarTileKey) (n : ℕ)
    → level k ≡ level root + n
    → n ≤ 28
    → (in_subtree k root ≡ true) ↔ ((face k ≡ face root) × (morton k / 2 ^ (2 * n) ≡ morton root))
unfolding in_subtree
in_subtree_iff k root n e small =
    let diff : u8 (level k - level root) ≡ n = omega arith in
    rw diff (λ h. (ground arith, ground arith), λ h. ground arith)

in_subtree-IsBelow :
    (n : ℕ) (k root : LunarTileKey)
    → IsKey k
    → IsKey root
    → level k ≡ level root + n
    → face k ≡ face root
    → morton k / 2 ^ (2 * n) ≡ morton root
    → IsBelow root k
in_subtree-IsBelow zero k root v r e same_face same_code =
    let same : k ≡ root =
      sym (packed-fields k v.fits)
      ∙ rw (same_face, e') (ap (packed (face root) (level root)) code)
      ∙ packed-fields root r.fits in
    subst (IsBelow root) (sym same) here
  where
    e' : level k ≡ level root
    e' = omega arith

    code : morton k ≡ morton root
    code = omega (arith, same_code)
in_subtree-IsBelow (suc n) k root v r e same_face same_code =
    let below : level k ≢ 0 = λ z. omega arith in
    let p = parent_key-IsAt k v below in
    up k (parent_key k) (parent-packed k v below) (
      in_subtree-IsBelow n (parent_key k) root p.key r (omega (arith, p.at_level))
        (p.at_face ∙ same_face)
        (ap (λ (m : ℕ). m / 2 ^ (2 * n)) (parent_key-morton k v below)
          ∙ sym (div-four-pow-suc (morton k) n)
          ∙ same_code))

-- The fields of a tile below a root.
record Below (root k : LunarTileKey) (n : ℕ) : Type 0 where
  deeper : level k ≡ level root + n
  same_face : face k ≡ face root
  same_code : morton k / 2 ^ (2 * n) ≡ morton root

IsBelow-Below : (root k : LunarTileKey) → IsKey k → IsBelow root k → (n : ℕ) × Below root k n
IsBelow-Below root _ v here =
    (0, record { deeper = omega arith; same_face = refl; same_code = omega arith })
IsBelow-Below root _ v (up k p e b) =
    let below : level k ≢ 0 = λ z. none_or_some e ((parent-eq-none_iff k).1 z) in
    let at = parent_key-IsAt k v below in
    let q : p ≡ parent_key k = some-parent (sym e ∙ parent-packed k v below) in
    let (n, f) = IsBelow-Below root p (subst IsKey (sym q) at.key) b in
    (
      suc n,
      record {
        deeper = omega (arith, at.at_level, f.deeper, ap level q);
        same_face = sym at.at_face ∙ ap face (sym q) ∙ f.same_face;
        same_code =
            div-four-pow-suc (morton k) n
            ∙ ap (λ (m : ℕ). m / 2 ^ (2 * n))
                (sym (parent_key-morton k v below) ∙ ap morton (sym q))
            ∙ f.same_code;
      },
    )
  where
    none_or_some : parent k ≡ some p → parent k ≡ none → ⊥
    none_or_some e h = cc

    some-parent : some p ≡ some (parent_key k) → p ≡ parent_key k
    some-parent h = cc

-- For well-formed keys, `in_subtree` accepts exactly the root itself and the tiles that come to it
-- from parent to parent.
pub in_subtree-IsBelow_iff :
    (k root : LunarTileKey) → IsKey k → IsKey root → (in_subtree k root ≡ true) ↔ IsBelow root k
unfolding in_subtree
in_subtree-IsBelow_iff k root v r = (forth, back)
  where
    forth : in_subtree k root ≡ true → IsBelow root k
    forth h =
        let deeper : level root ≤ level k = ground arith in
        let n : level k ≡ level root + (level k - level root) = omega arith in
        let (f, c) =
          (in_subtree_iff k root (level k - level root) n (omega (arith, v.level_ok))).0 h in
        in_subtree-IsBelow (level k - level root) k root v r n f c

    back : IsBelow root k → in_subtree k root ≡ true
    back b =
        let (n, f) = IsBelow-Below root k v b in
        (in_subtree_iff k root n f.deeper (omega (arith, v.level_ok, f.deeper))).1
          (f.same_face, f.same_code)
