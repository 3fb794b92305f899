-- ===== src/Validation/Masks.antt =====
-- What `validate_hierarchy` has found out when it succeeds.
use lunar_terrain_builder.Base.{
  ℕ, zero, suc, ◌+◌, ◌*◌, ◌^◌, ◌<◌, ◌≤◌, ◌≡◌, ◌≢◌, ◌↔◌, ◌∙◌, inl, inr, refl, sym, ap, arith, String,
  Bool, true, false, not, ◌&&◌, some, [], ◌∷◌, length, ltb, ◌==◌, ◌/=◌, /=→eq, if◌then◌else◌,
  Bool-cases, Option-cases, u8, bit_or,
}
use lunar_terrain_builder.Base.Bits.{bit, bit_or-shifted}
use lunar_terrain_builder.Base.Loops.{for_up}
use lunar_terrain_builder.Base.Maps.{find, is_found}
use mathlib.Core.List.{Memᴰ}
use mathlib.Core.List.Memᴰ.{head, tail, cases_cons}
use lunar_terrain_builder.Error.{Error, success, fail_if, >>=-eq-success, fail_if-eq-success}
use lunar_terrain_builder.Execution.{Moments, check_execution}
use lunar_terrain_builder.TileKey.{LunarTileKey, level, Children, children, parent}
use lunar_terrain_builder.TileKey.Family.{nth}
use lunar_terrain_builder.TileKey.Layout.{encoded-eq}
use lunar_terrain_builder.Database.Index.{TileIndexEntry}
use lunar_terrain_builder.Database.Tiles.{DecodedTerrainTile}
use lunar_terrain_builder.Validation.{
  TileList, EntryMap, has_key, child_bits, expected_mask, parent_present, index_entries,
  check_entry, check_entries, validate_hierarchy,
}
use lunar_terrain_builder.Validation.Loops.{entry_of, index_entries-entry_of}

-- Some entry of the list has this key.
unfoldable pub Lists : TileList → LunarTileKey → Type 0
Lists tiles key =
    (entry : TileIndexEntry) × (tile : DecodedTerrainTile) × Memᴰ (entry, tile) tiles
    × (entry.key ≡ key)

-- One, where the test holds.
abbrev pub one_if : Bool → ℕ
one_if true = 1
one_if false = 0

pub one_if-le : (b : Bool) → one_if b ≤ 1
one_if-le true = omega arith
one_if-le false = omega arith

-- One round of the loop over the quadrants.
with_bit :
    (q m : ℕ) (b : Bool)
    → m < 2 ^ q
    → 2 ^ q ≤ 8
    → (if b then u8 (bit_or m (u8 (2 ^ q))) else m) ≡ m + 2 ^ q * one_if b
with_bit q m true small word =
    let whole : u8 (2 ^ q) ≡ 1 * 2 ^ q = omega arith in
    rw (whole, bit_or-shifted q m 1 small) (omega arith)
with_bit q m false small word = omega arith

pub child_bits-sum :
    (present : ℕ → Bool)
    → child_bits present
      ≡ one_if (present 0)
        + 2 * one_if (present 1)
        + 4 * one_if (present 2)
        + 8 * one_if (present 3)
unfolding child_bits
child_bits-sum present =
    let body : ℕ → ℕ → ℕ = λ q m. if present q then u8 (bit_or m (u8 (2 ^ q))) else m in
    let a = one_if-le (present 0) in
    let b = one_if-le (present 1) in
    let c = one_if-le (present 2) in
    let e0 = with_bit 0 0 (present 0) (omega arith) (omega arith) in
    let e1 = with_bit 1 (for_up 1 body 0) (present 1) (omega (arith, e0, a)) (omega arith) in
    let e2 = with_bit 2 (for_up 2 body 0) (present 2) (omega (arith, e0, e1, a, b)) (omega arith) in
    let e3 =
      with_bit 3 (for_up 3 body 0) (present 3) (omega (arith, e0, e1, e2, a, b, c)) (omega arith) in
    omega (arith, e0, e1, e2, e3)

pub one_if_iff : (b : Bool) → (one_if b ≡ 1) ↔ (b ≡ true)
one_if_iff true = (λ h. refl, λ h. refl)
one_if_iff false = (λ h. absurd (omega (arith, h)), λ h. cc)

-- The bits of the mask are the tests.
pub child_bits-bit :
    (present : ℕ → Bool) (q : ℕ) → q < 4 → bit q (child_bits present) ≡ one_if (present q)
child_bits-bit present q h =
    let s = child_bits-sum present in
    let a = one_if-le (present 0) in
    let b = one_if-le (present 1) in
    let c = one_if-le (present 2) in
    let d = one_if-le (present 3) in
    pick q h (omega (arith, s, a, b, c, d)) (omega (arith, s, a, b, c, d))
      (omega (arith, s, a, b, c, d)) (omega (arith, s, a, b, c, d))
  where
    pick :
        (n : ℕ)
        → n < 4
        → bit 0 (child_bits present) ≡ one_if (present 0)
        → bit 1 (child_bits present) ≡ one_if (present 1)
        → bit 2 (child_bits present) ≡ one_if (present 2)
        → bit 3 (child_bits present) ≡ one_if (present 3)
        → bit n (child_bits present) ≡ one_if (present n)
    pick zero lt e0 e1 e2 e3 = e0
    pick (suc zero) lt e0 e1 e2 e3 = e1
    pick (suc (suc zero)) lt e0 e1 e2 e3 = e2
    pick (suc (suc (suc zero))) lt e0 e1 e2 e3 = e3
    pick (suc (suc (suc (suc n)))) lt e0 e1 e2 e3 = absurd (omega arith)

pub is_found-entry_of :
    (tiles : TileList) (key : LunarTileKey)
    → (is_found (entry_of tiles key.encoded) ≡ true) ↔ Lists tiles key
unfolding entry_of Lists
is_found-entry_of [] key = (λ h. cc, λ (e, t, m, k). elim m [ ])
is_found-entry_of ((entry, tile) ∷ rest) key =
    let (f, g) = is_found-entry_of rest key in
    elim (Bool-cases (entry.key.encoded == key.encoded)) [
      | inl same ↦ rw same (λ h. (entry, tile, head refl, encoded-eq (ground arith)), λ h. refl)
      | inr differs ↦ rw differs (
        λ h. let (e, t, m, k) = f h in (e, t, tail m, k),
        λ (e, t, m, k). elim (cases_cons m) [
          | inl same ↦
              let code : entry.key.encoded ≡ key.encoded =
                ap (λ (p : TileIndexEntry × DecodedTerrainTile). p.0.key.encoded) (sym same)
                ∙ ap (λ (j : LunarTileKey). j.encoded) k in
              absurd (differs-ne _ _ differs code)
          | inr m' ↦ g (e, t, m', k)
        ],
      )
    ]
  where
    differs-ne : (a b : ℕ) → (a == b) ≡ false → a ≢ b
    differs-ne a b h e = ground arith

pub passed : (b : Bool) (e : Error) → fail_if b e ≡ success tt → b ≡ false
passed true e h = cc
passed false e h = refl

no_orphan :
    (count l : ℕ) (present : Bool)
    → 1 < count
    → l ≢ 0
    → (ltb 1 count && l /= 0 && not present) ≡ false
    → present ≡ true
no_orphan count l true several deep h = refl
no_orphan count l false several deep h = ground arith

module _ (moments : Moments) (path : String) where
  pub check_entries-Mem :
      (by_key : EntryMap) (count : ℕ) (tiles : TileList) (n : ℕ) (entry : TileIndexEntry)
      (t : DecodedTerrainTile)
      → check_entries moments path by_key count tiles n ≡ success tt
      → Memᴰ (entry, t) tiles
      → check_entry moments path by_key count entry ≡ success tt
  unfolding check_entries
  check_entries-Mem by_key count [] n entry t h m = elim m [ ]
  check_entries-Mem by_key count ((e, tile) ∷ rest) n entry t h m =
      let (ok, checked, more) = >>=-eq-success (check_execution (moments n)) _ h in
      let (ok', fine, others) = >>=-eq-success (check_entry moments path by_key count e) _ more in
      elim (cases_cons m) [
        | inl same ↦
            ap
              (λ (p : TileIndexEntry × DecodedTerrainTile).
                check_entry moments path by_key count p.0)
              same
            ∙ fine
        | inr m' ↦ check_entries-Mem by_key count rest (suc n) entry t others m'
      ]

  pub validate_hierarchy-closed :
      (tiles : TileList) (entry : TileIndexEntry) (t : DecodedTerrainTile)
      → validate_hierarchy moments path tiles ≡ success tt
      → Memᴰ (entry, t) tiles
      → ((c : Children) (q : ℕ)
          → children entry.key ≡ success c
          → q < 4
          → (bit q entry.materialized_child_mask ≡ 1) ↔ Lists tiles (nth c q))
        × (1 < length tiles
            → level entry.key ≢ 0
            → (p : LunarTileKey) × (parent entry.key ≡ some p) × Lists tiles p)
  unfolding validate_hierarchy check_entry find
  validate_hierarchy-closed tiles entry t h m =
      let (by_key, indexed, checked) = >>=-eq-success (index_entries moments path tiles 0 []) _ h in
      let finds = index_entries-entry_of moments path tiles 0 [] by_key indexed in
      let fine = check_entries-Mem by_key (length tiles) tiles (length tiles) entry t checked m in
      let (mask_ok, rest) = fail_if-eq-success _ _ _ fine in
      let same : expected_mask by_key entry.key ≡ entry.materialized_child_mask =
        /=→eq _ _ mask_ok in
      let holds : (k : LunarTileKey) → has_key by_key k ≡ is_found (entry_of tiles k.encoded) =
        λ k. ap is_found (finds k.encoded) in
      (
        λ c q kids hq.
            let made : expected_mask by_key entry.key ≡ child_bits (λ i. has_key by_key (nth c i)) =
              rw (kids, expected_mask) refl in
            let bits : bit q entry.materialized_child_mask ≡ one_if (has_key by_key (nth c q)) =
              ap (bit q) (sym same ∙ made) ∙ child_bits-bit (λ i. has_key by_key (nth c i)) q hq in
            let (f, g) = is_found-entry_of tiles (nth c q) in
            let (one, back) = one_if_iff (has_key by_key (nth c q)) in
            (
              λ b. f (sym (holds (nth c q)) ∙ one (sym bits ∙ b)),
              λ there. bits ∙ back (holds (nth c q) ∙ g there),
            ),
        λ several deep.
            let present : parent_present by_key entry.key ≡ true =
              no_orphan (length tiles) (level entry.key) _ several deep (passed _ _ rest) in
            elim (Option-cases (parent entry.key)) [
              | inl none' ↦ cc (rw (none', parent_present) at present)
              | inr (p, up) ↦
                  let found : has_key by_key p ≡ true = rw (up, parent_present) at present in
                  (p, up, (is_found-entry_of tiles p).0 (sym (holds p) ∙ found))
            ],
      )
