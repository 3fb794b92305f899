-- ===== src/TileKey/Text/Canonical.antt =====
-- `parse` against `to_string`: the canonical text of a key.
use lunar_terrain_builder.Base.{
  ℕ, suc, ◌^◌, ◌≤◌, ◌<◌, ◌≡◌, ◌≢◌, ◌∙◌, ◌↔◌, refl, sym, ap, subst, arith, true, false, Bool-cases,
  inl, inr, none, some, List, [], ◌∷◌, ◌++◌, length, All, get_or, drop,
}
use lunar_terrain_builder.Error.{Error, success, failure, >>=-eq-success, ◌>>=◌}
use lunar_terrain_builder.TileKey.{LunarTileKey, face, level, x, y, create}
use lunar_terrain_builder.TileKey.Layout.{IsKey}
use lunar_terrain_builder.TileKey.Create.{
  IsPlace, fields-IsPlace, create-fields, create_iff, create_place,
}
use lunar_terrain_builder.TileKey.Text.Equality.{bytes_eq_refl, bytes_eq→eq}
use lunar_terrain_builder.TileKey.Text.{
  Bytes, codes, bytes_eq, decimal, padded, find_slash, split_parts, split_key, bad_form, field,
  spelled, to_string, parse,
}
use lunar_terrain_builder.TileKey.Text.Decimal.{
  IsDigit, value, value-padded, padded-IsDigit, length-padded, decimal-IsDigit, value-decimal,
  length-decimal, decimal_pos, parse_decimal-value, find_slash-digits, find_slash-none,
}
use native.Mathlib.Nat.{pow-le-pow_right}

success-injective {ℓ} : {A : Type ℓ} {a b : A} → success a ≡ success b → a ≡ b
success-injective e = cc

failure-ne-success {ℓ} : {A : Type ℓ} {e : Error} {a : A} → failure e ≢ success a
failure-ne-success e = cc

split_last : (text : Bytes) → find_slash text ≡ none → split_parts 1 text ≡ some (text ∷ [])
unfolding split_parts
split_last text h = rw (h, split_parts)

split_next :
    (n : ℕ) (text before rest : Bytes) {parts : List Bytes}
    → find_slash text ≡ some (before, rest)
    → split_parts (suc n) rest ≡ some parts
    → split_parts (suc (suc n)) text ≡ some (before ∷ parts)
unfolding split_parts
split_next n text before rest h q = ground arith

-- A key's text with the numerals left open.
abbrev key_text : Bytes → Bytes → Bytes → Bytes → Bytes
key_text f l a b = codes "QSC/F" ++ (f ++ (codes "/L" ++ (l ++ (b'/' ∷ (a ++ (b'/' ∷ b))))))

module _ (f l a b : Bytes) (hf : All IsDigit f) (hl : All IsDigit l) (ha : All IsDigit a)
    (hb : All IsDigit b) where
  cut_name :
      find_slash (key_text f l a b)
      ≡ some (codes "QSC", b'F' ∷ (f ++ (codes "/L" ++ (l ++ (b'/' ∷ (a ++ (b'/' ∷ b)))))))
  unfolding find_slash
  cut_name = refl

  cut_face :
      find_slash (b'F' ∷ (f ++ (b'/' ∷ (b'L' ∷ (l ++ (b'/' ∷ (a ++ (b'/' ∷ b))))))))
      ≡ some (b'F' ∷ f, b'L' ∷ (l ++ (b'/' ∷ (a ++ (b'/' ∷ b)))))
  unfolding find_slash
  cut_face = rw (find_slash-digits f (b'L' ∷ (l ++ (b'/' ∷ (a ++ (b'/' ∷ b))))) hf)

  cut_level :
      find_slash (b'L' ∷ (l ++ (b'/' ∷ (a ++ (b'/' ∷ b))))) ≡ some (b'L' ∷ l, a ++ (b'/' ∷ b))
  unfolding find_slash
  cut_level = rw (find_slash-digits l (a ++ (b'/' ∷ b)) hl)

  parts2 : split_parts 2 (a ++ (b'/' ∷ b)) ≡ some (a ∷ b ∷ [])
  parts2 =
      split_next 0 (a ++ (b'/' ∷ b)) a b (find_slash-digits a b ha)
        (split_last b (find_slash-none b hb))

  parts3 : split_parts 3 (b'L' ∷ (l ++ (b'/' ∷ (a ++ (b'/' ∷ b))))) ≡ some ((b'L' ∷ l) ∷ a ∷ b ∷ [])
  parts3 =
      split_next 1 (b'L' ∷ (l ++ (b'/' ∷ (a ++ (b'/' ∷ b))))) (b'L' ∷ l) (a ++ (b'/' ∷ b)) cut_level
        parts2

  parts4 :
      split_parts 4 (b'F' ∷ (f ++ (b'/' ∷ (b'L' ∷ (l ++ (b'/' ∷ (a ++ (b'/' ∷ b))))))))
      ≡ some ((b'F' ∷ f) ∷ (b'L' ∷ l) ∷ a ∷ b ∷ [])
  parts4 =
      split_next 2 (b'F' ∷ (f ++ (b'/' ∷ (b'L' ∷ (l ++ (b'/' ∷ (a ++ (b'/' ∷ b)))))))) (b'F' ∷ f)
        (b'L' ∷ (l ++ (b'/' ∷ (a ++ (b'/' ∷ b))))) cut_face parts3

  parts5 :
      split_parts 5 (key_text f l a b) ≡ some (codes "QSC" ∷ (b'F' ∷ f) ∷ (b'L' ∷ l) ∷ a ∷ b ∷ [])
  parts5 =
      split_next 3 (key_text f l a b) (codes "QSC")
        (b'F' ∷ (f ++ (b'/' ∷ (b'L' ∷ (l ++ (b'/' ∷ (a ++ (b'/' ∷ b)))))))) cut_name parts4

  split_key-key_text :
      split_key (key_text f l a b) ≡ codes "QSC" ∷ (b'F' ∷ f) ∷ (b'L' ∷ l) ∷ a ∷ b ∷ []
  unfolding split_key
  split_key-key_text = rw (parts5, split_key)

  bad_form-key_text :
      length f ≡ 1
      → length l ≡ 2
      → 4 ≤ length a
      → 4 ≤ length b
      → bad_form (codes "QSC" ∷ (b'F' ∷ f) ∷ (b'L' ∷ l) ∷ a ∷ b ∷ []) ≡ false
  unfolding bad_form bytes_eq
  bad_form-key_text nf nl na nb = ground arith

field-numeral :
    (n : ℕ) (ds : Bytes)
    → All IsDigit ds
    → 0 < length ds
    → value 0 ds ≡ n
    → n < 2 ^ 32
    → field ds ≡ success n
unfolding field
field-numeral n ds h pos e fits =
    rw (parse_decimal-value ds h pos (omega (arith, e)), field) (ap success e)

field-decimal : (n : ℕ) → n < 2 ^ 32 → field (decimal n) ≡ success n
field-decimal n h =
    field-numeral n _ (decimal-IsDigit n) (decimal_pos n) (value-decimal n (omega arith)) h

field-padded : (w n : ℕ) → n < 2 ^ 32 → field (padded w (decimal n)) ≡ success n
field-padded w n h =
    field-numeral n _ (padded-IsDigit w _ (decimal-IsDigit n))
      (omega (arith, length-padded w (decimal n), decimal_pos n))
      (value-padded w (decimal n) ∙ value-decimal n (omega arith)) h

spelled-to_string : (k : LunarTileKey) → spelled (to_string k) k ≡ success k
unfolding spelled
spelled-to_string k = rw (bytes_eq_refl (to_string k))

-- Every well-formed key is read back from its text.
pub parse-to_string : (k : LunarTileKey) → IsKey k → parse (to_string k) ≡ success k
unfolding parse to_string
parse-to_string k v =
    rw
      (
        parts,
        form,
        field-decimal (face k) (omega (arith, p.face_range)),
        field-padded 2 (level k) (omega (arith, p.level_range)),
        field-padded 4 (x k) (omega (arith, p.x_range, side)),
        field-padded 4 (y k) (omega (arith, p.y_range, side)),
        create-fields k v,
      )
      (spelled-to_string k)
  where
    p : IsPlace (face k) (level k) (x k) (y k)
    p = fields-IsPlace k v

    side : 2 ^ level k ≤ 2 ^ 28
    side = pow-le-pow_right (omega arith) {j = 28} p.level_range

    parts :
        split_key (to_string k)
        ≡ codes "QSC"
          ∷ (b'F' ∷ decimal (face k))
          ∷ (b'L' ∷ padded 2 (decimal (level k)))
          ∷ padded 4 (decimal (x k))
          ∷ padded 4 (decimal (y k))
          ∷ []
    parts =
        split_key-key_text _ _ _ _ (decimal-IsDigit (face k))
          (padded-IsDigit 2 _ (decimal-IsDigit (level k)))
          (padded-IsDigit 4 _ (decimal-IsDigit (x k))) (padded-IsDigit 4 _ (decimal-IsDigit (y k)))

    form :
        bad_form (
          codes "QSC"
          ∷ (b'F' ∷ decimal (face k))
          ∷ (b'L' ∷ padded 2 (decimal (level k)))
          ∷ padded 4 (decimal (x k))
          ∷ padded 4 (decimal (y k))
          ∷ [])
        ≡ false
    form =
        bad_form-key_text _ _ _ _ (decimal-IsDigit (face k))
          (padded-IsDigit 2 _ (decimal-IsDigit (level k)))
          (padded-IsDigit 4 _ (decimal-IsDigit (x k))) (padded-IsDigit 4 _ (decimal-IsDigit (y k)))
          (omega
            (arith, length-decimal 0 (face k) (omega (arith, p.face_range)), decimal_pos (face k)))
          (omega (
            arith,
            length-padded 2 (decimal (level k)),
            length-decimal 1 (level k) (omega (arith, p.level_range)),
          ))
          (omega (arith, length-padded 4 (decimal (x k))))
          (omega (arith, length-padded 4 (decimal (y k))))

-- The last two steps of `parse`: a key that passes them is well formed and spelled as the text.
create-spelled :
    (text : Bytes) (f l a b : ℕ) (k : LunarTileKey)
    → (create f l a b >>= spelled text) ≡ success k
    → IsKey k × (to_string k ≡ text)
unfolding spelled
create-spelled text f l a b k h =
    let (k', made, same) = >>=-eq-success (create f l a b) (spelled text) h in
    let (j, built, at) = create_place f l a b ((create_iff f l a b).0 (rw made)) in
    let shown : bytes_eq (to_string k') text ≡ true = ground arith in
    let kept : k' ≡ k = ground arith in
    let one : j ≡ k = success-injective (sym built ∙ made) ∙ kept in
    (subst IsKey one at.key, rw kept at (bytes_eq→eq (to_string k') text shown))

-- A text that `parse` takes is the text of the well-formed key that it returns.
parse_only :
    (text : Bytes) (k : LunarTileKey) → parse text ≡ success k → IsKey k × (to_string k ≡ text)
unfolding parse
parse_only text k h = elim (Bool-cases (bad_form parts)) [
  | inl bad ↦ absurd (failure-ne-success (rw bad at h))
  | inr good ↦
      let (f, _, hf) = >>=-eq-success (field (drop 1 (get_or parts 1 []))) _ (rw good at h) in
      let (l, _, hl) = >>=-eq-success (field (drop 1 (get_or parts 2 []))) _ hf in
      let (a, _, ha) = >>=-eq-success (field (get_or parts 3 [])) _ hl in
      let (b, _, hb) = >>=-eq-success (field (get_or parts 4 [])) _ ha in
      create-spelled text f l a b k hb
]
  where
    parts : List Bytes
    parts = split_key text

-- `parse` takes exactly the texts of the well-formed keys, each for its key.
pub parse_iff :
    (text : Bytes) (k : LunarTileKey) → (parse text ≡ success k) ↔ (IsKey k × (to_string k ≡ text))
parse_iff text k = (parse_only text k, λ p. rw (← p.1) (parse-to_string k p.0))
