-- ===== src/TileKey/Text/Equality.antt =====
-- The comparison of byte strings against their equality.
use lunar_terrain_builder.Base.{◌≡◌, ◌↔◌, refl, arith, true, [], ◌∷◌, subst}
use lunar_terrain_builder.TileKey.Text.{Bytes, bytes_eq}

pub bytes_eq_refl : (t : Bytes) → bytes_eq t t ≡ true
unfolding bytes_eq
bytes_eq_refl [] = refl
bytes_eq_refl (c ∷ cs) = ground (arith, bytes_eq_refl cs)

pub bytes_eq→eq : (s t : Bytes) → bytes_eq s t ≡ true → s ≡ t
unfolding bytes_eq
bytes_eq→eq [] [] h = refl
bytes_eq→eq [] (c ∷ t) h = cc
bytes_eq→eq (c ∷ s) [] h = cc
bytes_eq→eq (c ∷ s) (d ∷ t) h = ground (arith, bytes_eq→eq s t)

pub eq→bytes_eq : (s t : Bytes) → s ≡ t → bytes_eq s t ≡ true
eq→bytes_eq s t e = subst (λ (u : Bytes). bytes_eq s u ≡ true) e (bytes_eq_refl s)

pub bytes_eq_iff : (s t : Bytes) → (bytes_eq s t ≡ true) ↔ (s ≡ t)
bytes_eq_iff s t = (bytes_eq→eq s t, eq→bytes_eq s t)
