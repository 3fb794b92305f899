-- ===== src/Database/Query/Find.antt =====
-- The lookup of a tile by its key.
use lunar_terrain_builder.Base.{
  ℕ, ◌<◌, ◌≡◌, ◌↔◌, ◌⊎◌, ◌∙◌, inl, inr, sym, ap, subst, arith, true, some, List, [], ◌∷◌, All, ltb,
  Bool-cases,
}
use lunar_terrain_builder.TileKey.{LunarTileKey}
use lunar_terrain_builder.TileKey.Layout.{encoded-eq}
use lunar_terrain_builder.Database.Index.{TileIndexEntry}
use lunar_terrain_builder.Database.Index.Order.{IsIndex}
use lunar_terrain_builder.Database.Open.{DatabaseState}
use lunar_terrain_builder.Database.Query.{lookup, find_tile}

pub Holds : List TileIndexEntry → TileIndexEntry → Type 0
Holds [] e = ⊥
Holds (f ∷ rest) e = (f ≡ e) ⊎ Holds rest e

lookup-Holds :
    (entries : List TileIndexEntry) (key : LunarTileKey) (e : TileIndexEntry)
    → lookup entries key ≡ some e
    → Holds entries e × (e.key ≡ key)
unfolding lookup Holds
lookup-Holds [] key e h = cc
lookup-Holds (f ∷ rest) key e h = elim (Bool-cases (ltb f.key.encoded key.encoded)) [
  | inl before ↦ let (held, same) = lookup-Holds rest key e (ground arith) in (inr held, same)
  | inr reached ↦
      let found : f ≡ e = ground arith in
      let code : f.key.encoded ≡ key.encoded = ground arith in
      (inl found, sym (ap (λ (g : TileIndexEntry). g.key) found) ∙ encoded-eq code)
]

held-after :
    (entries : List TileIndexEntry) (n : ℕ) (e : TileIndexEntry)
    → All (λ (f : TileIndexEntry). n < f.key.encoded) entries
    → Holds entries e
    → n < e.key.encoded
unfolding Holds
held-after [] n e all held = absurd held
held-after (f ∷ rest) n e all (inl same) =
    subst (λ (g : TileIndexEntry). n < g.key.encoded) same all.0
held-after (f ∷ rest) n e all (inr held) = held-after rest n e all.1 held

lookup-held :
    (entries : List TileIndexEntry) (e : TileIndexEntry)
    → IsIndex entries
    → Holds entries e
    → lookup entries e.key ≡ some e
unfolding lookup IsIndex Holds
lookup-held [] e sorted held = absurd held
lookup-held (f ∷ rest) e sorted (inl same) =
    let code : f.key.encoded ≡ e.key.encoded = ap (λ (g : TileIndexEntry). g.key.encoded) same in
    let result : some f ≡ some e = ap some same in ground arith
lookup-held (f ∷ rest) e sorted (inr held) =
    let before : ltb f.key.encoded e.key.encoded ≡ true =
      ground (arith, held-after rest f.key.encoded e sorted.0 held) in
    rw before (lookup-held rest e sorted.1 held)

-- On a database whose index has strictly increasing keys, `find_tile` returns an entry exactly when
-- the index holds it and it has the key that was asked for.
pub find_tile_iff :
    (state : DatabaseState) (key : LunarTileKey) (e : TileIndexEntry)
    → IsIndex state.index
    → (find_tile state key ≡ some e) ↔ (Holds state.index e × (e.key ≡ key))
unfolding find_tile
find_tile_iff state key e sorted = (
  lookup-Holds state.index key e,
  λ (held, same).
      subst (λ k. lookup state.index k ≡ some e) same (lookup-held state.index e sorted held),
)
