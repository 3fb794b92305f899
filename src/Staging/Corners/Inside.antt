-- ===== src/Staging/Corners/Inside.antt =====
-- The seams that `collect_seams` collects, against the bounds of the batch.
use lunar_terrain_builder.Base.{
  ℕ, zero, suc, ◌+◌, ◌-◌, ◌*◌, ◌≤◌, ◌<◌, ◌≡◌, ◌↔◌, ◌∙◌, inl, inr, sym, ap, subst, arith, Bool, true,
  false, Option, none, some, List, [], ◌∷◌, ◌++◌, map, length, All, Bool-cases, Option-cases, ltb,
  if◌then◌else◌, ◌==◌, some-injective,
}
use lunar_terrain_builder.Base.Maps.{find, emplace_new, or_else, find-emplace_new}
use lunar_terrain_builder.Error.{success, >>=-eq-success}
use lunar_terrain_builder.TileKey.{LunarTileKey}
use lunar_terrain_builder.Topology.{QscEdge, QscTileNeighbor, qsc_tile_neighbor}
use lunar_terrain_builder.Validation.{core_vertices}
use lunar_terrain_builder.Staging.UnionFind.{iota, corner_classes, root_of}
use lunar_terrain_builder.Staging.UnionFind.Classes.{Joined, IsInside, corner_classes-Joined}
use lunar_terrain_builder.Staging.Corners.{
  core_sample_count, StagedElevationTile, SamplePatch, Seams, no_seams, join, corner_union,
  edge_patch, edge_seams, visit_neighbor, visit_edges, check_staged, index_staged, visit_tiles,
  collect_seams, all_edges,
}
use lunar_terrain_builder.Staging.Corners.Samples.{edge_core_index-lt, corner_node-lt, mirrored-lt}

-- Both ends of the patch are samples of tiles of a batch of this size.
pub record InBatch (n : ℕ) (patch : SamplePatch) : Type 0 where
  receiver : patch.receiving_tile < n
  receiving : patch.receiving_sample < core_sample_count
  owner : patch.owning_tile < n
  owning : patch.owning_sample < core_sample_count

pub record SeamsInside (n : ℕ) (s : Seams) : Type 0 where
  pub unions : All (IsInside (n * 4)) s.unions
  pub patches : All (InBatch n) s.patches

append-All {ℓ κ} :
    {A : Type ℓ} (P : A → Type κ) (xs ys : List A) → All P xs → All P ys → All P (xs ++ ys)
append-All P [] ys a b = b
append-All P (x ∷ xs) ys a b = (a.0, append-All P xs ys a.1 b)

success-injective : (s t : Seams) → success s ≡ success t → s ≡ t
success-injective s t e = cc

join-SeamsInside :
    (n : ℕ) (s t : Seams) → SeamsInside n s → SeamsInside n t → SeamsInside n (join s t)
join-SeamsInside n s t a b = record {
  unions = append-All (IsInside (n * 4)) s.unions t.unions a.unions b.unions;
  patches = append-All (InBatch n) s.patches t.patches a.patches b.patches;
}

no_seams-SeamsInside : (n : ℕ) → SeamsInside n no_seams
no_seams-SeamsInside n = record { unions = tt; patches = tt }

-- Every place in the map is below this number.
IsBelowAll : ℕ → List (ℕ × ℕ) → Type 0
IsBelowAll n by_key = (k i : ℕ) → find by_key k ≡ some i → i < n

module _ (n tile_index neighbor_index : ℕ) (edge : QscEdge) (neighbor : QscTileNeighbor)
    (tile_in : tile_index < n) (neighbor_in : neighbor_index < n) where
  corner_union-IsInside :
      (endpoint : ℕ)
      → IsInside (n * 4) (corner_union tile_index edge neighbor_index neighbor endpoint)
  unfolding IsInside corner_union
  corner_union-IsInside endpoint =
      (corner_node-lt tile_index n _ tile_in, corner_node-lt neighbor_index n _ neighbor_in)

  edge_patch-InBatch :
      (p : ℕ) → p < core_vertices → InBatch n (edge_patch tile_index edge neighbor_index neighbor p)
  unfolding edge_patch
  edge_patch-InBatch p h = record {
    receiver = neighbor_in;
    receiving = edge_core_index-lt neighbor.touching_edge _ (mirrored-lt neighbor.reversed p h);
    owner = tile_in;
    owning = edge_core_index-lt edge p h;
  }

  patches_inside :
      (count start : ℕ)
      → count + start ≤ core_vertices
      → All
          (InBatch n)
          (map (edge_patch tile_index edge neighbor_index neighbor) (iota count start))
  unfolding iota
  patches_inside zero start h = tt
  patches_inside (suc count) start h = (
    edge_patch-InBatch start (omega (arith, h)),
    patches_inside count (suc start) (omega (arith, h)),
  )

  edge_seams-SeamsInside : SeamsInside n (edge_seams tile_index edge neighbor_index neighbor)
  unfolding edge_seams
  edge_seams-SeamsInside = record {
    unions = (corner_union-IsInside 0, (corner_union-IsInside (core_vertices - 1), tt));
    patches = patches_inside (core_vertices - 2) 1 (omega arith);
  }

module _ (n : ℕ) (by_key : List (ℕ × ℕ)) (below : IsBelowAll n by_key) where
  visit_neighbor-SeamsInside :
      (key : LunarTileKey) (tile_index : ℕ) (edge : QscEdge) (neighbor : QscTileNeighbor)
      → tile_index < n
      → SeamsInside n (visit_neighbor by_key key tile_index edge neighbor)
  unfolding visit_neighbor IsBelowAll
  visit_neighbor-SeamsInside key tile_index edge neighbor h =
      elim (Option-cases (find by_key neighbor.key.encoded)) [
        | inl e ↦ rw (e, visit_neighbor) (no_seams-SeamsInside n)
        | inr (neighbor_index, e) ↦ elim (Bool-cases (ltb key.encoded neighbor.key.encoded)) [
          | inl l ↦
              rw (e, l, visit_neighbor)
                (edge_seams-SeamsInside n tile_index neighbor_index edge neighbor h
                  (below neighbor.key.encoded neighbor_index e))
          | inr l ↦ rw (e, l, visit_neighbor) (no_seams-SeamsInside n)
        ]
      ]

  visit_edges-SeamsInside :
      (key : LunarTileKey) (tile_index : ℕ) (edges : List QscEdge) (s : Seams)
      → tile_index < n
      → visit_edges by_key key tile_index edges ≡ success s
      → SeamsInside n s
  unfolding visit_edges
  visit_edges-SeamsInside key tile_index [] s h e =
      subst (SeamsInside n) (success-injective _ _ e) (no_seams-SeamsInside n)
  visit_edges-SeamsInside key tile_index (edge ∷ rest) s h e =
      let (neighbor, _, e1) = >>=-eq-success (qsc_tile_neighbor key edge) _ e in
      let (later, e2, e3) = >>=-eq-success (visit_edges by_key key tile_index rest) _ e1 in
      subst (SeamsInside n) (success-injective _ _ e3) (
        join-SeamsInside n _ _ (visit_neighbor-SeamsInside key tile_index edge neighbor h)
          (visit_edges-SeamsInside key tile_index rest later h e2))

  visit_tiles-SeamsInside {ℓ} :
      {A : Type ℓ} (tiles : List (StagedElevationTile A)) (tile_index : ℕ) (s : Seams)
      → tile_index + length tiles ≤ n
      → visit_tiles by_key tiles tile_index ≡ success s
      → SeamsInside n s
  unfolding visit_tiles
  visit_tiles-SeamsInside [] tile_index s h e =
      subst (SeamsInside n) (success-injective _ _ e) (no_seams-SeamsInside n)
  visit_tiles-SeamsInside (tile ∷ tiles) tile_index s h e =
      let (here', e1, e2) = >>=-eq-success (visit_edges by_key tile.key tile_index all_edges) _ e in
      let (later, e3, e4) = >>=-eq-success (visit_tiles by_key tiles (suc tile_index)) _ e2 in
      subst (SeamsInside n) (success-injective _ _ e4) (
        join-SeamsInside n _ _
          (visit_edges-SeamsInside tile.key tile_index all_edges here' (omega (arith, h)) e1)
          (visit_tiles-SeamsInside tiles (suc tile_index) later (omega (arith, h)) e3))

some_not_none : (i : ℕ) → Path (Option ℕ) none (some i) → ⊥
some_not_none i e = cc

emplace_new-IsBelowAll :
    (n : ℕ) (by_key : List (ℕ × ℕ)) (k : ℕ)
    → IsBelowAll n by_key
    → IsBelowAll (suc n) (emplace_new by_key k n)
unfolding IsBelowAll
emplace_new-IsBelowAll n by_key k below j i e =
    let f = sym (find-emplace_new by_key k j n) ∙ e in
    elim (Option-cases (find by_key j)) [
      | inl g ↦ late (k == j) (sym (ap (λ o. or_else o (if k == j then some n else none)) g) ∙ f)
      | inr (v, g) ↦
          let same : v ≡ i =
            some-injective v i
              (sym (ap (λ o. or_else o (if k == j then some n else none)) g) ∙ f) in
          omega (arith, same, below j v g)
    ]
  where
    late : (b : Bool) → (if b then some n else none) ≡ some i → i < suc n
    late true g = omega (arith, some-injective n i g)
    late false g = absurd (some_not_none i g)

same_map : (m out : List (ℕ × ℕ)) → success m ≡ success out → m ≡ out
same_map m out e = cc

index_staged-IsBelowAll {ℓ} :
    {A : Type ℓ} (tiles : List (StagedElevationTile A)) (index : ℕ) (by_key out : List (ℕ × ℕ))
    → IsBelowAll index by_key
    → index_staged tiles index by_key ≡ success out
    → IsBelowAll (index + length tiles) out
unfolding index_staged
index_staged-IsBelowAll [] index by_key out below e =
    subst (λ n. IsBelowAll n out) (omega arith)
      (subst (IsBelowAll index) (same_map by_key out e) below)
index_staged-IsBelowAll (tile ∷ tiles) index by_key out below e =
    let (_, _, e2) = >>=-eq-success (check_staged by_key tile) _ e in
    subst (λ n. IsBelowAll n out) (omega arith)
      (index_staged-IsBelowAll tiles (suc index) _ out
        (emplace_new-IsBelowAll index by_key tile.key.encoded below) e2)

none-IsBelowAll : IsBelowAll 0 []
unfolding IsBelowAll find
none-IsBelowAll k i e = absurd (some_not_none i e)

collect_seams-SeamsInside {ℓ} :
    {A : Type ℓ} (tiles : List (StagedElevationTile A)) (s : Seams)
    → collect_seams tiles ≡ success s
    → SeamsInside (length tiles) s
unfolding collect_seams
collect_seams-SeamsInside tiles s e =
    let (by_key, e1, e2) = >>=-eq-success (index_staged tiles 0 []) _ e in
    let below : IsBelowAll (length tiles) by_key =
      subst (λ n. IsBelowAll n by_key) (omega arith)
        (index_staged-IsBelowAll tiles 0 [] by_key none-IsBelowAll e1) in
    visit_tiles-SeamsInside (length tiles) by_key below tiles 0 s (omega arith) e2

-- When `collect_seams` succeeds on tiles, each of its patches joins samples inside the cores of tiles
-- of the batch, and `corner_classes` over four corners a tile ends on its unions: two corners of the
-- batch then have the same root exactly where a chain of unions connects them.
pub collect_seams-classes {ℓ} :
    {A : Type ℓ} (tiles : List (StagedElevationTile A)) (s : Seams)
    → collect_seams tiles ≡ success s
    → All (InBatch (length tiles)) s.patches
      × ((parents : List ℕ) × (corner_classes (length tiles * 4) s.unions ≡ some parents)
          × ((i j : ℕ)
              → i < length tiles * 4
              → j < length tiles * 4
              → (root_of parents i ≡ root_of parents j) ↔ Joined s.unions i j))
collect_seams-classes tiles s e =
    let inside = collect_seams-SeamsInside tiles s e in
    let (parents, done, _, _, same_root) =
      corner_classes-Joined (length tiles * 4) s.unions inside.unions in
    (inside.patches, (parents, done, same_root))
