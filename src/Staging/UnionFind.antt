-- ===== src/Staging/UnionFind.antt =====
-- `find_root` and `unite` of src/builder/tile_staging.cpp. The loops run on fuel: `none` where it
-- runs out. Where no parent is larger than its child, each round goes to a smaller node, so the
-- node itself is fuel enough.
pub mod Roots
pub mod Link
pub mod Classes
use lunar_terrain_builder.Base.{
  ℕ, zero, suc, Option, none, some, List, [], ◌∷◌, get_or, set, ◌==◌, if◌then◌else◌, min, max,
}

infixl 5 ◌>>=◌
abbrev pub ◌>>=◌ {ℓ κ} : {A : Type ℓ} {B : Type κ} → Option A → (A → Option B) → Option B
some a >>= f = f a
none >>= f = none

abbrev pub parent_of : List ℕ → ℕ → ℕ
parent_of parents node = get_or parents node 0

-- `while (parents[root] != root) root = parents[root];`
unfoldable pub seek : ℕ → List ℕ → ℕ → Option ℕ
seek zero parents root = if parent_of parents root == root then some root else none
seek (suc fuel) parents root =
    let rest = seek fuel parents (parent_of parents root) in
    if parent_of parents root == root then some root else rest

-- The second loop: every node on the way to the root becomes its child.
unfoldable pub compress : ℕ → List ℕ → ℕ → ℕ → Option (List ℕ)
compress zero parents current root =
    if parent_of parents current == current then some parents else none
compress (suc fuel) parents current root =
    let rest = compress fuel (set parents current root) (parent_of parents current) root in
    if parent_of parents current == current then some parents else rest

unfoldable pub find_root : List ℕ → ℕ → Option (ℕ × List ℕ)
unfolding seek compress
find_root parents node = do
  root ← seek node parents node
  compressed ← compress node parents node root
  some (root, compressed)

unfoldable pub link : ℕ → ℕ → List ℕ → List ℕ
link first_root second_root parents =
    if first_root == second_root
    then parents
    else set parents (max first_root second_root) (min first_root second_root)

unfoldable pub unite : List ℕ → ℕ → ℕ → Option (List ℕ)
unfolding find_root link
unite parents first second = do
  found ← find_root parents first
  found' ← find_root found.1 second
  some (link found.0 found'.0 found'.1)

-- `std::iota` over this many elements
unfoldable pub iota : ℕ → ℕ → List ℕ
iota zero value = []
iota (suc n) value = value ∷ iota n (suc value)

unfoldable pub unite_all : List ℕ → List (ℕ × ℕ) → Option (List ℕ)
unite_all parents [] = some parents
unite_all parents (pair ∷ pairs) = do united ← unite parents pair.0 pair.1; unite_all united pairs

-- The corner classes behind the calls of `unite`: the parents of this many nodes.
unfoldable pub corner_classes : ℕ → List (ℕ × ℕ) → Option (List ℕ)
unfolding iota unite_all
corner_classes n pairs = unite_all (iota n 0) pairs

-- The root that `find_root` returns for a node.
unfoldable pub root_of : List ℕ → ℕ → Option ℕ
unfolding find_root
root_of parents node = do found ← find_root parents node; some found.0
