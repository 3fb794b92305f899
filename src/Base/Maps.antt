-- ===== src/Base/Maps.antt =====
-- `std::map` with a number as its key: a list of pairs in which the first pair of a key counts.
use Prim.Native.Nat.{ℕ}
use mathlib.Core.Path.{◌≡◌}
use mathlib.Core.Bool.{Bool, true, false}
use mathlib.Core.Option.{Option, none, some}
use mathlib.Core.List.{List, [], ◌∷◌}
use lunar_terrain_builder.Base.Tests.{◌==◌, if◌then◌else◌}
use native.Mathlib.Omega.{arith}

module _ {ℓ} {V : Type ℓ} where
  unfoldable pub find : List (ℕ × V) → ℕ → Option V
  find [] k = none
  find ((j, v) ∷ m) k = if j == k then some v else find m k

  abbrev pub is_found : Option V → Bool
  is_found none = false
  is_found (some v) = true

  abbrev pub or_else : Option V → Option V → Option V
  or_else (some v) o = some v
  or_else none o = o

  -- An entry of the key that is there already stays.
  unfoldable pub emplace_new : List (ℕ × V) → ℕ → V → List (ℕ × V)
  unfolding find
  emplace_new m k v = elim (find m k) [ none ↦ (k, v) ∷ m | some w ↦ m ]

  pub find-emplace_new :
      (m : List (ℕ × V)) (k j : ℕ) (v : V)
      → find (emplace_new m k v) j ≡ or_else (find m j) (if k == j then some v else none)
  unfolding emplace_new find
  find-emplace_new m k j v = ground arith
