-- ===== src/Base/Loops.antt =====
-- Counted loops: `for (i = 0; i < n; ++i) s = body(i, s)`.
use Prim.Native.Nat.{ℕ, zero, suc, ◌+◌, ◌*◌, ◌<◌}
use mathlib.Core.Path.{◌≡◌, subst, sym}
use native.Mathlib.Omega.{arith}

module _ {ℓ} {S : Type ℓ} where
  -- The state after `n` rounds; the last of them is round `n - 1`.
  abbrev pub for_up : ℕ → (ℕ → S → S) → S → S
  for_up zero body s = s
  for_up (suc n) body s = body n (for_up n body s)

module _ {ℓ κ} {S : Type ℓ} (P : ℕ → S → Type κ) where
  -- The invariant rule: `P i` holds at the start of round `i`.
  pub for_up_inv :
      (n : ℕ) (body : ℕ → S → S)
      → ((i : ℕ) (s : S) → i < n → P i s → P (suc i) (body i s))
      → (s : S) → P 0 s
      → P n (for_up n body s)
  for_up_inv zero body keep s h = h
  for_up_inv (suc n) body keep s h =
      keep n _ (omega arith) (for_up_inv n body (λ i t lt. keep i t (omega arith)) s h)

-- Two loops, one inside the other, over the cells of a grid of rows of `w`.
module _ {ℓ κ} {S : Type ℓ} (P : ℕ → S → Type κ) (w : ℕ) (body : ℕ → ℕ → S → S) where
  pub for_grid_inv :
      (h : ℕ)
      → ((y x : ℕ) (s : S) → y < h → x < w → P (y * w + x) s → P (y * w + suc x) (body y x s))
      → (s : S) → P 0 s
      → P (h * w) (for_up h (λ y. for_up w (body y)) s)
  for_grid_inv zero keep s p = let e : 0 * w ≡ 0 = omega arith in subst (λ n. P n s) (sym e) p
  for_grid_inv (suc h) keep s p =
      let before = for_grid_inv h (λ y x t hy hx. keep y x t (omega arith) hx) s p in
      let start : h * w ≡ h * w + 0 = omega arith in
      let stop : h * w + w ≡ suc h * w = omega arith in
      subst (λ n. P n (for_up w (body h) (for_up h (λ y. for_up w (body y)) s))) stop
        (for_up_inv (λ x t. P (h * w + x) t) w (body h) (λ x t hx q. keep h x t (omega arith) hx q)
          _ (subst (λ n. P n (for_up h (λ y. for_up w (body y)) s)) start before))
