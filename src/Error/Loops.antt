-- ===== src/Error/Loops.antt =====
-- Counted loops whose body may return from the function with an error.
use lunar_terrain_builder.Base.{ℕ, zero, suc, ◌+◌, ◌*◌, ◌<◌, ◌≡◌, refl, subst, sym, arith}
use lunar_terrain_builder.Error.{Result, success, ◌>>=◌, >>=-eq-success}

module _ {ℓ} {S : Type ℓ} where
  abbrev pub try_up : ℕ → (ℕ → S → Result S) → S → Result S
  try_up zero body s = success s
  try_up (suc n) body s = try_up n body s >>= body n

-- The loop goes through, and ends in a state with the property.
abbrev pub Ends {ℓ κ} : {S : Type ℓ} → (S → Type κ) → Result S → Type (ℓ ⊔ κ)
Ends {S} P m = (s : S) × (m ≡ success s) × P s

module _ {ℓ κ} {S : Type ℓ} (P : ℕ → S → Type κ) where
  pub try_up_inv :
      (n : ℕ) (body : ℕ → S → Result S)
      → ((i : ℕ) (s : S) → i < n → P i s → Ends (P (suc i)) (body i s))
      → (s : S) → P 0 s
      → Ends (P n) (try_up n body s)
  try_up_inv zero body keep s h = (s, refl, h)
  try_up_inv (suc n) body keep s h =
      let (t, e, p) = try_up_inv n body (λ i t lt. keep i t (omega arith)) s h in
      let (u, f, q) = keep n t (omega arith) p in (u, rw (e, f), q)

module _ {ℓ κ} {S : Type ℓ} (P : ℕ → S → Type κ) (w : ℕ) (body : ℕ → ℕ → S → Result S) where
  pub try_grid_inv :
      (h : ℕ)
      → ((y x : ℕ) (s : S)
          → y < h
          → x < w
          → P (y * w + x) s
          → Ends (P (y * w + suc x)) (body y x s))
      → (s : S) → P 0 s
      → Ends (P (h * w)) (try_up h (λ y. try_up w (body y)) s)
  try_grid_inv zero keep s p =
      let e : 0 * w ≡ 0 = omega arith in (s, refl, subst (λ n. P n s) (sym e) p)
  try_grid_inv (suc h) keep s p =
      let (t, e, q) = try_grid_inv h (λ y x t hy hx. keep y x t (omega arith) hx) s p in
      let start : h * w ≡ h * w + 0 = omega arith in
      let stop : h * w + w ≡ suc h * w = omega arith in
      let (u, f, r) =
        try_up_inv (λ x t. P (h * w + x) t) w (body h) (λ x t hx q. keep h x t (omega arith) hx q) t
          (subst (λ n. P n t) start q) in
      (u, rw (e, f), subst (λ n. P n u) stop r)

-- A loop that goes through keeps what each round that goes through keeps.
module _ {ℓ κ} {S : Type ℓ} (P : S → Type κ) where
  pub try_up_keeps :
      (n : ℕ) (body : ℕ → S → Result S)
      → ((i : ℕ) (s t : S) → P s → body i s ≡ success t → P t)
      → (s t : S) → P s
      → try_up n body s ≡ success t
      → P t
  try_up_keeps zero body keep s t p h = subst P (success-injective s t h) p
    where
      success-injective : (a b : S) → success a ≡ success b → a ≡ b
      success-injective a b e = cc
  try_up_keeps (suc n) body keep s t p h =
      let (u, e, f) = >>=-eq-success (try_up n body s) (body n) h in
      keep n u t (try_up_keeps n body keep s u p e) f

-- The same where the property counts the rounds.
module _ {ℓ κ} {S : Type ℓ} (P : ℕ → S → Type κ) where
  pub try_up_counts :
      (n : ℕ) (body : ℕ → S → Result S)
      → ((i : ℕ) (s t : S) → i < n → P i s → body i s ≡ success t → P (suc i) t)
      → (s t : S) → P 0 s
      → try_up n body s ≡ success t
      → P n t
  try_up_counts zero body keep s t p h = subst (P 0) (success-injective s t h) p
    where
      success-injective : (a b : S) → success a ≡ success b → a ≡ b
      success-injective a b e = cc
  try_up_counts (suc n) body keep s t p h =
      let (u, e, f) = >>=-eq-success (try_up n body s) (body n) h in
      keep n u t (omega arith) (try_up_counts n body (λ i a b lt. keep i a b (omega arith)) s u p e)
        f
