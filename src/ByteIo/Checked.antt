-- ===== src/ByteIo/Checked.antt =====
-- `checked_add` and `checked_multiply` of src/core/byte_io.cpp against the exact results.
use lunar_terrain_builder.Base.{
  ℕ, ◌+◌, ◌-◌, ◌*◌, ◌/◌, ◌^◌, ◌≤◌, ◌<◌, ◌≡◌, ◌↔◌, ◌⊎◌, ◌/=◌, zero, suc, refl, ap, ltb→lt, arith,
  IsU64, u64_max, ltb, true, Bool-cases, inl, inr,
}
use lunar_terrain_builder.Error.{ErrorCode, success, FailsWith}
use lunar_terrain_builder.ByteIo.{checked_add, checked_multiply}
use native.Mathlib.Nat.{div-lt_iff_lt-mul, mod-eq_of_lt}

-- On 64-bit operands, `checked_add` returns the exact sum where it fits 64 bits, and fails with an
-- overflow where it does not.
pub checked_add_exact :
    (a b : ℕ)
    → IsU64 a
    → IsU64 b
    → (checked_add a b ≡ success (a + b)) × IsU64 (a + b)
      ⊎ FailsWith ErrorCode.arithmetic_overflow (checked_add a b) × (2 ^ 64 ≤ a + b)
unfolding checked_add
checked_add_exact a b ha hb = elim (Bool-cases (ltb (u64_max - a) b)) [
  | inl over ↦ inr (rw over refl, ground arith)
  | inr fits ↦ inl (ground arith, ground arith)
]

-- The test of `checked_multiply`, without the division.
over_iff : (a b : ℕ) → 0 < a → (u64_max / a < b) ↔ (u64_max < b * a)
over_iff a b h = div-lt_iff_lt-mul h

-- On 64-bit operands, `checked_multiply` returns the exact product where it fits 64 bits, and fails
-- with an overflow where it does not.
pub checked_multiply_exact :
    (a b : ℕ)
    → IsU64 a
    → IsU64 b
    → (checked_multiply a b ≡ success (a * b)) × IsU64 (a * b)
      ⊎ FailsWith ErrorCode.arithmetic_overflow (checked_multiply a b) × (2 ^ 64 ≤ a * b)
unfolding checked_multiply
checked_multiply_exact zero b ha hb =
    let none : 0 * b ≡ 0 = omega arith in inl (rw none, omega arith)
checked_multiply_exact (suc a) b ha hb = elim (Bool-cases (ltb (u64_max / suc a) b)) [
  | inl over ↦
      let big = (over_iff (suc a) b (omega arith)).0 (ltb→lt _ _ over) in
      let nonzero : (suc a /= 0) ≡ true = ground arith in
      inr (rw (over, nonzero) refl, omega (arith, big))
  | inr fits ↦
      let small : suc a * b < 2 ^ 64 = ground (arith, over_iff (suc a) b (omega arith)) in
      let nonzero : (suc a /= 0) ≡ true = ground arith in
      inl (rw (fits, nonzero) (ap success (mod-eq_of_lt small)), small)
]

pub checked_multiply-fits :
    (a b : ℕ) → IsU64 a → IsU64 b → IsU64 (a * b) → checked_multiply a b ≡ success (a * b)
checked_multiply-fits a b ha hb fits = elim (checked_multiply_exact a b ha hb) [
  | inl exact ↦ exact.0
  | inr over ↦ absurd (omega (arith, over.1))
]
