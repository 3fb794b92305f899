-- ===== src/Error.antt =====
-- Errors and results: include/lunar/terrain/error.hpp, src/core/error.cpp and
-- include/lunar/terrain/result.hpp. A path is kept as its text.
pub mod Code
pub mod Loops
pub use Code.{ErrorCode, error_code_name}
use lunar_terrain_builder.Base.{
  ℕ, String, Bool, true, false, Option, none, some, ◌≡◌, refl, ◌⊎◌, inl, inr,
}

pub record ErrorContext : Type 0 where
  pub file_offset : Option ℕ
  pub path : String
  pub tile_key : Option ℕ
  pub channel_id : Option ℕ

pub record Error : Type 0 where
  pub code : ErrorCode
  pub message : String
  pub context : ErrorContext

abbrev pub no_context : ErrorContext
no_context = record { file_offset = none; path = ""; tile_key = none; channel_id = none }

-- `Error{code, message}`
abbrev pub make_error : ErrorCode → String → Error
make_error code message = record { code = code; message = message; context = no_context }

abbrev pub with_offset : Error → ℕ → Error
with_offset e offset = record e { context = record e.context { file_offset = some offset } }

abbrev pub with_path : Error → String → Error
with_path e value = record e { context = record e.context { path = value } }

abbrev pub with_tile_key : Error → ℕ → Error
with_tile_key e key = record e { context = record e.context { tile_key = some key } }

abbrev pub with_channel : Error → ℕ → Error
with_channel e id = record e { context = record e.context { channel_id = some id } }

-- `Result<T>`; `Result<void>` is `Result Unit`.
pub data Result {ℓ} (A : Type ℓ) : Type ℓ where
  success : A → Result A
  failure : Error → Result A

module _ {ℓ} {A : Type ℓ} where
  abbrev pub has_value : Result A → Bool
  has_value (success a) = true
  has_value (failure e) = false

  -- The result fails with this code.
  abbrev pub FailsWith : ErrorCode → Result A → Type 0
  FailsWith c (success a) = ⊥
  FailsWith c (failure e) = e.code ≡ c

-- `if (!r) return failure(r.error());` and then the rest, which reads `r.value()`.
infixl 5 ◌>>=◌ ◌>>◌
abbrev pub ◌>>=◌ {ℓ κ} : {A : Type ℓ} {B : Type κ} → Result A → (A → Result B) → Result B
success a >>= f = f a
failure e >>= f = failure e

abbrev pub ◌>>◌ {ℓ} : {B : Type ℓ} → Result (Unit {0}) → Result B → Result B
m >> k = m >>= λ _. k

-- `if (test) return failure(e);`
abbrev pub fail_if : Bool → Error → Result (Unit {0})
fail_if true e = failure e
fail_if false e = success tt

-- Inversion of a successful bind, for proofs where the parts stay shut.
pub >>=-eq-success {ℓ κ} :
    {A : Type ℓ} {B : Type κ} (m : Result A) (f : A → Result B) {b : B}
    → (m >>= f) ≡ success b
    → (a : A) × (m ≡ success a) × (f a ≡ success b)
>>=-eq-success (success a) f h = (a, refl, h)
>>=-eq-success (failure e) f h = cc

pub FailsWith→no_value {ℓ} :
    {A : Type ℓ} (c : ErrorCode) (m : Result A) → FailsWith c m → has_value m ≡ false
FailsWith→no_value c (success a) h = absurd h
FailsWith→no_value c (failure e) h = refl

pub fail_if-eq-success {ℓ} :
    {A : Type ℓ} (b : Bool) (e : Error) (m : Result A) {a : A}
    → (fail_if b e >> m) ≡ success a
    → (b ≡ false) × (m ≡ success a)
fail_if-eq-success true e m h = cc
fail_if-eq-success false e m h = (refl, h)

-- To split on a computed result and keep the equation.
pub Result-cases {ℓ} :
    {A : Type ℓ} (m : Result A) → ((a : A) × (m ≡ success a)) ⊎ ((e : Error) × (m ≡ failure e))
Result-cases (success a) = inl (a, refl)
Result-cases (failure e) = inr (e, refl)
