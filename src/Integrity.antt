-- ===== src/Integrity.antt =====
-- Checksums and hashes: src/core/integrity.cpp, include/lunar/terrain/digest.hpp, and the
-- `DigestAccumulator` of src/core/database.cpp. OpenSSL is a parameter.
use lunar_terrain_builder.Base.{
  ℕ, ◌-◌, ◌/◌, ◌^◌, bit_and, bit_xor, [], ◌∷◌, Option, none, some, ◌/=◌, length, u8, u32,
  if◌then◌else◌,
}
use lunar_terrain_builder.Base.Loops.{for_up}
use lunar_terrain_builder.Error.{ErrorCode, make_error, Result, success, failure}
use lunar_terrain_builder.ByteIo.{Bytes}
use lunar_terrain_builder.ByteWriter.{append_u16, append_u32, append_u64}

-- `value & 1` decides the mask, which is all ones or zero.
unfoldable pub crc_bit : ℕ → ℕ
crc_bit value =
    let mask = u32 (2 ^ 32 - bit_and value 1) in bit_xor (value / 2) (bit_and 0x82F63B78 mask)

unfoldable pub crc_byte : ℕ → ℕ → ℕ
unfolding crc_bit
crc_byte value byte = for_up 8 (λ bit v. crc_bit v) (bit_xor value byte)

unfoldable pub crc_bytes : ℕ → Bytes → ℕ
unfolding crc_byte
crc_bytes value [] = value
crc_bytes value (byte ∷ rest) = crc_bytes (crc_byte value byte) rest

unfoldable pub crc32c : Bytes → ℕ
unfolding crc_bytes
crc32c bytes = bit_xor (crc_bytes 0xFFFFFFFF bytes) 0xFFFFFFFF

-- The calls of OpenSSL's digest interface: `create` is `EVP_MD_CTX_new` and `EVP_DigestInit_ex`
-- with SHA-256, `update` is `EVP_DigestUpdate` and `finish` is `EVP_DigestFinal_ex`, which gives the
-- bytes that it writes. Each may fail.
pub record Openssl : Type 1 where
  pub Context : Type 0
  pub create : Option Context
  pub update : Context → Bytes → Option Context
  pub finish : Context → Option Bytes

module _ (o : Openssl) where
  -- `DigestAccumulator`: the context is there while `valid_` holds.
  pub record DigestAccumulator : Type 0 where
    pub context : Option (o.Context)

  unfoldable pub new_digest : DigestAccumulator
  new_digest = record { context = o.create }

  unfoldable pub update_context : Option (o.Context) → Bytes → Option (o.Context)
  update_context none bytes = none
  update_context (some c) bytes = o.update c bytes

  unfoldable pub update : Bytes → DigestAccumulator → DigestAccumulator
  unfolding update_context
  update bytes d = record { context = update_context d.context bytes }

  unfoldable pub update_u8 : ℕ → DigestAccumulator → DigestAccumulator
  unfolding update
  update_u8 value d = update (u8 value ∷ []) d

  unfoldable pub update_u16 : ℕ → DigestAccumulator → DigestAccumulator
  unfolding update
  update_u16 value d = update (append_u16 [] value) d

  unfoldable pub update_u32 : ℕ → DigestAccumulator → DigestAccumulator
  unfolding update
  update_u32 value d = update (append_u32 [] value) d

  unfoldable pub update_u64 : ℕ → DigestAccumulator → DigestAccumulator
  unfolding update
  update_u64 value d = update (append_u64 [] value) d

  -- `update_text(domain) && update_u8(0)`; an invalid digest stays invalid.
  unfoldable pub update_domain : Bytes → DigestAccumulator → DigestAccumulator
  unfolding update update_u8
  update_domain domain d = update_u8 0 (update domain d)

  unfoldable pub finish_context : Option (o.Context) → Option Bytes
  finish_context none = none
  finish_context (some c) = o.finish c

  unfoldable pub finish : DigestAccumulator → Result Bytes
  unfolding finish_context
  finish d = elim (finish_context d.context) [
    | none ↦ failure (make_error ErrorCode.internal_error "OpenSSL SHA-256 calculation failed")
    | some digest ↦
        if length digest /= 32
        then failure (make_error ErrorCode.internal_error "OpenSSL SHA-256 calculation failed")
        else success digest
  ]
