-- ===== src/Version.antt =====
-- mujina-miner/src/job_source/version.rs: the general purpose bits of a block version, and versions
-- that may be rolled in them. A `Version` is the bit pattern of its `i32`.
pub mod Rolling
use mujina.Common.{
  ℕ, ◌+◌, ◌-◌, ◌*◌, ◌/◌, ◌%◌, ◌^◌, bit_and, bit_or, Bool, ◌&&◌, not, ◌==◌, if◌then◌else◌,
}
use mujina.Common.{Result, ok, err}
use mujina.Common.Words.{Bytes4, from_be_bytes}

-- `[u8; 2]`.
pub record GeneralPurposeBits : Type 0 where
  pub high : ℕ
  pub low : ℕ

unfoldable pub all_bits : GeneralPurposeBits
all_bits = record { high = 0xff; low = 0xff }

unfoldable pub no_bits : GeneralPurposeBits
no_bits = record { high = 0; low = 0 }

-- `(b & !m) == 0` of each byte.
unfoldable pub contains : GeneralPurposeBits → GeneralPurposeBits → Bool
contains mask value =
    (bit_and value.high (0xff - mask.high) == 0) && (bit_and value.low (0xff - mask.low) == 0)

-- `u16::from_be_bytes`.
unfoldable pub bits_of : GeneralPurposeBits → ℕ
bits_of gp_bits = gp_bits.high * 2 ^ 8 + gp_bits.low

unfoldable pub apply_to_version : GeneralPurposeBits → ℕ → ℕ
unfolding bits_of
apply_to_version gp_bits base_version = bit_or base_version (bits_of gp_bits * 2 ^ 13 % 2 ^ 32)

unfoldable pub from_mask_bytes : Bytes4 → GeneralPurposeBits
unfolding from_be_bytes
from_mask_bytes mask_bytes =
    let bits = from_be_bytes mask_bytes / 2 ^ 13 % 2 ^ 16 in
    record { high = bits / 2 ^ 8 % 2 ^ 8; low = bits % 2 ^ 8 }

pub data VersionTemplateError : Type 0 where
  base_has_general_purpose_bits :
      (base_value : ℕ) (gp_bits : GeneralPurposeBits) → VersionTemplateError
  gp_bits_exceed_mask :
      (gp_bits : GeneralPurposeBits) (mask : GeneralPurposeBits) → VersionTemplateError

pub record VersionTemplate : Type 0 where
  pub base : ℕ
  pub gp_bits_mask : GeneralPurposeBits

unfoldable pub template : ℕ → GeneralPurposeBits → Result VersionTemplateError VersionTemplate
template base gp_bits_mask =
    let gp_region = bit_and (base / 2 ^ 13) 0xffff in
    if not (gp_region == 0)
    then err (
        base_has_general_purpose_bits base
          (record { high = gp_region / 2 ^ 8 % 2 ^ 8; low = gp_region % 2 ^ 8 }))
    else ok (record { base = base; gp_bits_mask = gp_bits_mask })

unfoldable pub apply_gp_bits : VersionTemplate → GeneralPurposeBits → Result VersionTemplateError ℕ
unfolding contains apply_to_version
apply_gp_bits t gp_bits =
    if not (contains t.gp_bits_mask gp_bits)
    then err (gp_bits_exceed_mask gp_bits t.gp_bits_mask)
    else ok (apply_to_version gp_bits t.base)
