-- ===== src/Runs/Versions.antt =====
-- Versions of mujina-miner/src/job_source/version.rs rolled as in its examples.
use mujina.Common.{ℕ, ◌/◌, ◌%◌, ◌^◌, ◌≡◌, refl, arith, ok, err}
use mujina.Common.Words.{to_be_bytes}
use mujina.Version.{
  GeneralPurposeBits, VersionTemplate, bits_of, template, apply_to_version, apply_gp_bits,
  from_mask_bytes, gp_bits_exceed_mask, no_bits,
}
use mujina.Version.Rolling.{apply_gp_bits-fields, from_mask_bytes-apply_to_version}

abbrev sample_bits : GeneralPurposeBits
sample_bits = record { high = 0x05; low = 0xa2 }

abbrev sample_mask : GeneralPurposeBits
sample_mask = record { high = 0xff; low = 0xff }

abbrev sample_template : VersionTemplate
sample_template = record { base = 0x2000_0000; gp_bits_mask = sample_mask }

made : template 0x2000_0000 sample_mask ≡ ok sample_template
unfolding template
made = refl

rolled : apply_gp_bits sample_template sample_bits ≡ ok 0x20b4_4000
unfolding apply_gp_bits
rolled = refl

refused :
    apply_gp_bits (record { base = 0x2000_0000; gp_bits_mask = no_bits }) sample_bits
    ≡ err (gp_bits_exceed_mask sample_bits no_bits)
unfolding apply_gp_bits no_bits
refused = refl

abbrev sample_version : ℕ
sample_version = 0x20b4_4000

abbrev sample_base : ℕ
sample_base = 0x2000_0000

apply_gp_bits-fields_example :
    (sample_version / 2 ^ 13 % 2 ^ 16 ≡ bits_of sample_bits)
    × (sample_version % 2 ^ 13 ≡ sample_base % 2 ^ 13)
    × (sample_version / 2 ^ 29 ≡ sample_base / 2 ^ 29)
apply_gp_bits-fields_example =
    apply_gp_bits-fields 0x2000_0000 0x20b4_4000 sample_mask sample_bits sample_template
      (omega arith) (omega arith) made rolled

from_mask_bytes-apply_to_version_example :
    from_mask_bytes (to_be_bytes (apply_to_version sample_bits 0x2000_0000)) ≡ sample_bits
from_mask_bytes-apply_to_version_example =
    from_mask_bytes-apply_to_version 0x2000_0000 sample_bits (omega arith) (omega arith)
      (omega arith) (omega arith)
