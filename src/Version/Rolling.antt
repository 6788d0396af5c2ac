-- ===== src/Version/Rolling.antt =====
-- mujina-miner/src/job_source/version.rs: what rolling does to a version.
use mujina.Common.{
  subst, Bool, refl, sym, ap, ◌∙◌, ℕ, ◌+◌, ◌*◌, ◌/◌, ◌%◌, ◌^◌, ◌≡◌, arith, bit_and, true, false,
  not, ◌==◌,
}
use mujina.Common.{ok, err, IsByte, IsU32, if◌then◌else◌}
use mujina.Common.Words.{to_be_bytes, from_be_bytes-to_be_bytes}
use mujina.Common.Bits.{bit_or-sum, bit_and_above, bit_and_shr, bit_and_low}
use mujina.Version.{GeneralPurposeBits, VersionTemplate, contains, bits_of, apply_to_version}
use mujina.Version.{from_mask_bytes, template, apply_gp_bits}

-- Over a base with the region clear, the bits are added.
apply_to_version_sum :
    (base : ℕ) (gp_bits : GeneralPurposeBits)
    → IsByte gp_bits.high
    → IsByte gp_bits.low
    → base / 2 ^ 13 % 2 ^ 16 ≡ 0
    → apply_to_version gp_bits base ≡ base + bits_of gp_bits * 2 ^ 13
unfolding apply_to_version bits_of
apply_to_version_sum base gp_bits hh hl clear =
    let bits = gp_bits.high * 2 ^ 8 + gp_bits.low in
    let region = bit_and_shr 13 base bits in
    let above = bit_and_above 16 (base / 2 ^ 13 / 2 ^ 16) bits (omega arith) in
    let whole : base / 2 ^ 13 / 2 ^ 16 * 2 ^ 16 ≡ base / 2 ^ 13 = omega arith in
    let none_shared : bit_and (base / 2 ^ 13) bits ≡ 0 =
      subst (λ n. bit_and n bits ≡ 0) whole above in
    let apart : bit_and base (bits * 2 ^ 13) ≡ 0 = omega (arith, region, none_shared) in
    let plain : bits * 2 ^ 13 % 2 ^ 32 ≡ bits * 2 ^ 13 = omega arith in
    rw plain (omega (arith, bit_or-sum base (bits * 2 ^ 13), apart))

if_ok :
    {E A : Type 0} (b : Bool) (e : E) (a c : A)
    → (if not b then err e else ok a) ≡ ok c
    → (b ≡ true) × (a ≡ c)
if_ok true e a c h = (refl, ground arith)
if_ok false e a c h = absurd (ground arith)

-- A template exists only over a base with the region clear, and keeps the base.
template-clear :
    (base : ℕ) (mask : GeneralPurposeBits) (t : VersionTemplate)
    → template base mask ≡ ok t
    → (t.base ≡ base) × (base / 2 ^ 13 % 2 ^ 16 ≡ 0)
unfolding template
template-clear base mask t e =
    let region = bit_and_low 16 (base / 2 ^ 13) in
    let (passed, made) = if_ok (bit_and (base / 2 ^ 13) 0xffff == 0) _ _ t e in
    (ap (λ (x : VersionTemplate). x.base) (sym made), ground (arith, region))

-- If a template accepts its base, and then bits of two bytes, the version that it makes has these
-- bits at the positions 13 to 28, and the bits of the base at all others.
pub apply_gp_bits-fields :
    (base v : ℕ) (mask gp_bits : GeneralPurposeBits) (t : VersionTemplate)
    → IsByte gp_bits.high
    → IsByte gp_bits.low
    → template base mask ≡ ok t
    → apply_gp_bits t gp_bits ≡ ok v
    → (v / 2 ^ 13 % 2 ^ 16 ≡ bits_of gp_bits)
      × (v % 2 ^ 13 ≡ base % 2 ^ 13)
      × (v / 2 ^ 29 ≡ base / 2 ^ 29)
unfolding apply_gp_bits bits_of
apply_gp_bits-fields base v mask gp_bits t hh hl made e =
    let (same, clear) = template-clear base mask t made in
    let sum = apply_to_version_sum base gp_bits hh hl clear in
    let (passed, value) = if_ok (contains t.gp_bits_mask gp_bits) _ _ v e in
    let v_is : v ≡ base + (gp_bits.high * 2 ^ 8 + gp_bits.low) * 2 ^ 13 =
      sym value ∙ ap (apply_to_version gp_bits) same ∙ sum in
    omega arith

-- The bits that were put over a base with the region clear are the bits that the version's bytes,
-- read as a mask, hold.
pub from_mask_bytes-apply_to_version :
    (base : ℕ) (gp_bits : GeneralPurposeBits)
    → IsU32 base
    → IsByte gp_bits.high
    → IsByte gp_bits.low
    → base / 2 ^ 13 % 2 ^ 16 ≡ 0
    → from_mask_bytes (to_be_bytes (apply_to_version gp_bits base)) ≡ gp_bits
unfolding from_mask_bytes bits_of
from_mask_bytes-apply_to_version base gp_bits hb hh hl clear =
    let sum = apply_to_version_sum base gp_bits hh hl clear in
    rw (sum, from_be_bytes-to_be_bytes (base + bits_of gp_bits * 2 ^ 13) (omega arith))
      (ground arith)
