-- ===== src/Bm13xx/Register/PllDivider.antt =====
-- `PllDivider` (0x08) of mujina-miner/src/asic/bm13xx/register.rs: the clock of the cores.
use mujina.Common.{ℕ, ◌*◌, ◌^◌, ◌≡◌, refl, bit_and, bit_or, arith, List, ◌++◌, append_assoc, not}
use mujina.Common.{Bool, true, false, ◌==◌, leb, ◌&&◌, from_bool, if◌then◌else◌, IsByte}
use mujina.Common.Words.{Bytes4, AreBytes, put_u8, to_list}
use mujina.Common.Table.{all_below, all_below_sound}

pub data VcoSel : Type 0 where
  low high : VcoSel

pub record PllDivider : Type 0 where
  pub locked : Bool
  pub pll_en : Bool
  pub bypass : Bool
  pub vco_sel : VcoSel
  pub fb_div : ℕ
  pub ref_div : ℕ
  pub post_div : ℕ

-- `fb_div as f32 * CRYSTAL_MHZ / ref_div as f32 >= 2400.0`, multiplied out. The quotient differs
-- from 2400 by 1/255 at least where it differs, so `f32` rounds it to the same side. Where both
-- are 0 the quotient is no number, and the test fails.
unfoldable pub new : ℕ → ℕ → ℕ → PllDivider
new fb_div ref_div post_div = record {
  locked = false;
  pll_en = true;
  bypass = false;
  vco_sel =
      if (fb_div == 0) && (ref_div == 0)
      then low
      else if leb (2400 * ref_div) (fb_div * 25)
      then high
      else low;
  fb_div = fb_div;
  ref_div = ref_div;
  post_div = post_div;
}

abbrev is_high : VcoSel → Bool
is_high high = true
is_high low = false

pub flags : PllDivider → ℕ
flags r =
    bit_or
      (bit_or (bit_or (from_bool r.locked * 2 ^ 7) (from_bool r.pll_en * 2 ^ 6))
        (from_bool r.bypass * 2 ^ 5))
      (from_bool (is_high r.vco_sel) * 2 ^ 4)

pub wire : PllDivider → Bytes4
wire r = record { byte0 = flags r; byte1 = r.fb_div; byte2 = r.ref_div; byte3 = r.post_div }

unfoldable pub encode : PllDivider → List ℕ → List ℕ
unfolding flags
encode r dst = put_u8 r.post_div (put_u8 r.ref_div (put_u8 r.fb_div (put_u8 (flags r) dst)))

unfoldable pub decode : Bytes4 → PllDivider
decode bytes = record {
  locked = not (bit_and bytes.byte0 0x80 == 0);
  pll_en = not (bit_and bytes.byte0 0x40 == 0);
  bypass = not (bit_and bytes.byte0 0x20 == 0);
  vco_sel = if not (bit_and bytes.byte0 0x10 == 0) then high else low;
  fb_div = bytes.byte1;
  ref_div = bytes.byte2;
  post_div = bytes.byte3;
}

pub record IsCanonical (r : PllDivider) : Type 0 where
  pub byte_fb_div : IsByte r.fb_div
  pub byte_ref_div : IsByte r.ref_div
  pub byte_post_div : IsByte r.post_div

pub encode-wire : (r : PllDivider) (dst : List ℕ) → encode r dst ≡ dst ++ to_list (wire r)
unfolding encode wire
encode-wire r dst = simp append_assoc

-- What is encoded is decoded.
pub decode-wire : (r : PllDivider) → decode (wire r) ≡ r
unfolding decode wire flags
decode-wire r = ground arith

flags_table :
    all_below 256 (λ b.
      flags (decode (record { byte0 = b; byte1 = 0; byte2 = 0; byte3 = 0 })) == bit_and b 0xf0)
    ≡ true
unfolding all_below decode flags
flags_table = refl

-- What is decoded is encoded as it came, but for the four low bits of the first byte, bits 27 to
-- 24 of the register, which are not kept.
pub wire-decode :
    (b : Bytes4) → AreBytes b → wire (decode b) ≡ record b { byte0 = bit_and b.byte0 0xf0 }
unfolding decode wire flags
wire-decode b h = ground (arith, all_below_sound 256 _ b.byte0 flags_table)
