-- ===== src/Bm13xx/Register/MidstateConfig.antt =====
-- `MidstateConfig` (0xA4) of mujina-miner/src/asic/bm13xx/register.rs: midstates and version rolling.
use mujina.Common.{ℕ, ◌*◌, ◌/◌, ◌%◌, ◌^◌, ◌<◌, ◌≡◌, refl, bit_and, bit_or, arith, ◌∙◌}
use mujina.Common.{List, [], ◌∷◌, Bool, true, false, ◌==◌, All, from_bool, IsU32}
use mujina.Common.Bits.{extract, bit_and-join, bit_and_shr}
use mujina.Common.Words.{Bytes4, AreBytes, from_be_bytes, to_be_bytes, put_u32, from_be_bytes-lt}
use mujina.Common.Words.{from_be_bytes-to_be_bytes, to_be_bytes-from_be_bytes}
use mujina.Common.Masks.{
  Field, field, Fits, pick, flag, word-lt, low_Fits, shift-Fits, bool_Fits, place_flag, narrow,
  whole, masked_again, masked-lt,
}

pub record MidstateConfig : Type 0 where
  pub version_mask : ℕ
  pub midstate_gen : ℕ
  pub unexplained : ℕ
  pub version_fix : Bool
  pub auto_gen : Bool

-- The word that `encode` puts. The shifts drop no bit: the fields are narrow enough.
pub to_word : MidstateConfig → ℕ
to_word r =
    bit_or
      (bit_or
        (bit_or (bit_or (from_bool r.auto_gen * 2 ^ 31) (from_bool r.version_fix * 2 ^ 30))
          (bit_and r.midstate_gen 0x3 * 2 ^ 28))
        r.unexplained)
      r.version_mask

pub wire : MidstateConfig → Bytes4
wire r = to_be_bytes (to_word r)

unfoldable pub encode : MidstateConfig → List ℕ → List ℕ
unfolding wire
encode r dst = put_u32 (to_word r) dst

pub from_word : ℕ → MidstateConfig
from_word w = record {
  version_mask = bit_and w 0xffff % 2 ^ 16;
  midstate_gen = bit_and (w / 2 ^ 28) 0x3 % 2 ^ 8;
  unexplained = bit_and w 0x0fff_0000;
  version_fix = bit_and (w / 2 ^ 30) 1 == 1;
  auto_gen = bit_and (w / 2 ^ 31) 1 == 1;
}

unfoldable pub decode : Bytes4 → MidstateConfig
unfolding from_word
decode bytes = from_word (from_be_bytes bytes)

unfoldable pub full_rolling : MidstateConfig
full_rolling = record {
  version_mask = 0xffff;
  midstate_gen = 1;
  unexplained = 0;
  version_fix = false;
  auto_gen = true;
}

-- The values that fit the word.
pub record IsCanonical (r : MidstateConfig) : Type 0 where
  pub bound_version_mask : r.version_mask < 2 ^ 16
  pub bound_midstate_gen : r.midstate_gen < 2 ^ 2
  pub masked_unexplained : bit_and r.unexplained 0x0fff_0000 ≡ r.unexplained

abbrev fields : MidstateConfig → List Field
fields r =
    field (from_bool r.auto_gen * 2 ^ 31) (1 * 2 ^ 31)
    ∷ field (from_bool r.version_fix * 2 ^ 30) (1 * 2 ^ 30)
    ∷ field (bit_and r.midstate_gen 0x3 * 2 ^ 28) (0x3 * 2 ^ 28)
    ∷ field r.unexplained 0x0fff_0000
    ∷ field r.version_mask 0xffff
    ∷ []

fields-Fits : (r : MidstateConfig) → IsCanonical r → All Fits (fields r)
fields-Fits r c = (
  shift-Fits 31 (from_bool r.auto_gen) 1 (bool_Fits r.auto_gen),
  (
    shift-Fits 30 (from_bool r.version_fix) 1 (bool_Fits r.version_fix),
    (
      shift-Fits 28 (bit_and r.midstate_gen 0x3) 0x3 (masked_again r.midstate_gen 0x3),
      (c.masked_unexplained, (low_Fits 16 r.version_mask c.bound_version_mask, tt)),
    ),
  ),
)

to_word-lt : (r : MidstateConfig) → IsCanonical r → IsU32 (to_word r)
unfolding to_word
to_word-lt r c = word-lt 32 (fields r) (fields-Fits r c) (omega arith)

from_word-to_word : (r : MidstateConfig) → IsCanonical r → from_word (to_word r) ≡ r
unfolding from_word to_word
from_word-to_word r c =
    let fits = fields-Fits r c in
    let w : ℕ = to_word r in
    let at_auto_gen =
      flag _ r.auto_gen
        (extract 31 1 (from_bool r.auto_gen) w (pick 0 (fields r) fits refl refl)) in
    let at_version_fix =
      flag _ r.version_fix
        (extract 30 1 (from_bool r.version_fix) w (pick 1 (fields r) fits refl refl)) in
    let at_midstate_gen =
      extract 28 0x3 (bit_and r.midstate_gen 0x3) w (pick 2 (fields r) fits refl refl)
      ∙ low_Fits 2 r.midstate_gen c.bound_midstate_gen in
    let at_unexplained = pick 3 (fields r) fits refl refl in
    let at_version_mask = pick 4 (fields r) fits refl refl in
    ground (arith, at_auto_gen, at_version_fix, at_midstate_gen, at_unexplained, at_version_mask)

to_word-from_word : (w : ℕ) → IsU32 w → to_word (from_word w) ≡ w
unfolding from_word to_word
to_word-from_word w h =
    rw
      (
        place_flag 31 w,
        place_flag 30 w,
        narrow 8 2 (w / 2 ^ 28) (omega arith),
        masked_again (w / 2 ^ 28) 0x3,
        bit_and_shr 28 w 0x3,
        narrow 16 16 w (omega arith),
        bit_and-join,
        bit_and-join,
        bit_and-join,
        bit_and-join,
      )
      (whole w h)

-- What is encoded is decoded.
pub decode-wire : (r : MidstateConfig) → IsCanonical r → decode (wire r) ≡ r
unfolding decode wire
decode-wire r c =
    rw (from_be_bytes-to_be_bytes (to_word r) (to_word-lt r c)) (from_word-to_word r c)

-- What is decoded is encoded as it came.
pub wire-decode : (b : Bytes4) → AreBytes b → wire (decode b) ≡ b
unfolding decode wire
wire-decode b h =
    rw (to_word-from_word (from_be_bytes b) (from_be_bytes-lt b h)) (to_be_bytes-from_be_bytes b h)

pub decode-IsCanonical : (b : Bytes4) → IsCanonical (decode b)
unfolding decode
decode-IsCanonical b = record {
  bound_version_mask = omega (arith, masked-lt 16 (from_be_bytes b));
  bound_midstate_gen = omega (arith, masked-lt 2 (from_be_bytes b / 2 ^ 28));
  masked_unexplained = masked_again (from_be_bytes b) 0x0fff_0000;
}
