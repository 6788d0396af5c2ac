-- ===== src/Bm13xx/Register/MiscControl.antt =====
-- `MiscControl` (0x18) of mujina-miner/src/asic/bm13xx/register.rs: the report enables, bits 28 to 31; the array of four is four fields.
use mujina.Common.{ℕ, ◌*◌, ◌/◌, ◌%◌, ◌^◌, ◌<◌, ◌≡◌, refl, bit_and, bit_or, arith}
use mujina.Common.{List, [], ◌∷◌, Bool, true, false, ◌==◌, All, from_bool, IsU32}
use mujina.Common.Bits.{extract, bit_and-join}
use mujina.Common.Words.{Bytes4, AreBytes, from_be_bytes, to_be_bytes, put_u32, from_be_bytes-lt}
use mujina.Common.Words.{from_be_bytes-to_be_bytes, to_be_bytes-from_be_bytes}
use mujina.Common.Masks.{
  Field, field, Fits, pick, flag, word-lt, low_Fits, shift-Fits, bool_Fits, place_flag, narrow,
  whole, masked_again, masked-lt,
}
use mujina.Bm13xx.Register.ChipModel.{ChipModel, bm1362}

pub record MiscControl : Type 0 where
  pub report_enable0 : Bool
  pub report_enable1 : Bool
  pub report_enable2 : Bool
  pub report_enable3 : Bool
  pub unexplained : ℕ
  pub power_on : ℕ

-- The word that `encode` puts. The shifts drop no bit: the fields are narrow enough.
pub to_word : MiscControl → ℕ
to_word r =
    bit_or
      (bit_or
        (bit_or (bit_or (bit_or r.unexplained r.power_on) (from_bool r.report_enable0 * 2 ^ 28))
          (from_bool r.report_enable1 * 2 ^ 29))
        (from_bool r.report_enable2 * 2 ^ 30))
      (from_bool r.report_enable3 * 2 ^ 31)

pub wire : MiscControl → Bytes4
wire r = to_be_bytes (to_word r)

unfoldable pub encode : MiscControl → List ℕ → List ℕ
unfolding wire
encode r dst = put_u32 (to_word r) dst

pub from_word : ℕ → MiscControl
from_word w = record {
  report_enable0 = bit_and (w / 2 ^ 28) 1 == 1;
  report_enable1 = bit_and (w / 2 ^ 29) 1 == 1;
  report_enable2 = bit_and (w / 2 ^ 30) 1 == 1;
  report_enable3 = bit_and (w / 2 ^ 31) 1 == 1;
  unexplained = bit_and w 0x0fff_0000;
  power_on = bit_and w 0xffff % 2 ^ 16;
}

unfoldable pub decode : Bytes4 → MiscControl
unfolding from_word
decode bytes = from_word (from_be_bytes bytes)

unfoldable pub reporting_enabled : ChipModel → MiscControl
reporting_enabled bm1362 = record {
  report_enable0 = true;
  report_enable1 = true;
  report_enable2 = false;
  report_enable3 = true;
  unexplained = 0;
  power_on = 0xC100;
}
reporting_enabled _ = record {
  report_enable0 = true;
  report_enable1 = true;
  report_enable2 = true;
  report_enable3 = true;
  unexplained = 0;
  power_on = 0xC100;
}

-- The values that fit the word.
pub record IsCanonical (r : MiscControl) : Type 0 where
  pub masked_unexplained : bit_and r.unexplained 0x0fff_0000 ≡ r.unexplained
  pub bound_power_on : r.power_on < 2 ^ 16

abbrev fields : MiscControl → List Field
fields r =
    field r.unexplained 0x0fff_0000
    ∷ field r.power_on 0xffff
    ∷ field (from_bool r.report_enable0 * 2 ^ 28) (1 * 2 ^ 28)
    ∷ field (from_bool r.report_enable1 * 2 ^ 29) (1 * 2 ^ 29)
    ∷ field (from_bool r.report_enable2 * 2 ^ 30) (1 * 2 ^ 30)
    ∷ field (from_bool r.report_enable3 * 2 ^ 31) (1 * 2 ^ 31)
    ∷ []

fields-Fits : (r : MiscControl) → IsCanonical r → All Fits (fields r)
fields-Fits r c = (
  c.masked_unexplained,
  (
    low_Fits 16 r.power_on c.bound_power_on,
    (
      shift-Fits 28 (from_bool r.report_enable0) 1 (bool_Fits r.report_enable0),
      (
        shift-Fits 29 (from_bool r.report_enable1) 1 (bool_Fits r.report_enable1),
        (
          shift-Fits 30 (from_bool r.report_enable2) 1 (bool_Fits r.report_enable2),
          (shift-Fits 31 (from_bool r.report_enable3) 1 (bool_Fits r.report_enable3), tt),
        ),
      ),
    ),
  ),
)

to_word-lt : (r : MiscControl) → IsCanonical r → IsU32 (to_word r)
unfolding to_word
to_word-lt r c = word-lt 32 (fields r) (fields-Fits r c) (omega arith)

from_word-to_word : (r : MiscControl) → IsCanonical r → from_word (to_word r) ≡ r
unfolding from_word to_word
from_word-to_word r c =
    let fits = fields-Fits r c in
    let w : ℕ = to_word r in
    let at_unexplained = pick 0 (fields r) fits refl refl in
    let at_power_on = pick 1 (fields r) fits refl refl in
    let at_report_enable0 =
      flag _ r.report_enable0
        (extract 28 1 (from_bool r.report_enable0) w (pick 2 (fields r) fits refl refl)) in
    let at_report_enable1 =
      flag _ r.report_enable1
        (extract 29 1 (from_bool r.report_enable1) w (pick 3 (fields r) fits refl refl)) in
    let at_report_enable2 =
      flag _ r.report_enable2
        (extract 30 1 (from_bool r.report_enable2) w (pick 4 (fields r) fits refl refl)) in
    let at_report_enable3 =
      flag _ r.report_enable3
        (extract 31 1 (from_bool r.report_enable3) w (pick 5 (fields r) fits refl refl)) in
    ground (
      arith, at_unexplained, at_power_on, at_report_enable0, at_report_enable1, at_report_enable2,
      at_report_enable3,
    )

to_word-from_word : (w : ℕ) → IsU32 w → to_word (from_word w) ≡ w
unfolding from_word to_word
to_word-from_word w h =
    rw
      (
        narrow 16 16 w (omega arith),
        place_flag 28 w,
        place_flag 29 w,
        place_flag 30 w,
        place_flag 31 w,
        bit_and-join,
        bit_and-join,
        bit_and-join,
        bit_and-join,
        bit_and-join,
      )
      (whole w h)

-- What is encoded is decoded.
pub decode-wire : (r : MiscControl) → IsCanonical r → decode (wire r) ≡ r
unfolding decode wire
decode-wire r c =
    rw (from_be_bytes-to_be_bytes (to_word r) (to_word-lt r c)) (from_word-to_word r c)

-- What is decoded is encoded as it came.
pub wire-decode : (b : Bytes4) → AreBytes b → wire (decode b) ≡ b
unfolding decode wire
wire-decode b h =
    rw (to_word-from_word (from_be_bytes b) (from_be_bytes-lt b h)) (to_be_bytes-from_be_bytes b h)

pub decode-IsCanonical : (b : Bytes4) → IsCanonical (decode b)
unfolding decode
decode-IsCanonical b = record {
  masked_unexplained = masked_again (from_be_bytes b) 0x0fff_0000;
  bound_power_on = omega (arith, masked-lt 16 (from_be_bytes b));
}
