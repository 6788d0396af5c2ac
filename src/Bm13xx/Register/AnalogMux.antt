-- ===== src/Bm13xx/Register/AnalogMux.antt =====
-- `AnalogMux` (0x54) of mujina-miner/src/asic/bm13xx/register.rs: the signal on the analog output.
use mujina.Common.{ℕ, ◌%◌, ◌^◌, ◌<◌, ◌≡◌, refl, bit_and, bit_or, arith, ◌∙◌}
use mujina.Common.{List, [], ◌∷◌, All, IsU32}
use mujina.Common.Bits.{bit_and-join}
use mujina.Common.Words.{Bytes4, AreBytes, from_be_bytes, to_be_bytes, put_u32, from_be_bytes-lt}
use mujina.Common.Words.{from_be_bytes-to_be_bytes, to_be_bytes-from_be_bytes}
use mujina.Common.Masks.{
  Field, field, Fits, pick, word-lt, low_Fits, narrow, whole, masked_again, masked-lt,
}
use mujina.Bm13xx.Register.ChipModel.{ChipModel, bm1362}

pub record AnalogMux : Type 0 where
  pub diode_select : ℕ
  pub unexplained : ℕ

-- The word that `encode` puts. The shifts drop no bit: the fields are narrow enough.
pub to_word : AnalogMux → ℕ
to_word r = bit_or r.unexplained (bit_and r.diode_select 0xf)

pub wire : AnalogMux → Bytes4
wire r = to_be_bytes (to_word r)

unfoldable pub encode : AnalogMux → List ℕ → List ℕ
unfolding wire
encode r dst = put_u32 (to_word r) dst

pub from_word : ℕ → AnalogMux
from_word w = record { diode_select = bit_and w 0xf % 2 ^ 8; unexplained = bit_and w 0xffff_fff0 }

unfoldable pub decode : Bytes4 → AnalogMux
unfolding from_word
decode bytes = from_word (from_be_bytes bytes)

unfoldable pub bring_up : ChipModel → AnalogMux
bring_up bm1362 = record { diode_select = 0x3; unexplained = 0 }
bring_up _ = record { diode_select = 0x2; unexplained = 0 }

-- The values that fit the word.
pub record IsCanonical (r : AnalogMux) : Type 0 where
  pub bound_diode_select : r.diode_select < 2 ^ 4
  pub masked_unexplained : bit_and r.unexplained 0xffff_fff0 ≡ r.unexplained

abbrev fields : AnalogMux → List Field
fields r = field r.unexplained 0xffff_fff0 ∷ field (bit_and r.diode_select 0xf) 0xf ∷ []

fields-Fits : (r : AnalogMux) → IsCanonical r → All Fits (fields r)
fields-Fits r c = (c.masked_unexplained, (masked_again r.diode_select 0xf, tt))

to_word-lt : (r : AnalogMux) → IsCanonical r → IsU32 (to_word r)
unfolding to_word
to_word-lt r c = word-lt 32 (fields r) (fields-Fits r c) (omega arith)

from_word-to_word : (r : AnalogMux) → IsCanonical r → from_word (to_word r) ≡ r
unfolding from_word to_word
from_word-to_word r c =
    let fits = fields-Fits r c in
    let w : ℕ = to_word r in
    let at_unexplained = pick 0 (fields r) fits refl refl in
    let at_diode_select =
      pick 1 (fields r) fits refl refl ∙ low_Fits 4 r.diode_select c.bound_diode_select in
    ground (arith, at_unexplained, at_diode_select)

to_word-from_word : (w : ℕ) → IsU32 w → to_word (from_word w) ≡ w
unfolding from_word to_word
to_word-from_word w h =
    rw (narrow 8 4 w (omega arith), masked_again w 0xf, bit_and-join) (whole w h)

-- What is encoded is decoded.
pub decode-wire : (r : AnalogMux) → IsCanonical r → decode (wire r) ≡ r
unfolding decode wire
decode-wire r c =
    rw (from_be_bytes-to_be_bytes (to_word r) (to_word-lt r c)) (from_word-to_word r c)

-- What is decoded is encoded as it came.
pub wire-decode : (b : Bytes4) → AreBytes b → wire (decode b) ≡ b
unfolding decode wire
wire-decode b h =
    rw (to_word-from_word (from_be_bytes b) (from_be_bytes-lt b h)) (to_be_bytes-from_be_bytes b h)

pub decode-IsCanonical : (b : Bytes4) → IsCanonical (decode b)
unfolding decode
decode-IsCanonical b = record {
  bound_diode_select = omega (arith, masked-lt 4 (from_be_bytes b));
  masked_unexplained = masked_again (from_be_bytes b) 0xffff_fff0;
}
