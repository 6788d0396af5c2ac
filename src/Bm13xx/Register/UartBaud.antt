-- ===== src/Bm13xx/Register/UartBaud.antt =====
-- `UartBaud` (0x28) of mujina-miner/src/asic/bm13xx/register.rs: the clock divider of the serial link.
use mujina.Common.{ℕ, ◌*◌, ◌/◌, ◌%◌, ◌^◌, ◌<◌, ◌≡◌, refl, bit_and, bit_or, arith}
use mujina.Common.{List, [], ◌∷◌, Bool, ◌==◌, All, from_bool, IsU32}
use mujina.Common.Bits.{extract, bit_and-join, bit_and_low}
use mujina.Common.Words.{Bytes4, AreBytes, from_be_bytes, to_be_bytes, put_u32, from_be_bytes-lt}
use mujina.Common.Words.{from_be_bytes-to_be_bytes, to_be_bytes-from_be_bytes}
use mujina.Common.Masks.{
  Field, field, Fits, pick, flag, word-lt, low_Fits, shift-Fits, bool_Fits, place, place_flag,
  whole, masked_again,
}

pub record UartBaud : Type 0 where
  pub divider : ℕ
  pub bit28 : Bool
  pub unexplained : ℕ

-- The word that `encode` puts. The shifts drop no bit: the fields are narrow enough.
unfoldable pub to_word : UartBaud → ℕ
to_word r = bit_or (bit_or (from_bool r.bit28 * 2 ^ 28) r.unexplained) (r.divider * 2 ^ 8)

pub wire : UartBaud → Bytes4
wire r = to_be_bytes (to_word r)

unfoldable pub encode : UartBaud → List ℕ → List ℕ
unfolding wire
encode r dst = put_u32 (to_word r) dst

pub from_word : ℕ → UartBaud
from_word w = record {
  divider = w / 2 ^ 8 % 2 ^ 8;
  bit28 = bit_and (w / 2 ^ 28) 1 == 1;
  unexplained = bit_and w 0xefff_00ff;
}

unfoldable pub decode : Bytes4 → UartBaud
unfolding from_word
decode bytes = from_word (from_be_bytes bytes)

-- The values that fit the word.
pub record IsCanonical (r : UartBaud) : Type 0 where
  pub bound_divider : r.divider < 2 ^ 8
  pub masked_unexplained : bit_and r.unexplained 0xefff_00ff ≡ r.unexplained

abbrev fields : UartBaud → List Field
fields r =
    field (from_bool r.bit28 * 2 ^ 28) (1 * 2 ^ 28)
    ∷ field r.unexplained 0xefff_00ff
    ∷ field (r.divider * 2 ^ 8) (0xff * 2 ^ 8)
    ∷ []

fields-Fits : (r : UartBaud) → IsCanonical r → All Fits (fields r)
fields-Fits r c = (
  shift-Fits 28 (from_bool r.bit28) 1 (bool_Fits r.bit28),
  (c.masked_unexplained, (shift-Fits 8 r.divider 0xff (low_Fits 8 r.divider c.bound_divider), tt)),
)

to_word-lt : (r : UartBaud) → IsCanonical r → IsU32 (to_word r)
unfolding to_word
to_word-lt r c = word-lt 32 (fields r) (fields-Fits r c) (omega arith)

from_word-to_word : (r : UartBaud) → IsCanonical r → from_word (to_word r) ≡ r
unfolding from_word to_word
from_word-to_word r c =
    let fits = fields-Fits r c in
    let w : ℕ = to_word r in
    let at_bit28 =
      flag _ r.bit28 (extract 28 1 (from_bool r.bit28) w (pick 0 (fields r) fits refl refl)) in
    let at_unexplained = pick 1 (fields r) fits refl refl in
    let at_divider = extract 8 0xff r.divider w (pick 2 (fields r) fits refl refl) in
    ground (arith, at_bit28, at_unexplained, at_divider, bit_and_low 8 (w / 2 ^ 8))

to_word-from_word : (w : ℕ) → IsU32 w → to_word (from_word w) ≡ w
unfolding from_word to_word
to_word-from_word w h = rw (place_flag 28 w, place 8 8 w, bit_and-join, bit_and-join) (whole w h)

-- What is encoded is decoded.
pub decode-wire : (r : UartBaud) → IsCanonical r → decode (wire r) ≡ r
unfolding decode wire
decode-wire r c =
    rw (from_be_bytes-to_be_bytes (to_word r) (to_word-lt r c)) (from_word-to_word r c)

-- What is decoded is encoded as it came.
pub wire-decode : (b : Bytes4) → AreBytes b → wire (decode b) ≡ b
unfolding decode wire
wire-decode b h =
    rw (to_word-from_word (from_be_bytes b) (from_be_bytes-lt b h)) (to_be_bytes-from_be_bytes b h)

pub decode-IsCanonical : (b : Bytes4) → IsCanonical (decode b)
unfolding decode
decode-IsCanonical b = record {
  bound_divider = omega arith;
  masked_unexplained = masked_again (from_be_bytes b) 0xefff_00ff;
}
