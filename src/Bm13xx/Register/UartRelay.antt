-- ===== src/Bm13xx/Register/UartRelay.antt =====
-- `UartRelay` (0x2C) of mujina-miner/src/asic/bm13xx/register.rs: the relay of a domain boundary.
use mujina.Common.{ℕ, ◌*◌, ◌/◌, ◌%◌, ◌^◌, ◌<◌, ◌≡◌, refl, bit_and, bit_or, arith}
use mujina.Common.{List, [], ◌∷◌, Bool, true, ◌==◌, All, from_bool, IsU32}
use mujina.Common.Bits.{extract, bit_and-join, bit_and_low}
use mujina.Common.Words.{Bytes4, AreBytes, from_be_bytes, to_be_bytes, put_u32, from_be_bytes-lt}
use mujina.Common.Words.{from_be_bytes-to_be_bytes, to_be_bytes-from_be_bytes}
use mujina.Common.Masks.{
  Field, field, Fits, pick, flag, word-lt, low_Fits, shift-Fits, bool_Fits, place, place_flag,
  place_low_flag, whole, masked_again,
}

pub record UartRelay : Type 0 where
  pub gap_count : ℕ
  pub unexplained : ℕ
  pub response_relay : Bool
  pub command_relay : Bool

-- The word that `encode` puts. The shifts drop no bit: the fields are narrow enough.
pub to_word : UartRelay → ℕ
to_word r =
    bit_or
      (bit_or (bit_or (r.gap_count * 2 ^ 16) r.unexplained) (from_bool r.response_relay * 2 ^ 1))
      (from_bool r.command_relay)

pub wire : UartRelay → Bytes4
wire r = to_be_bytes (to_word r)

unfoldable pub encode : UartRelay → List ℕ → List ℕ
unfolding wire
encode r dst = put_u32 (to_word r) dst

pub from_word : ℕ → UartRelay
from_word w = record {
  gap_count = w / 2 ^ 16 % 2 ^ 16;
  unexplained = bit_and w 0x0000_fffc;
  response_relay = bit_and (w / 2 ^ 1) 1 == 1;
  command_relay = bit_and w 1 == 1;
}

unfoldable pub decode : Bytes4 → UartRelay
unfolding from_word
decode bytes = from_word (from_be_bytes bytes)

unfoldable pub domain_boundary : ℕ → UartRelay
domain_boundary gap_count = record {
  gap_count = gap_count;
  unexplained = 0;
  response_relay = true;
  command_relay = true;
}

-- The values that fit the word.
pub record IsCanonical (r : UartRelay) : Type 0 where
  pub bound_gap_count : r.gap_count < 2 ^ 16
  pub masked_unexplained : bit_and r.unexplained 0x0000_fffc ≡ r.unexplained

abbrev fields : UartRelay → List Field
fields r =
    field (r.gap_count * 2 ^ 16) (0xffff * 2 ^ 16)
    ∷ field r.unexplained 0x0000_fffc
    ∷ field (from_bool r.response_relay * 2 ^ 1) (1 * 2 ^ 1)
    ∷ field (from_bool r.command_relay) 1
    ∷ []

fields-Fits : (r : UartRelay) → IsCanonical r → All Fits (fields r)
fields-Fits r c = (
  shift-Fits 16 r.gap_count 0xffff (low_Fits 16 r.gap_count c.bound_gap_count),
  (
    c.masked_unexplained,
    (
      shift-Fits 1 (from_bool r.response_relay) 1 (bool_Fits r.response_relay),
      (bool_Fits r.command_relay, tt),
    ),
  ),
)

to_word-lt : (r : UartRelay) → IsCanonical r → IsU32 (to_word r)
unfolding to_word
to_word-lt r c = word-lt 32 (fields r) (fields-Fits r c) (omega arith)

from_word-to_word : (r : UartRelay) → IsCanonical r → from_word (to_word r) ≡ r
unfolding from_word to_word
from_word-to_word r c =
    let fits = fields-Fits r c in
    let w : ℕ = to_word r in
    let at_gap_count = extract 16 0xffff r.gap_count w (pick 0 (fields r) fits refl refl) in
    let at_unexplained = pick 1 (fields r) fits refl refl in
    let at_response_relay =
      flag _ r.response_relay
        (extract 1 1 (from_bool r.response_relay) w (pick 2 (fields r) fits refl refl)) in
    let at_command_relay = flag _ r.command_relay (pick 3 (fields r) fits refl refl) in
    ground (
      arith,
      at_gap_count,
      bit_and_low 16 (w / 2 ^ 16),
      at_unexplained,
      at_response_relay,
      at_command_relay,
    )

to_word-from_word : (w : ℕ) → IsU32 w → to_word (from_word w) ≡ w
unfolding from_word to_word
to_word-from_word w h =
    rw (place 16 16 w, place_flag 1 w, place_low_flag w, bit_and-join, bit_and-join, bit_and-join)
      (whole w h)

-- What is encoded is decoded.
pub decode-wire : (r : UartRelay) → IsCanonical r → decode (wire r) ≡ r
unfolding decode wire
decode-wire r c =
    rw (from_be_bytes-to_be_bytes (to_word r) (to_word-lt r c)) (from_word-to_word r c)

-- What is decoded is encoded as it came.
pub wire-decode : (b : Bytes4) → AreBytes b → wire (decode b) ≡ b
unfolding decode wire
wire-decode b h =
    rw (to_word-from_word (from_be_bytes b) (from_be_bytes-lt b h)) (to_be_bytes-from_be_bytes b h)

pub decode-IsCanonical : (b : Bytes4) → IsCanonical (decode b)
unfolding decode
decode-IsCanonical b = record {
  bound_gap_count = omega arith;
  masked_unexplained = masked_again (from_be_bytes b) 0x0000_fffc;
}
