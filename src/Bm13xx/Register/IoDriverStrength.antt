-- ===== src/Bm13xx/Register/IoDriverStrength.antt =====
-- `IoDriverStrength` (0x58) of mujina-miner/src/asic/bm13xx/register.rs: the drive strength of each output.
use mujina.Common.{ℕ, ◌*◌, ◌/◌, ◌%◌, ◌^◌, ◌<◌, ◌≡◌, refl, bit_and, bit_or, arith}
use mujina.Common.{List, [], ◌∷◌, All, IsU32}
use mujina.Common.Bits.{extract, bit_and-join}
use mujina.Common.Words.{Bytes4, AreBytes, from_be_bytes, to_be_bytes, put_u32, from_be_bytes-lt}
use mujina.Common.Words.{from_be_bytes-to_be_bytes, to_be_bytes-from_be_bytes}
use mujina.Common.Masks.{
  Field, field, Fits, pick, word-lt, low_Fits, shift-Fits, place_masked, narrow, whole,
  masked_again, masked-lt,
}

pub record IoDriverStrength : Type 0 where
  pub command_out : ℕ
  pub busy_out : ℕ
  pub reset_out : ℕ
  pub clock_out : ℕ
  pub response_out : ℕ
  pub unexplained : ℕ

-- The word that `encode` puts. The shifts drop no bit: the fields are narrow enough.
pub to_word : IoDriverStrength → ℕ
to_word r =
    bit_or
      (bit_or
        (bit_or (bit_or (bit_or r.unexplained (r.response_out * 2 ^ 16)) (r.clock_out * 2 ^ 12))
          (r.reset_out * 2 ^ 8))
        (r.busy_out * 2 ^ 4))
      r.command_out

pub wire : IoDriverStrength → Bytes4
wire r = to_be_bytes (to_word r)

unfoldable pub encode : IoDriverStrength → List ℕ → List ℕ
unfolding wire
encode r dst = put_u32 (to_word r) dst

pub from_word : ℕ → IoDriverStrength
from_word w = record {
  command_out = bit_and w 0xf % 2 ^ 8;
  busy_out = bit_and (w / 2 ^ 4) 0xf % 2 ^ 8;
  reset_out = bit_and (w / 2 ^ 8) 0xf % 2 ^ 8;
  clock_out = bit_and (w / 2 ^ 12) 0xf % 2 ^ 8;
  response_out = bit_and (w / 2 ^ 16) 0xf % 2 ^ 8;
  unexplained = bit_and w 0xfff0_0000;
}

unfoldable pub decode : Bytes4 → IoDriverStrength
unfolding from_word
decode bytes = from_word (from_be_bytes bytes)

unfoldable pub normal : IoDriverStrength
normal = record {
  command_out = 0x1;
  busy_out = 0x1;
  reset_out = 0x1;
  clock_out = 0x1;
  response_out = 0x1;
  unexplained = 0;
}

unfoldable pub domain_boundary : IoDriverStrength
unfolding normal
domain_boundary = record normal { clock_out = 0xf }

-- The values that fit the word.
pub record IsCanonical (r : IoDriverStrength) : Type 0 where
  pub bound_command_out : r.command_out < 2 ^ 4
  pub bound_busy_out : r.busy_out < 2 ^ 4
  pub bound_reset_out : r.reset_out < 2 ^ 4
  pub bound_clock_out : r.clock_out < 2 ^ 4
  pub bound_response_out : r.response_out < 2 ^ 4
  pub masked_unexplained : bit_and r.unexplained 0xfff0_0000 ≡ r.unexplained

abbrev fields : IoDriverStrength → List Field
fields r =
    field r.unexplained 0xfff0_0000
    ∷ field (r.response_out * 2 ^ 16) (0xf * 2 ^ 16)
    ∷ field (r.clock_out * 2 ^ 12) (0xf * 2 ^ 12)
    ∷ field (r.reset_out * 2 ^ 8) (0xf * 2 ^ 8)
    ∷ field (r.busy_out * 2 ^ 4) (0xf * 2 ^ 4)
    ∷ field r.command_out 0xf
    ∷ []

fields-Fits : (r : IoDriverStrength) → IsCanonical r → All Fits (fields r)
fields-Fits r c = (
  c.masked_unexplained,
  (
    shift-Fits 16 r.response_out 0xf (low_Fits 4 r.response_out c.bound_response_out),
    (
      shift-Fits 12 r.clock_out 0xf (low_Fits 4 r.clock_out c.bound_clock_out),
      (
        shift-Fits 8 r.reset_out 0xf (low_Fits 4 r.reset_out c.bound_reset_out),
        (
          shift-Fits 4 r.busy_out 0xf (low_Fits 4 r.busy_out c.bound_busy_out),
          (low_Fits 4 r.command_out c.bound_command_out, tt),
        ),
      ),
    ),
  ),
)

to_word-lt : (r : IoDriverStrength) → IsCanonical r → IsU32 (to_word r)
unfolding to_word
to_word-lt r c = word-lt 32 (fields r) (fields-Fits r c) (omega arith)

from_word-to_word : (r : IoDriverStrength) → IsCanonical r → from_word (to_word r) ≡ r
unfolding from_word to_word
from_word-to_word r c =
    let fits = fields-Fits r c in
    let w : ℕ = to_word r in
    let at_unexplained = pick 0 (fields r) fits refl refl in
    let at_response_out = extract 16 0xf r.response_out w (pick 1 (fields r) fits refl refl) in
    let at_clock_out = extract 12 0xf r.clock_out w (pick 2 (fields r) fits refl refl) in
    let at_reset_out = extract 8 0xf r.reset_out w (pick 3 (fields r) fits refl refl) in
    let at_busy_out = extract 4 0xf r.busy_out w (pick 4 (fields r) fits refl refl) in
    let at_command_out = pick 5 (fields r) fits refl refl in
    ground (
      arith, at_unexplained, at_response_out, at_clock_out, at_reset_out, at_busy_out,
      at_command_out,
    )

to_word-from_word : (w : ℕ) → IsU32 w → to_word (from_word w) ≡ w
unfolding from_word to_word
to_word-from_word w h =
    rw
      (
        place_masked 16 4 w (omega arith),
        place_masked 12 4 w (omega arith),
        place_masked 8 4 w (omega arith),
        place_masked 4 4 w (omega arith),
        narrow 8 4 w (omega arith),
        bit_and-join,
        bit_and-join,
        bit_and-join,
        bit_and-join,
        bit_and-join,
      )
      (whole w h)

-- What is encoded is decoded.
pub decode-wire : (r : IoDriverStrength) → IsCanonical r → decode (wire r) ≡ r
unfolding decode wire
decode-wire r c =
    rw (from_be_bytes-to_be_bytes (to_word r) (to_word-lt r c)) (from_word-to_word r c)

-- What is decoded is encoded as it came.
pub wire-decode : (b : Bytes4) → AreBytes b → wire (decode b) ≡ b
unfolding decode wire
wire-decode b h =
    rw (to_word-from_word (from_be_bytes b) (from_be_bytes-lt b h)) (to_be_bytes-from_be_bytes b h)

pub decode-IsCanonical : (b : Bytes4) → IsCanonical (decode b)
unfolding decode
decode-IsCanonical b = record {
  bound_command_out = omega (arith, masked-lt 4 (from_be_bytes b));
  bound_busy_out = omega (arith, masked-lt 4 (from_be_bytes b / 2 ^ 4));
  bound_reset_out = omega (arith, masked-lt 4 (from_be_bytes b / 2 ^ 8));
  bound_clock_out = omega (arith, masked-lt 4 (from_be_bytes b / 2 ^ 12));
  bound_response_out = omega (arith, masked-lt 4 (from_be_bytes b / 2 ^ 16));
  masked_unexplained = masked_again (from_be_bytes b) 0xfff0_0000;
}
