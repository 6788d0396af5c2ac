-- ===== src/Bm13xx/Register/CoreCommand.antt =====
-- `CoreCommand` (0x3C) of mujina-miner/src/asic/bm13xx/register.rs: a command posted to the core mailbox.
use mujina.Common.{ℕ, ◌*◌, ◌/◌, ◌%◌, ◌^◌, ◌<◌, ◌≡◌, refl, bit_and, bit_or, arith, ◌∙◌}
use mujina.Common.{List, [], ◌∷◌, Bool, true, false, ◌==◌, All, from_bool, if◌then◌else◌, IsU32}
use mujina.Common.Bits.{extract, bit_and-join, bit_and_shr}
use mujina.Common.Words.{Bytes4, AreBytes, from_be_bytes, to_be_bytes, put_u32, from_be_bytes-lt}
use mujina.Common.Words.{from_be_bytes-to_be_bytes, to_be_bytes-from_be_bytes}
use mujina.Common.Masks.{
  Field, field, Fits, pick, flag, word-lt, low_Fits, shift-Fits, bool_Fits, place_flag,
  place_masked, narrow, whole, masked_again, masked-lt,
}
use mujina.Bm13xx.Register.CoreRegister.{
  CoreRegister, to_u8, from_u8, Named, from_u8-to_u8, from_u8-Named, to_u8-from_u8,
  nonce_bin_overflow as nonce_bin_register,
}

pub record CoreCommand : Type 0 where
  pub all : Bool
  pub num : ℕ
  pub core_id : ℕ
  pub write : Bool
  pub rd_done : Bool
  pub unexplained : ℕ
  pub reg : CoreRegister
  pub value : ℕ

-- The word that `encode` puts. The shifts drop no bit: the fields are narrow enough.
pub to_word : CoreCommand → ℕ
to_word r =
    bit_or
      (bit_or
        (bit_or
          (bit_or
            (bit_or
              (bit_or (bit_or (from_bool r.all * 2 ^ 31) (bit_and r.num 0x7f * 2 ^ 24))
                (r.core_id * 2 ^ 16))
              (from_bool r.write * 2 ^ 15))
            (from_bool r.rd_done * 2 ^ 14))
          r.unexplained)
        (bit_and (to_u8 r.reg) 0x1f * 2 ^ 8))
      r.value

pub wire : CoreCommand → Bytes4
wire r = to_be_bytes (to_word r)

unfoldable pub encode : CoreCommand → List ℕ → List ℕ
unfolding wire
encode r dst = put_u32 (to_word r) dst

pub from_word : ℕ → CoreCommand
from_word w = record {
  all = bit_and (w / 2 ^ 31) 1 == 1;
  num = bit_and (w / 2 ^ 24) 0x7f % 2 ^ 8;
  core_id = bit_and (w / 2 ^ 16) 0xff % 2 ^ 8;
  write = bit_and (w / 2 ^ 15) 1 == 1;
  rd_done = bit_and (w / 2 ^ 14) 1 == 1;
  unexplained = bit_and w 0x0000_2000;
  reg = from_u8 (bit_and (w / 2 ^ 8) 0x1f % 2 ^ 8);
  value = bit_and w 0xff % 2 ^ 8;
}

unfoldable pub decode : Bytes4 → CoreCommand
unfolding from_word
decode bytes = from_word (from_be_bytes bytes)

unfoldable pub write_all : CoreRegister → ℕ → CoreCommand
write_all reg value = record {
  all = true;
  num = 0;
  core_id = 0;
  write = true;
  rd_done = false;
  unexplained = 0;
  reg = reg;
  value = value;
}

unfoldable pub nonce_bin_overflow : Bool → CoreCommand
unfolding write_all
nonce_bin_overflow enable = write_all nonce_bin_register (if enable then 0xEE else 0xEF)

-- The values that fit the word.
pub record IsCanonical (r : CoreCommand) : Type 0 where
  pub bound_num : r.num < 2 ^ 7
  pub bound_core_id : r.core_id < 2 ^ 8
  pub masked_unexplained : bit_and r.unexplained 0x0000_2000 ≡ r.unexplained
  pub bound_reg : to_u8 r.reg < 2 ^ 5
  pub named_reg : Named r.reg
  pub bound_value : r.value < 2 ^ 8

abbrev fields : CoreCommand → List Field
fields r =
    field (from_bool r.all * 2 ^ 31) (1 * 2 ^ 31)
    ∷ field (bit_and r.num 0x7f * 2 ^ 24) (0x7f * 2 ^ 24)
    ∷ field (r.core_id * 2 ^ 16) (0xff * 2 ^ 16)
    ∷ field (from_bool r.write * 2 ^ 15) (1 * 2 ^ 15)
    ∷ field (from_bool r.rd_done * 2 ^ 14) (1 * 2 ^ 14)
    ∷ field r.unexplained 0x0000_2000
    ∷ field (bit_and (to_u8 r.reg) 0x1f * 2 ^ 8) (0x1f * 2 ^ 8)
    ∷ field r.value 0xff
    ∷ []

fields-Fits : (r : CoreCommand) → IsCanonical r → All Fits (fields r)
fields-Fits r c = (
  shift-Fits 31 (from_bool r.all) 1 (bool_Fits r.all),
  (
    shift-Fits 24 (bit_and r.num 0x7f) 0x7f (masked_again r.num 0x7f),
    (
      shift-Fits 16 r.core_id 0xff (low_Fits 8 r.core_id c.bound_core_id),
      (
        shift-Fits 15 (from_bool r.write) 1 (bool_Fits r.write),
        (
          shift-Fits 14 (from_bool r.rd_done) 1 (bool_Fits r.rd_done),
          (
            c.masked_unexplained,
            (
              shift-Fits 8 (bit_and (to_u8 r.reg) 0x1f) 0x1f (masked_again (to_u8 r.reg) 0x1f),
              (low_Fits 8 r.value c.bound_value, tt),
            ),
          ),
        ),
      ),
    ),
  ),
)

to_word-lt : (r : CoreCommand) → IsCanonical r → IsU32 (to_word r)
unfolding to_word
to_word-lt r c = word-lt 32 (fields r) (fields-Fits r c) (omega arith)

from_word-to_word : (r : CoreCommand) → IsCanonical r → from_word (to_word r) ≡ r
unfolding from_word to_word
from_word-to_word r c =
    let fits = fields-Fits r c in
    let w : ℕ = to_word r in
    let at_all =
      flag _ r.all (extract 31 1 (from_bool r.all) w (pick 0 (fields r) fits refl refl)) in
    let at_num =
      extract 24 0x7f (bit_and r.num 0x7f) w (pick 1 (fields r) fits refl refl)
      ∙ low_Fits 7 r.num c.bound_num in
    let at_core_id = extract 16 0xff r.core_id w (pick 2 (fields r) fits refl refl) in
    let at_write =
      flag _ r.write (extract 15 1 (from_bool r.write) w (pick 3 (fields r) fits refl refl)) in
    let at_rd_done =
      flag _ r.rd_done (extract 14 1 (from_bool r.rd_done) w (pick 4 (fields r) fits refl refl)) in
    let at_unexplained = pick 5 (fields r) fits refl refl in
    let at_reg =
      extract 8 0x1f (bit_and (to_u8 r.reg) 0x1f) w (pick 6 (fields r) fits refl refl)
      ∙ low_Fits 5 (to_u8 r.reg) c.bound_reg in
    let at_value = pick 7 (fields r) fits refl refl in
    ground (
      arith,
      at_all,
      at_num,
      at_core_id,
      at_write,
      at_rd_done,
      at_unexplained,
      at_reg,
      from_u8-to_u8 r.reg c.named_reg,
      at_value,
    )

to_word-from_word : (w : ℕ) → IsU32 w → to_word (from_word w) ≡ w
unfolding from_word to_word
to_word-from_word w h =
    rw
      (
        place_flag 31 w,
        narrow 8 7 (w / 2 ^ 24) (omega arith),
        masked_again (w / 2 ^ 24) 0x7f,
        bit_and_shr 24 w 0x7f,
        place_masked 16 8 w (omega arith),
        place_flag 15 w,
        place_flag 14 w,
        to_u8-from_u8 (bit_and (w / 2 ^ 8) 0x1f % 2 ^ 8),
        narrow 8 5 (w / 2 ^ 8) (omega arith),
        masked_again (w / 2 ^ 8) 0x1f,
        bit_and_shr 8 w 0x1f,
        narrow 8 8 w (omega arith),
        bit_and-join,
        bit_and-join,
        bit_and-join,
        bit_and-join,
        bit_and-join,
        bit_and-join,
        bit_and-join,
      )
      (whole w h)

-- What is encoded is decoded.
pub decode-wire : (r : CoreCommand) → IsCanonical r → decode (wire r) ≡ r
unfolding decode wire
decode-wire r c =
    rw (from_be_bytes-to_be_bytes (to_word r) (to_word-lt r c)) (from_word-to_word r c)

-- What is decoded is encoded as it came.
pub wire-decode : (b : Bytes4) → AreBytes b → wire (decode b) ≡ b
unfolding decode wire
wire-decode b h =
    rw (to_word-from_word (from_be_bytes b) (from_be_bytes-lt b h)) (to_be_bytes-from_be_bytes b h)

pub decode-IsCanonical : (b : Bytes4) → IsCanonical (decode b)
unfolding decode
decode-IsCanonical b = record {
  bound_num = omega (arith, masked-lt 7 (from_be_bytes b / 2 ^ 24));
  bound_core_id = omega (arith, masked-lt 8 (from_be_bytes b / 2 ^ 16));
  masked_unexplained = masked_again (from_be_bytes b) 0x0000_2000;
  bound_reg = omega (
    arith,
    to_u8-from_u8 (bit_and (from_be_bytes b / 2 ^ 8) 0x1f % 2 ^ 8),
    masked-lt 5 (from_be_bytes b / 2 ^ 8),
  );
  named_reg = from_u8-Named (bit_and (from_be_bytes b / 2 ^ 8) 0x1f % 2 ^ 8);
  bound_value = omega (arith, masked-lt 8 (from_be_bytes b));
}
