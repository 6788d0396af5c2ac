-- ===== src/Runs/Checksums.antt =====
-- The checksums of mujina-miner/src/asic/bm13xx/crc.rs on the frames of its tests.
use mujina.Common.{ℕ, ◌≡◌, refl, arith, [], ◌∷◌, true, false, bit_xor, ◌^◌, ◌%◌, ◌/◌, ◌↔◌}
use mujina.Bm13xx.Crc.{crc5_rounds, crc5, crc5_is_valid}
use mujina.Bm13xx.Crc.{crc16}
use mujina.Bm13xx.Crc.Check.{crc5_is_valid_iff}
use mujina.Bm13xx.Crc.Detect.{crc5_is_valid_flip, crc16_one_byte}

crc5_of_read : crc5 (0x52 ∷ 0x05 ∷ 0x00 ∷ 0x00 ∷ []) ≡ 0x0a
unfolding crc5
crc5_of_read = refl

crc16_of_digits : crc16 (0x31 ∷ 0x32 ∷ 0x33 ∷ 0x34 ∷ 0x35 ∷ 0x36 ∷ 0x37 ∷ 0x38 ∷ 0x39 ∷ []) ≡ 0x29b1
unfolding crc16
crc16_of_digits = refl

response_is_valid :
    crc5_is_valid (0x18 ∷ 0x00 ∷ 0xa6 ∷ 0x40 ∷ 0x02 ∷ 0x99 ∷ 0x22 ∷ 0xf9 ∷ 0x91 ∷ []) ≡ true
unfolding crc5_is_valid
response_is_valid = refl

crc5_is_valid_iff_example :
    (crc5_is_valid (0x18 ∷ 0x00 ∷ 0x91 ∷ []) ≡ true)
    ↔ (0x91 % 32 ≡ crc5_rounds 3 (0x91 / 32) (crc5 (0x18 ∷ 0x00 ∷ [])))
crc5_is_valid_iff_example = crc5_is_valid_iff (0x18 ∷ 0x00 ∷ []) 0x91 (omega arith)

crc5_is_valid_flip_example :
    crc5_is_valid
      (0x18 ∷ bit_xor 0x00 (2 ^ 3) ∷ 0xa6 ∷ 0x40 ∷ 0x02 ∷ 0x99 ∷ 0x22 ∷ 0xf9 ∷ 0x91 ∷ [])
    ≡ false
crc5_is_valid_flip_example =
    crc5_is_valid_flip (0x18 ∷ []) (0xa6 ∷ 0x40 ∷ 0x02 ∷ 0x99 ∷ 0x22 ∷ 0xf9 ∷ 0x91 ∷ []) 0x00 3
      (omega arith) (omega arith) response_is_valid

same_crc16 : crc16 (1 ∷ 2 ∷ 3 ∷ []) ≡ crc16 (1 ∷ 2 ∷ 3 ∷ [])
same_crc16 = refl

abbrev two : ℕ
two = 2

crc16_one_byte_example : two ≡ 2
crc16_one_byte_example =
    crc16_one_byte (1 ∷ []) (3 ∷ []) 2 2 (omega arith, tt) (omega arith, tt) (omega arith)
      (omega arith) same_crc16
