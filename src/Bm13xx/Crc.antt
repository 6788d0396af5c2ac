-- ===== src/Bm13xx/Crc.antt =====
-- mujina-miner/src/asic/bm13xx/crc.rs: the CRC-5 of register frames and the CRC-16 of job frames.
pub mod Steps
pub mod Check
pub mod Detect
use mujina.Common.{ℕ, zero, suc, ◌+◌, ◌*◌, ◌/◌, ◌%◌, ◌^◌, bit_and, bit_xor}
use mujina.Common.{Bool, true, false, List, [], ◌∷◌, ◌==◌, if◌then◌else◌}

-- The body of the inner loop of `crc5`, at bit `i` of `byte`. `crc << 1` drops the bits above 8.
unfoldable pub crc5_round : ℕ → ℕ → ℕ → ℕ
crc5_round byte i crc =
    let bit = bit_and (byte / 2 ^ i) 1 in
    let top = bit_and (crc / 2 ^ 4) 1 in
    bit_xor (bit_and (crc * 2 % 2 ^ 8) 0x1f) (if bit_xor top bit == 0 then 0 else 0x05)

-- `for i in (0..n).rev()`, at `n` = 8.
unfoldable pub crc5_rounds : ℕ → ℕ → ℕ → ℕ
crc5_rounds zero byte crc = crc
crc5_rounds (suc i) byte crc = crc5_rounds i byte (crc5_round byte i crc)

unfoldable pub crc5_bytes : List ℕ → ℕ → ℕ
crc5_bytes [] crc = crc
crc5_bytes (byte ∷ rest) crc = crc5_bytes rest (crc5_rounds 8 byte crc)

unfoldable pub crc5 : List ℕ → ℕ
unfolding crc5_round crc5_rounds crc5_bytes
crc5 bytes = crc5_bytes bytes 0x1f

unfoldable pub crc5_is_valid : List ℕ → Bool
unfolding crc5
crc5_is_valid bytes = crc5 bytes == 0

-- The body of the inner loop of `crc16`.
unfoldable pub crc16_round : ℕ → ℕ
crc16_round crc =
    if bit_and crc 0x8000 == 0 then crc * 2 % 2 ^ 16 else bit_xor (crc * 2 % 2 ^ 16) 0x1021

unfoldable pub crc16_rounds : ℕ → ℕ → ℕ
crc16_rounds zero crc = crc
crc16_rounds (suc n) crc = crc16_rounds n (crc16_round crc)

unfoldable pub crc16_bytes : List ℕ → ℕ → ℕ
crc16_bytes [] crc = crc
crc16_bytes (byte ∷ rest) crc = crc16_bytes rest (crc16_rounds 8 (bit_xor crc (byte * 2 ^ 8)))

unfoldable pub crc16 : List ℕ → ℕ
unfolding crc16_round crc16_rounds crc16_bytes
crc16 bytes = crc16_bytes bytes 0xffff
