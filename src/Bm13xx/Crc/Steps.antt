-- ===== src/Bm13xx/Crc/Steps.antt =====
-- One round of each CRC: the range of the register, and that a round loses nothing of it.
use mujina.Common.{ℕ, zero, suc, ◌*◌, ◌/◌, ◌%◌, ◌^◌, ◌<◌, ◌≡◌, refl, bit_and, bit_xor}
use mujina.Common.{arith, List, [], ◌∷◌, not, true, ◌||◌, ◌==◌, if◌then◌else◌, ltb, ltb→lt}
use mujina.Common.Bits.{bit_and_low, bit_and_shr, bit_xor-lt, bit_xor_injective, bit_xor-digit}
use mujina.Common.Table.{all_below, all_below_sound}
use mujina.Bm13xx.Crc.{crc5_round, crc5_rounds, crc5_bytes, crc16_round, crc16_rounds}

-- A round of `crc5` as a function of the bit that it reads.
bit_round : ℕ → ℕ → ℕ
bit_round bit crc =
    bit_xor (bit_and (crc * 2 % 2 ^ 8) 0x1f)
      (if bit_xor (bit_and (crc / 2 ^ 4) 1) bit == 0 then 0 else 0x05)

unfoldable pub bit_at : ℕ → ℕ → ℕ
bit_at byte i = bit_and (byte / 2 ^ i) 1

crc5_round-bit_round : (byte i crc : ℕ) → crc5_round byte i crc ≡ bit_round (bit_at byte i) crc
unfolding crc5_round bit_round bit_at
crc5_round-bit_round byte i crc = refl

bit_at-lt : (byte i : ℕ) → bit_at byte i < 2
unfolding bit_at
bit_at-lt byte i = omega (arith, bit_and_low 1 (byte / 2 ^ i))

range_table : all_below 2 (λ b. all_below 32 (λ r. ltb (bit_round b r) 32)) ≡ true
unfolding all_below bit_round
range_table = refl

bit_round-lt : (bit crc : ℕ) → bit < 2 → crc < 32 → bit_round bit crc < 32
bit_round-lt bit crc hb hc =
    ltb→lt _ _ (all_below_sound 32 _ crc (all_below_sound 2 _ bit range_table hb) hc)

injective_table :
    all_below 2
      (λ b. all_below 32 (λ r. all_below 32 (λ s. not (bit_round b r == bit_round b s) || r == s)))
    ≡ true
unfolding all_below bit_round
injective_table = refl

-- A round loses nothing of the register.
bit_round_injective :
    (bit r s : ℕ) → bit < 2 → r < 32 → s < 32 → bit_round bit r ≡ bit_round bit s → r ≡ s
bit_round_injective bit r s hb hr hs e = ground (
  arith,
  all_below_sound 32 _ s (all_below_sound 32 _ r (all_below_sound 2 _ bit injective_table hb) hr)
      hs,
)

sensitive_table :
    all_below 2
      (λ a. all_below 2 (λ b. all_below 32 (λ r. not (bit_round a r == bit_round b r) || a == b)))
    ≡ true
unfolding all_below bit_round
sensitive_table = refl

-- Nor of the bit that it reads.
bit_round_sensitive :
    (a b crc : ℕ) → a < 2 → b < 2 → crc < 32 → bit_round a crc ≡ bit_round b crc → a ≡ b
bit_round_sensitive a b crc ha hb hc e = ground (
  arith,
  all_below_sound 32 _ crc (all_below_sound 2 _ b (all_below_sound 2 _ a sensitive_table ha) hb) hc,
)

pub crc5_round-lt : (byte i crc : ℕ) → crc < 32 → crc5_round byte i crc < 32
crc5_round-lt byte i crc h =
    rw crc5_round-bit_round (bit_round-lt (bit_at byte i) crc (bit_at-lt byte i) h)

pub crc5_round_injective :
    (byte i r s : ℕ) → r < 32 → s < 32 → crc5_round byte i r ≡ crc5_round byte i s → r ≡ s
crc5_round_injective byte i r s hr hs e =
    bit_round_injective (bit_at byte i) r s (bit_at-lt byte i) hr hs
      (simp crc5_round-bit_round at e)

-- A round reads one bit of the byte, and shows it.
pub crc5_round_same :
    (b c i crc : ℕ) → bit_at b i ≡ bit_at c i → crc5_round b i crc ≡ crc5_round c i crc
crc5_round_same b c i crc e = simp (crc5_round-bit_round, e)

pub crc5_round_sensitive :
    (b c i crc : ℕ) → crc < 32 → crc5_round b i crc ≡ crc5_round c i crc → bit_at b i ≡ bit_at c i
crc5_round_sensitive b c i crc h e =
    bit_round_sensitive (bit_at b i) (bit_at c i) crc (bit_at-lt b i) (bit_at-lt c i) h
      (simp crc5_round-bit_round at e)

pub crc5_rounds-lt : (n byte crc : ℕ) → crc < 32 → crc5_rounds n byte crc < 32
unfolding crc5_rounds
crc5_rounds-lt zero byte crc h = h
crc5_rounds-lt (suc n) byte crc h =
    crc5_rounds-lt n byte (crc5_round byte n crc) (crc5_round-lt byte n crc h)

pub crc5_bytes-lt : (bytes : List ℕ) (crc : ℕ) → crc < 32 → crc5_bytes bytes crc < 32
unfolding crc5_bytes
crc5_bytes-lt [] crc h = h
crc5_bytes-lt (b ∷ bs) crc h = crc5_bytes-lt bs (crc5_rounds 8 b crc) (crc5_rounds-lt 8 b crc h)

-- The test of the top bit of a 16-bit register.
top_bit : (crc : ℕ) → bit_and crc 0x8000 ≡ crc / 2 ^ 15 % 2 * 2 ^ 15
top_bit crc = omega (arith, bit_and_shr 15 crc 1, bit_and_low 1 (crc / 2 ^ 15))

pub crc16_round-lt : (crc : ℕ) → crc < 2 ^ 16 → crc16_round crc < 2 ^ 16
unfolding crc16_round
crc16_round-lt crc h = ground (arith, bit_xor-lt 16 (crc * 2 % 2 ^ 16) 0x1021)

pub crc16_rounds-lt : (n crc : ℕ) → crc < 2 ^ 16 → crc16_rounds n crc < 2 ^ 16
unfolding crc16_rounds
crc16_rounds-lt zero crc h = h
crc16_rounds-lt (suc n) crc h = crc16_rounds-lt n (crc16_round crc) (crc16_round-lt crc h)

-- The polynomial is odd, so the lowest digit of the result tells which branch was taken.
pub crc16_round_injective :
    (r s : ℕ) → r < 2 ^ 16 → s < 2 ^ 16 → crc16_round r ≡ crc16_round s → r ≡ s
unfolding crc16_round
crc16_round_injective r s hr hs e = ground (
  arith,
  top_bit r,
  top_bit s,
  bit_xor-digit (r * 2 % 2 ^ 16) 0x1021,
  bit_xor-digit (s * 2 % 2 ^ 16) 0x1021,
  bit_xor_injective (r * 2 % 2 ^ 16) (s * 2 % 2 ^ 16) 0x1021,
)

pub crc16_rounds_injective :
    (n r s : ℕ) → r < 2 ^ 16 → s < 2 ^ 16 → crc16_rounds n r ≡ crc16_rounds n s → r ≡ s
unfolding crc16_rounds
crc16_rounds_injective zero r s hr hs e = e
crc16_rounds_injective (suc n) r s hr hs e = crc16_round_injective r s hr hs (
    crc16_rounds_injective n (crc16_round r) (crc16_round s) (crc16_round-lt r hr)
      (crc16_round-lt s hs) e)
