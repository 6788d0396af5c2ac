-- ===== src/Bm13xx/Crc/Check.antt =====
-- What a CRC-5 that is sent in the last five bits makes of the check on the receiving side.
use mujina.Common.{ℕ, ◌/◌, ◌%◌, ◌<◌, ◌≡◌, refl, ◌↔◌, arith, List, [], ◌∷◌, ◌++◌, not, true, ◌==◌}
use mujina.Common.{if◌then◌else◌}
use mujina.Common.Table.{all_below, all_below_sound}
use mujina.Bm13xx.Crc.{crc5_round, crc5_rounds, crc5_bytes, crc5, crc5_is_valid}
use mujina.Bm13xx.Crc.Steps.{crc5_bytes-lt}

pub crc5_bytes-append :
    (front back : List ℕ) (crc : ℕ)
    → crc5_bytes (front ++ back) crc ≡ crc5_bytes back (crc5_bytes front crc)
unfolding crc5_bytes
crc5_bytes-append [] back crc = refl
crc5_bytes-append (b ∷ front) back crc = crc5_bytes-append front back (crc5_rounds 8 b crc)

last_byte_table :
    all_below 32 (λ crc. all_below 256 (λ b.
      if crc5_rounds 8 b crc == 0
      then b % 32 == crc5_rounds 3 (b / 32) crc
      else not (b % 32 == crc5_rounds 3 (b / 32) crc)))
    ≡ true
unfolding all_below crc5_rounds crc5_round
last_byte_table = refl

last_byte :
    (b crc : ℕ)
    → b < 256
    → crc < 32
    → ((crc5_rounds 8 b crc == 0) ≡ true) ↔ (b % 32 ≡ crc5_rounds 3 (b / 32) crc)
last_byte b crc hb hc =
    let row = all_below_sound 256 _ b (all_below_sound 32 _ crc last_byte_table hc) hb in
    (λ e. ground (arith, row), λ e. ground (arith, row))

-- The check passes exactly when the low five bits of the last byte are the CRC of all that
-- stands before them: the earlier bytes, and the top three bits of the last one.
pub crc5_is_valid_iff :
    (front : List ℕ) (last : ℕ)
    → last < 256
    → (crc5_is_valid (front ++ (last ∷ [])) ≡ true)
      ↔ (last % 32 ≡ crc5_rounds 3 (last / 32) (crc5 front))
unfolding crc5_is_valid
crc5_is_valid_iff front last h =
    rw (crc5_bytes-append front (last ∷ []) 0x1f)
      (unfold crc5_bytes in last_byte last _ h (crc5_bytes-lt front 0x1f (omega arith)))
