-- ===== src/Bm13xx/Crc/Detect.antt =====
-- Errors that the CRCs detect, at any place of a message of any length.
use mujina.Common.{ℕ, zero, suc, ◌*◌, ◌^◌, ◌≤◌, ◌<◌, ◌≡◌, ◌≢◌, refl, sym, ◌∙◌, arith}
use mujina.Common.{List, [], ◌∷◌, ◌++◌, true, false, not, ◌==◌, bit_xor, if◌then◌else◌}
use native.Mathlib.Decide.{ℕ_discrete}
use mujina.Common.{IsByte, All, ap, subst}
use mujina.Common.Bits.{bit_xor-lt, bit_xor_comm, bit_xor_injective}
use mujina.Common.Table.{all_below, all_below_sound}
use mujina.Bm13xx.Crc.{crc5_round, crc5_rounds, crc5_bytes, crc5, crc5_is_valid}
use mujina.Bm13xx.Crc.{crc16_bytes, crc16}
use mujina.Bm13xx.Crc.Check.{crc5_bytes-append}
use mujina.Bm13xx.Crc.Steps.{
  bit_at, crc5_round-lt, crc5_round_injective, crc5_round_same, crc5_round_sensitive,
  crc5_rounds-lt, crc5_bytes-lt, crc16_rounds-lt, crc16_rounds_injective,
}

crc5_rounds_injective :
    (n byte r s : ℕ) → r < 32 → s < 32 → crc5_rounds n byte r ≡ crc5_rounds n byte s → r ≡ s
unfolding crc5_rounds
crc5_rounds_injective zero byte r s hr hs e = e
crc5_rounds_injective (suc n) byte r s hr hs e = crc5_round_injective byte n r s hr hs (
    crc5_rounds_injective n byte (crc5_round byte n r) (crc5_round byte n s)
      (crc5_round-lt byte n r hr) (crc5_round-lt byte n s hs) e)

pub crc5_bytes_injective :
    (bytes : List ℕ) (r s : ℕ) → r < 32 → s < 32 → crc5_bytes bytes r ≡ crc5_bytes bytes s → r ≡ s
unfolding crc5_bytes
crc5_bytes_injective [] r s hr hs e = e
crc5_bytes_injective (b ∷ bs) r s hr hs e = crc5_rounds_injective 8 b r s hr hs (
    crc5_bytes_injective bs (crc5_rounds 8 b r) (crc5_rounds 8 b s) (crc5_rounds-lt 8 b r hr)
      (crc5_rounds-lt 8 b s hs) e)

flip_table :
    all_below 256 (λ b. all_below 8 (λ i. all_below 8 (λ k.
      if k == i
      then not (bit_at (bit_xor b (2 ^ i)) k == bit_at b k)
      else bit_at (bit_xor b (2 ^ i)) k == bit_at b k)))
    ≡ true
unfolding all_below bit_at
flip_table = refl

flip_other :
    (b i k : ℕ) → b < 256 → i < 8 → k < 8 → k ≢ i → bit_at (bit_xor b (2 ^ i)) k ≡ bit_at b k
flip_other b i k hb hi hk ne = ground (
  arith,
  all_below_sound 8 _ k (all_below_sound 8 _ i (all_below_sound 256 _ b flip_table hb) hi) hk,
)

flip_self : (b i : ℕ) → b < 256 → i < 8 → bit_at (bit_xor b (2 ^ i)) i ≢ bit_at b i
flip_self b i hb hi = ground (
  arith,
  all_below_sound 8 _ i (all_below_sound 8 _ i (all_below_sound 256 _ b flip_table hb) hi) hi,
)

-- Rounds below the bit do not see it.
crc5_rounds_below :
    (n byte i crc : ℕ)
    → byte < 256
    → i < 8
    → n ≤ i
    → crc5_rounds n (bit_xor byte (2 ^ i)) crc ≡ crc5_rounds n byte crc
unfolding crc5_rounds
crc5_rounds_below zero byte i crc hb hi hn = refl
crc5_rounds_below (suc n) byte i crc hb hi hn =
    rw
      (crc5_round_same (bit_xor byte (2 ^ i)) byte n crc
        (flip_other byte i n hb hi (omega arith) (omega arith)))
      (crc5_rounds_below n byte i (crc5_round byte n crc) hb hi (omega arith))

-- From one register on, two bytes that differ in bit `i` alone leave different registers.
crc5_rounds_flip :
    (n byte i crc : ℕ)
    → byte < 256
    → i < n
    → n ≤ 8
    → crc < 32
    → crc5_rounds n byte crc ≢ crc5_rounds n (bit_xor byte (2 ^ i)) crc
unfolding crc5_rounds
crc5_rounds_flip zero byte i crc hb hi hn hc e = absurd (omega arith)
crc5_rounds_flip (suc n) byte i crc hb hi hn hc e =
    let flipped : ℕ = bit_xor byte (2 ^ i) in
    elim (ℕ_discrete n i) [
      | yes here ↦
          let seen : crc5_round byte n crc ≡ crc5_round flipped n crc =
            crc5_rounds_injective n byte _ _ (crc5_round-lt byte n crc hc)
              (crc5_round-lt flipped n crc hc)
              (e
                ∙ crc5_rounds_below n byte i (crc5_round flipped n crc) hb (omega arith)
                    (omega arith)) in
          flip_self byte i hb (omega arith) (
            subst (λ k. bit_at flipped k ≡ bit_at byte k) here
              (sym (crc5_round_sensitive byte flipped n crc hc seen)))
      | no other ↦
          crc5_rounds_flip n byte i (crc5_round byte n crc) hb (omega arith) (omega arith)
            (crc5_round-lt byte n crc hc)
            (e
              ∙ ap (crc5_rounds n flipped) (
                  crc5_round_same flipped byte n crc
                    (flip_other byte i n hb (omega arith) (omega arith) other)))
    ]

-- The registers still differ after the rest of the message.
crc5_flip :
    (front back : List ℕ) (byte i : ℕ)
    → byte < 256
    → i < 8
    → crc5 (front ++ (byte ∷ back)) ≢ crc5 (front ++ (bit_xor byte (2 ^ i) ∷ back))
unfolding crc5 crc5_bytes
crc5_flip front back byte i hb hi e =
    let crc : ℕ = crc5_bytes front 0x1f in
    let flipped : ℕ = bit_xor byte (2 ^ i) in
    let range : crc < 32 = crc5_bytes-lt front 0x1f (omega arith) in
    crc5_rounds_flip 8 byte i crc hb hi (omega arith) range (
      crc5_bytes_injective back _ _ (crc5_rounds-lt 8 byte crc range)
        (crc5_rounds-lt 8 flipped crc range)
        (sym (crc5_bytes-append front (byte ∷ back) 0x1f)
          ∙ e
          ∙ crc5_bytes-append front (flipped ∷ back) 0x1f))

-- A frame that passes the check does not pass it with one bit flipped, whichever bit and wherever
-- the byte stands.
pub crc5_is_valid_flip :
    (front back : List ℕ) (byte i : ℕ)
    → byte < 256
    → i < 8
    → crc5_is_valid (front ++ (byte ∷ back)) ≡ true
    → crc5_is_valid (front ++ (bit_xor byte (2 ^ i) ∷ back)) ≡ false
unfolding crc5_is_valid
crc5_is_valid_flip front back byte i hb hi valid = ground (arith, crc5_flip front back byte i hb hi)

crc16_bytes-append :
    (front back : List ℕ) (crc : ℕ)
    → crc16_bytes (front ++ back) crc ≡ crc16_bytes back (crc16_bytes front crc)
unfolding crc16_bytes
crc16_bytes-append [] back crc = refl
crc16_bytes-append (b ∷ front) back crc = crc16_bytes-append front back _

crc16_byte-lt : (byte crc : ℕ) → byte < 256 → crc < 2 ^ 16 → bit_xor crc (byte * 2 ^ 8) < 2 ^ 16
crc16_byte-lt byte crc hb hc = bit_xor-lt 16 crc (byte * 2 ^ 8) hc (omega arith)

crc16_bytes-lt :
    (bytes : List ℕ) (crc : ℕ) → All IsByte bytes → crc < 2 ^ 16 → crc16_bytes bytes crc < 2 ^ 16
unfolding crc16_bytes
crc16_bytes-lt [] crc hb hc = hc
crc16_bytes-lt (b ∷ bs) crc (hb, hbs) hc =
    crc16_bytes-lt bs _ hbs (crc16_rounds-lt 8 _ (crc16_byte-lt b crc hb hc))

crc16_bytes_injective :
    (bytes : List ℕ) (r s : ℕ)
    → All IsByte bytes
    → r < 2 ^ 16
    → s < 2 ^ 16
    → crc16_bytes bytes r ≡ crc16_bytes bytes s
    → r ≡ s
unfolding crc16_bytes
crc16_bytes_injective [] r s hb hr hs e = e
crc16_bytes_injective (b ∷ bs) r s (hb, hbs) hr hs e =
    let left = crc16_byte-lt b r hb hr in
    let right = crc16_byte-lt b s hb hs in
    bit_xor_injective r s (b * 2 ^ 8) (
      crc16_rounds_injective 8 _ _ left right
        (crc16_bytes_injective bs _ _ hbs (crc16_rounds-lt 8 _ left) (crc16_rounds-lt 8 _ right) e))

-- Two messages of bytes that differ in one byte, wherever it stands, have different CRC-16s.
pub crc16_one_byte :
    (front back : List ℕ) (b c : ℕ)
    → All IsByte front
    → All IsByte back
    → b < 256
    → c < 256
    → crc16 (front ++ (b ∷ back)) ≡ crc16 (front ++ (c ∷ back))
    → b ≡ c
unfolding crc16 crc16_bytes
crc16_one_byte front back b c hf hk hb hc e =
    let crc : ℕ = crc16_bytes front 0xffff in
    let range : crc < 2 ^ 16 = crc16_bytes-lt front 0xffff hf (omega arith) in
    let left = crc16_byte-lt b crc hb range in
    let right = crc16_byte-lt c crc hc range in
    let rest =
      sym (crc16_bytes-append front (b ∷ back) 0xffff)
      ∙ e
      ∙ crc16_bytes-append front (c ∷ back) 0xffff in
    let same = crc16_rounds_injective 8 _ _ left right (
      crc16_bytes_injective back _ _ hk (crc16_rounds-lt 8 _ left) (crc16_rounds-lt 8 _ right)
        rest) in
    let shifted =
      bit_xor_injective (b * 2 ^ 8) (c * 2 ^ 8) crc
        (bit_xor_comm (b * 2 ^ 8) crc ∙ same ∙ bit_xor_comm crc (c * 2 ^ 8)) in
    omega arith
