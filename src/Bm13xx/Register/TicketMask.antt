-- ===== src/Bm13xx/Register/TicketMask.antt =====
-- `TicketMask` (0x14) and `Log2Difficulty` of mujina-miner/src/asic/bm13xx/register.rs: which
-- nonces a chip reports. The word goes out with its bytes and the bits of each byte reversed.
use mujina.Common.{
  ℕ, zero, suc, ◌+◌, ◌-◌, ◌*◌, ◌/◌, ◌%◌, ◌^◌, ◌<◌, ◌≡◌, refl, bit_and, bit_or, arith,
}
use mujina.Common.{List, ◌++◌, true, ◌==◌, ◌&&◌, ltb, leb, if◌then◌else◌, IsU32}
use mujina.Common.Words.{Bytes4, AreBytes, to_list}
use mujina.Common.Bits.{bit_or_fields, bit_or_comm, bit_and_low, zero-bit_or}
use mujina.Common.Table.{all_below, all_below_sound}

-- `for _ in 0..n`, at `n` = 8, with the loop's two variables.
pub reverse_rounds : ℕ → ℕ → ℕ → ℕ
reverse_rounds zero b result = result
reverse_rounds (suc n) b result =
    reverse_rounds n (b / 2) (bit_or (result * 2 % 2 ^ 8) (bit_and b 1))

unfoldable pub reverse_bits : ℕ → ℕ
unfolding reverse_rounds
reverse_bits byte = reverse_rounds 8 byte 0

pub record TicketMask : Type 0 where
  pub mask : ℕ

-- From the exponent of the `Log2Difficulty`.
unfoldable pub new : ℕ → TicketMask
new zero_bits = record { mask = if leb 32 zero_bits then 2 ^ 32 - 1 else 2 ^ zero_bits - 1 }

-- The loop over the four bytes, written out.
unfoldable pub to_wire_bytes : TicketMask → Bytes4
to_wire_bytes r = record {
  byte0 = reverse_bits (bit_and (r.mask / 2 ^ 24) 0xff);
  byte1 = reverse_bits (bit_and (r.mask / 2 ^ 16) 0xff);
  byte2 = reverse_bits (bit_and (r.mask / 2 ^ 8) 0xff);
  byte3 = reverse_bits (bit_and r.mask 0xff);
}

unfoldable pub encode : TicketMask → List ℕ → List ℕ
encode r dst = dst ++ to_list (to_wire_bytes r)

unfoldable pub decode_ticket_mask_bytes : Bytes4 → ℕ
decode_ticket_mask_bytes b =
    bit_or
      (bit_or (bit_or (bit_or 0 (reverse_bits b.byte3)) (reverse_bits b.byte2 * 2 ^ 8))
        (reverse_bits b.byte1 * 2 ^ 16))
      (reverse_bits b.byte0 * 2 ^ 24)

unfoldable pub decode : Bytes4 → TicketMask
decode bytes = record { mask = decode_ticket_mask_bytes bytes }

abbrev pub IsCanonical : TicketMask → Type 0
IsCanonical r = IsU32 r.mask

reverse_table :
    all_below 256 (λ b. (reverse_bits (reverse_bits b) == b) && ltb (reverse_bits b) 256) ≡ true
unfolding all_below reverse_bits
reverse_table = refl

pub reverse_bits-reverse_bits : (b : ℕ) → b < 256 → reverse_bits (reverse_bits b) ≡ b
reverse_bits-reverse_bits b h = ground (arith, all_below_sound 256 _ b reverse_table h)

pub reverse_bits-lt : (b : ℕ) → b < 256 → reverse_bits b < 256
reverse_bits-lt b h = ground (arith, all_below_sound 256 _ b reverse_table h)

-- The bytes that are joined, as a sum.
join_bytes :
    (a b c d : ℕ)
    → a < 256
    → b < 256
    → c < 256
    → bit_or (bit_or (bit_or (bit_or 0 a) (b * 2 ^ 8)) (c * 2 ^ 16)) (d * 2 ^ 24)
      ≡ d * 2 ^ 24 + (c * 2 ^ 16 + (b * 2 ^ 8 + a))
join_bytes a b c d ha hb hc =
    rw
      (
        zero-bit_or a,
        bit_or_comm a (b * 2 ^ 8),
        bit_or_fields 8 b a ha,
        bit_or_comm (b * 2 ^ 8 + a) (c * 2 ^ 16),
        bit_or_fields 16 c (b * 2 ^ 8 + a) (omega arith),
        bit_or_comm (c * 2 ^ 16 + (b * 2 ^ 8 + a)) (d * 2 ^ 24),
      )
      (bit_or_fields 24 d _ (omega arith))

byte_back : (w : ℕ) → reverse_bits (reverse_bits (bit_and w 0xff)) ≡ w % 2 ^ 8
byte_back w = rw (bit_and_low 8 w) (reverse_bits-reverse_bits (w % 2 ^ 8) (omega arith))

-- What is encoded is decoded.
pub decode-wire : (r : TicketMask) → IsCanonical r → decode (to_wire_bytes r) ≡ r
unfolding decode decode_ticket_mask_bytes to_wire_bytes
decode-wire r c = ground (
  arith,
  byte_back r.mask,
  byte_back (r.mask / 2 ^ 8),
  byte_back (r.mask / 2 ^ 16),
  byte_back (r.mask / 2 ^ 24),
  join_bytes (r.mask % 2 ^ 8) (r.mask / 2 ^ 8 % 2 ^ 8) (r.mask / 2 ^ 16 % 2 ^ 8)
      (r.mask / 2 ^ 24 % 2 ^ 8),
)

-- What is decoded is encoded as it came.
pub wire-decode : (b : Bytes4) → AreBytes b → to_wire_bytes (decode b) ≡ b
unfolding decode decode_ticket_mask_bytes to_wire_bytes
wire-decode b h =
    let low = reverse_bits-lt b.byte3 h.is_byte3 in
    let second = reverse_bits-lt b.byte2 h.is_byte2 in
    let third = reverse_bits-lt b.byte1 h.is_byte1 in
    let high = reverse_bits-lt b.byte0 h.is_byte0 in
    let w : ℕ = decode_ticket_mask_bytes b in
    ground (
      arith,
      join_bytes (reverse_bits b.byte3) (reverse_bits b.byte2) (reverse_bits b.byte1)
          (reverse_bits b.byte0) low second third,
      low,
      second,
      third,
      high,
      bit_and_low 8 w,
      bit_and_low 8 (w / 2 ^ 8),
      bit_and_low 8 (w / 2 ^ 16),
      bit_and_low 8 (w / 2 ^ 24),
      reverse_bits-reverse_bits b.byte0,
      reverse_bits-reverse_bits b.byte1,
      reverse_bits-reverse_bits b.byte2,
      reverse_bits-reverse_bits b.byte3,
    )
