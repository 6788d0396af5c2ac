-- ===== src/Bm13xx/Register/HashCountingNumber.antt =====
-- `HashCountingNumber` (0x10) of mujina-miner/src/asic/bm13xx/register.rs: the nonce sweep deadline.
use mujina.Common.{ℕ, ◌≡◌, List, IsU32}
use mujina.Common.Words.{Bytes4, AreBytes, from_be_bytes, to_be_bytes, put_u32, from_be_bytes-lt}
use mujina.Common.Words.{from_be_bytes-to_be_bytes, to_be_bytes-from_be_bytes}

pub record HashCountingNumber : Type 0 where
  pub ticks : ℕ

pub wire : HashCountingNumber → Bytes4
wire r = to_be_bytes r.ticks

unfoldable pub encode : HashCountingNumber → List ℕ → List ℕ
unfolding wire
encode r dst = put_u32 r.ticks dst

unfoldable pub decode : Bytes4 → HashCountingNumber
decode bytes = record { ticks = from_be_bytes bytes }

abbrev pub IsCanonical : HashCountingNumber → Type 0
IsCanonical r = IsU32 r.ticks

-- What is encoded is decoded.
pub decode-wire : (r : HashCountingNumber) → IsCanonical r → decode (wire r) ≡ r
unfolding decode wire
decode-wire r c = rw (from_be_bytes-to_be_bytes r.ticks c)

-- What is decoded is encoded as it came.
pub wire-decode : (b : Bytes4) → AreBytes b → wire (decode b) ≡ b
unfolding decode wire
wire-decode b h = to_be_bytes-from_be_bytes b h

pub decode-IsCanonical : (b : Bytes4) → AreBytes b → IsCanonical (decode b)
unfolding decode
decode-IsCanonical b h = from_be_bytes-lt b h
