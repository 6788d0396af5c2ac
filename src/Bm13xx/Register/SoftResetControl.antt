-- ===== src/Bm13xx/Register/SoftResetControl.antt =====
-- `SoftResetControl` (0xA8) of mujina-miner/src/asic/bm13xx/register.rs: the soft resets; the one field of the tuple struct.
use mujina.Common.{ℕ, ◌≡◌, List, IsU32}
use mujina.Common.Words.{Bytes4, AreBytes, from_be_bytes, to_be_bytes, put_u32, from_be_bytes-lt}
use mujina.Common.Words.{from_be_bytes-to_be_bytes, to_be_bytes-from_be_bytes}
use mujina.Bm13xx.Register.ChipModel.{ChipModel, bm1362}

pub record SoftResetControl : Type 0 where
  pub value : ℕ

pub wire : SoftResetControl → Bytes4
wire r = to_be_bytes r.value

unfoldable pub encode : SoftResetControl → List ℕ → List ℕ
unfolding wire
encode r dst = put_u32 r.value dst

unfoldable pub decode : Bytes4 → SoftResetControl
decode bytes = record { value = from_be_bytes bytes }

unfoldable pub defaults : ChipModel → SoftResetControl
defaults bm1362 = record { value = 0x0000_0000 }
defaults _ = record { value = 0x0007_0000 }

unfoldable pub core_reset : ChipModel → SoftResetControl
core_reset bm1362 = record { value = 0x0000_0002 }
core_reset _ = record { value = 0x0007_01F0 }

abbrev pub IsCanonical : SoftResetControl → Type 0
IsCanonical r = IsU32 r.value

-- What is encoded is decoded.
pub decode-wire : (r : SoftResetControl) → IsCanonical r → decode (wire r) ≡ r
unfolding decode wire
decode-wire r c = rw (from_be_bytes-to_be_bytes r.value c)

-- What is decoded is encoded as it came.
pub wire-decode : (b : Bytes4) → AreBytes b → wire (decode b) ≡ b
unfolding decode wire
wire-decode b h = to_be_bytes-from_be_bytes b h

pub decode-IsCanonical : (b : Bytes4) → AreBytes b → IsCanonical (decode b)
unfolding decode
decode-IsCanonical b h = from_be_bytes-lt b h
