-- ===== src/Common/Words.antt =====
-- Fixed-size byte arrays and the big-endian and little-endian forms of a word, as the `bytes`
-- crate and `from_be_bytes` write and read them. A `BytesMut` that is written to is a list.
use mujina.Common.Tests.{IsByte, IsU32}
use Prim.Native.Nat.{ℕ, ◌+◌, ◌*◌, ◌/◌, ◌%◌, ◌^◌}
use mathlib.Core.Path.{◌≡◌}
use mathlib.Core.List.{List, [], ◌∷◌, ◌++◌}
use native.Mathlib.Omega.{arith}

-- `[u8; 4]`.
pub record Bytes4 : Type 0 where
  pub byte0 : ℕ
  pub byte1 : ℕ
  pub byte2 : ℕ
  pub byte3 : ℕ

pub record AreBytes (b : Bytes4) : Type 0 where
  pub is_byte0 : IsByte b.byte0
  pub is_byte1 : IsByte b.byte1
  pub is_byte2 : IsByte b.byte2
  pub is_byte3 : IsByte b.byte3

abbrev pub to_list : Bytes4 → List ℕ
to_list b = b.byte0 ∷ b.byte1 ∷ b.byte2 ∷ b.byte3 ∷ []

unfoldable pub from_be_bytes : Bytes4 → ℕ
from_be_bytes b = b.byte0 * 2 ^ 24 + b.byte1 * 2 ^ 16 + b.byte2 * 2 ^ 8 + b.byte3

unfoldable pub to_be_bytes : ℕ → Bytes4
to_be_bytes w = record {
  byte0 = w / 2 ^ 24 % 2 ^ 8;
  byte1 = w / 2 ^ 16 % 2 ^ 8;
  byte2 = w / 2 ^ 8 % 2 ^ 8;
  byte3 = w % 2 ^ 8;
}

-- `put_u8`, `put_u32` and `put_u32_le` append.
abbrev pub put_u8 : ℕ → List ℕ → List ℕ
put_u8 b dst = dst ++ (b ∷ [])

abbrev pub put_u32 : ℕ → List ℕ → List ℕ
put_u32 w dst = dst ++ to_list (to_be_bytes w)

unfoldable pub to_le_bytes : ℕ → List ℕ
to_le_bytes w = w % 2 ^ 8 ∷ w / 2 ^ 8 % 2 ^ 8 ∷ w / 2 ^ 16 % 2 ^ 8 ∷ w / 2 ^ 24 % 2 ^ 8 ∷ []

abbrev pub put_u32_le : ℕ → List ℕ → List ℕ
put_u32_le w dst = dst ++ to_le_bytes w

pub from_be_bytes-lt : (b : Bytes4) → AreBytes b → IsU32 (from_be_bytes b)
unfolding from_be_bytes
from_be_bytes-lt b h = omega arith

pub to_be_bytes-AreBytes : (w : ℕ) → AreBytes (to_be_bytes w)
unfolding to_be_bytes
to_be_bytes-AreBytes w = omega arith

pub from_be_bytes-to_be_bytes : (w : ℕ) → IsU32 w → from_be_bytes (to_be_bytes w) ≡ w
unfolding from_be_bytes to_be_bytes
from_be_bytes-to_be_bytes w h = omega arith

pub to_be_bytes-from_be_bytes : (b : Bytes4) → AreBytes b → to_be_bytes (from_be_bytes b) ≡ b
unfolding from_be_bytes to_be_bytes
to_be_bytes-from_be_bytes b h = ground arith
