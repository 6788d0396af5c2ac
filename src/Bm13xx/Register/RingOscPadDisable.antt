-- ===== src/Bm13xx/Register/RingOscPadDisable.antt =====
-- `RingOscPadDisable` (0x68) of mujina-miner/src/asic/bm13xx/register.rs: the pads of the ring oscillators.
-- `opaque_register!` makes it a tuple struct of its four wire bytes.
use mujina.Common.{ℕ, ◌≡◌, refl, List, ◌++◌}
use mujina.Common.Words.{Bytes4, AreBytes, to_list}

pub record RingOscPadDisable : Type 0 where
  pub bytes : Bytes4

abbrev pub wire : RingOscPadDisable → Bytes4
wire r = r.bytes

unfoldable pub encode : RingOscPadDisable → List ℕ → List ℕ
encode r dst = dst ++ to_list r.bytes

unfoldable pub decode : Bytes4 → RingOscPadDisable
decode bytes = record { bytes = bytes }

unfoldable pub guard_pattern : RingOscPadDisable
guard_pattern = record { bytes = record { byte0 = 0x5A; byte1 = 0xA5; byte2 = 0x5A; byte3 = 0xA5 } }

abbrev pub IsCanonical : RingOscPadDisable → Type 0
IsCanonical r = AreBytes r.bytes

pub decode-wire : (r : RingOscPadDisable) → decode (wire r) ≡ r
unfolding decode
decode-wire r = refl

pub wire-decode : (b : Bytes4) → wire (decode b) ≡ b
unfolding decode
wire-decode b = refl
