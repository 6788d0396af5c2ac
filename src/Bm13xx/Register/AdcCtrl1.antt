-- ===== src/Bm13xx/Register/AdcCtrl1.antt =====
-- `AdcCtrl1` (0xB9) of mujina-miner/src/asic/bm13xx/register.rs: the analog-to-digital converter.
-- `opaque_register!` makes it a tuple struct of its four wire bytes.
use mujina.Common.{ℕ, ◌≡◌, refl, List, ◌++◌}
use mujina.Common.Words.{Bytes4, AreBytes, to_list}

pub record AdcCtrl1 : Type 0 where
  pub bytes : Bytes4

abbrev pub wire : AdcCtrl1 → Bytes4
wire r = r.bytes

unfoldable pub encode : AdcCtrl1 → List ℕ → List ℕ
encode r dst = dst ++ to_list r.bytes

unfoldable pub decode : Bytes4 → AdcCtrl1
decode bytes = record { bytes = bytes }

unfoldable pub bring_up : AdcCtrl1
bring_up = record { bytes = record { byte0 = 0x00; byte1 = 0x00; byte2 = 0x44; byte3 = 0x80 } }

abbrev pub IsCanonical : AdcCtrl1 → Type 0
IsCanonical r = AreBytes r.bytes

pub decode-wire : (r : AdcCtrl1) → decode (wire r) ≡ r
unfolding decode
decode-wire r = refl

pub wire-decode : (b : Bytes4) → wire (decode b) ≡ b
unfolding decode
wire-decode b = refl
