-- ===== src/Bm13xx/Register/ChipModel.antt =====
-- `ChipModel` of mujina-miner/src/asic/bm13xx/register.rs and its two identification bytes.
use mujina.Common.{ℕ, ◌≡◌, refl, ◌&&◌, ◌==◌, if◌then◌else◌, Result, ok, err, arith}
use mujina.Bm13xx.Error.{ProtocolError, unknown_chip_id}

pub data ChipModel : Type 0 where
  bm1362 bm1366 bm1370 : ChipModel

unfoldable pub id_bytes : ChipModel → ℕ × ℕ
id_bytes bm1362 = (0x13, 0x62)
id_bytes bm1366 = (0x13, 0x66)
id_bytes bm1370 = (0x13, 0x70)

unfoldable pub try_from : ℕ → ℕ → Result ProtocolError ChipModel
try_from a b =
    if (a == 0x13) && (b == 0x62)
    then ok bm1362
    else if (a == 0x13) && (b == 0x66)
    then ok bm1366
    else if (a == 0x13) && (b == 0x70)
    then ok bm1370
    else err (unknown_chip_id a b)

pub try_from-id_bytes : (m : ChipModel) → try_from (id_bytes m).0 (id_bytes m).1 ≡ ok m
unfolding try_from id_bytes
try_from-id_bytes bm1362 = refl
try_from-id_bytes bm1366 = refl
try_from-id_bytes bm1370 = refl

-- Only the bytes of a model are accepted.
pub id_bytes-try_from : (a b : ℕ) (m : ChipModel) → try_from a b ≡ ok m → id_bytes m ≡ (a, b)
unfolding try_from id_bytes
id_bytes-try_from a b bm1362 e = ground arith
id_bytes-try_from a b bm1366 e = ground arith
id_bytes-try_from a b bm1370 e = ground arith
