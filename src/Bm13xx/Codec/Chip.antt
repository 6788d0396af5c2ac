-- ===== src/Bm13xx/Codec/Chip.antt =====
-- The frames that a chip sends, written down from the frame layouts: the other end of the wire, for
-- which the source has no code. The last byte holds the type over the CRC of all bits before it.
use mujina.Common.{ℕ, ◌+◌, ◌*◌, ◌^◌, ◌<◌, List, [], ◌∷◌, ◌++◌}
use mujina.Common.{IsU32}
use mujina.Common.Words.{to_list, to_le_bytes}
use mujina.Bm13xx.Crc.{crc5, crc5_rounds}
use mujina.Bm13xx.Register
use mujina.Bm13xx.Register.{address_u8}
use mujina.Bm13xx.Register.ChipModel.{ChipModel, bm1370}
use mujina.Bm13xx.Response.{Response, read_register, nonce}

unfoldable pub seal : ℕ → List ℕ → ℕ
seal kind front = kind * 2 ^ 5 + crc5_rounds 3 kind (crc5 front)

-- The first eight bytes behind the preamble, and the type.
unfoldable pub pack_header : ChipModel → ℕ → ℕ → ℕ
pack_header bm1370 job_id subcore_id = job_id * 2 ^ 4 + subcore_id
pack_header _ job_id subcore_id = job_id * 2 ^ 3 + subcore_id

unfoldable pub front_bytes : ChipModel → Response → List ℕ
unfolding pack_header
front_bytes model (read_register r) =
    to_list (Register.wire r.register)
    ++ (r.chip_address ∷ address_u8 (Register.address r.register) ∷ 0 ∷ 0 ∷ [])
front_bytes model (nonce r) =
    to_le_bytes r.nonce
    ++ (r.excess_difficulty
        ∷ pack_header model r.job_id r.subcore_id
        ∷ r.version.0
        ∷ r.version.1
        ∷ [])

unfoldable pub kind_of : Response → ℕ
kind_of (read_register _) = 0
kind_of (nonce _) = 4

unfoldable pub chip_frame : ChipModel → Response → List ℕ
unfolding seal
chip_frame model r =
    0xaa ∷ 0x55 ∷ (front_bytes model r ++ (seal (kind_of r) (front_bytes model r) ∷ []))

-- The ids fit the result header of the model.
abbrev pub HeaderFits : ChipModel → ℕ → ℕ → Type 0
HeaderFits bm1370 job_id subcore_id = (job_id < 16) × (subcore_id < 16)
HeaderFits _ job_id subcore_id = (job_id < 32) × (subcore_id < 8)

-- What a chip of the model can report.
abbrev pub IsReportable : ChipModel → Response → Type 0
IsReportable model (read_register r) = Register.IsCanonical r.register
IsReportable model (nonce r) = IsU32 r.nonce × HeaderFits model r.job_id r.subcore_id
