-- ===== src/Runs/Slots.antt =====
-- The bytes of an extranonce slot, of mujina-miner/src/job_source/extranonce.rs.
use mujina.Common.{◌≡◌, refl, arith, [], ◌∷◌, ok, err}
use mujina.Extranonce.{Extranonce, from_bytes, bytes, beyond_counter}
use mujina.Extranonce.Bytes.{bytes-from_bytes}

abbrev slot : Extranonce
slot = record { counter = 0x1234; width = 3 }

slot_made : from_bytes (0x00 ∷ 0x12 ∷ 0x34 ∷ []) ≡ ok slot
unfolding from_bytes
slot_made = refl

slot_refused : from_bytes (1 ∷ 0 ∷ 0 ∷ 0 ∷ 0 ∷ 0 ∷ 0 ∷ 0 ∷ 0 ∷ []) ≡ err beyond_counter
unfolding from_bytes
slot_refused = refl

bytes-from_bytes_example : bytes slot ≡ 0x00 ∷ 0x12 ∷ 0x34 ∷ []
bytes-from_bytes_example =
    bytes-from_bytes (0x00 ∷ 0x12 ∷ 0x34 ∷ []) slot (omega arith, (omega arith, (omega arith, tt)))
      slot_made
