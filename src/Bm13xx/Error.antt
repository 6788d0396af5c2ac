-- ===== src/Bm13xx/Error.antt =====
-- mujina-miner/src/asic/bm13xx/error.rs.
use mujina.Common.{ℕ}

-- `ReadOnlyRegister` carries the byte of the register's address.
pub data ProtocolError : Type 0 where
  invalid_register_address : ℕ → ProtocolError
  invalid_response_type : ℕ → ProtocolError
  read_only_register : ℕ → ProtocolError
  invalid_frame : ProtocolError
  unknown_chip_id : ℕ → ℕ → ProtocolError
  buffer_too_small : ℕ → ℕ → ProtocolError
