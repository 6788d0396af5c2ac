-- ===== src/Bm13xx/Command.antt =====
-- mujina-miner/src/asic/bm13xx/command.rs: the bodies of the frames that the host sends, from the
-- flags byte up to the CRC. `encode` appends to the buffer `dst`.
pub mod Hash
pub mod Parse
use mujina.Common.{
  ℕ, ◌+◌, ◌*◌, ◌%◌, ◌^◌, Bool, true, false, List, [], ◌∷◌, ◌++◌, Option, some, none,
}
use mujina.Common.{from_bool}
use mujina.Common.Words.{put_u8, put_u32_le}
use mujina.Bm13xx.Register
use mujina.Bm13xx.Register.{Register, RegisterAddress, address_u8}
use Hash.{hash_to_wire_bytes}

pub data Kind : Type 0 where
  job command : Kind

unfoldable pub kind_u8 : Kind → ℕ
kind_u8 job = 1
kind_u8 command = 2

pub data Cmd : Type 0 where
  set_chip_address_cmd write_register_or_job read_register_cmd chain_inactive_cmd : Cmd

unfoldable pub cmd_u8 : Cmd → ℕ
cmd_u8 set_chip_address_cmd = 0
cmd_u8 write_register_or_job = 1
cmd_u8 read_register_cmd = 2
cmd_u8 chain_inactive_cmd = 3

pub record TypeFlags : Type 0 where
  pub kind : Kind
  pub broadcast : Bool
  pub cmd : Cmd

-- `store` puts a value in bits 5 and 6, bit 4, and bits 0 to 3 of the byte, which starts at 0.
unfoldable pub encode_type_flags : TypeFlags → List ℕ → List ℕ
unfolding kind_u8 cmd_u8
encode_type_flags flags dst =
    put_u8
      (kind_u8 flags.kind % 2 ^ 2 * 2 ^ 5
        + from_bool flags.broadcast * 2 ^ 4
        + cmd_u8 flags.cmd % 2 ^ 4)
      dst

pub data Destination : Type 0 where
  broadcast : Destination
  chip : ℕ → Destination

unfoldable pub is_broadcast : Destination → Bool
is_broadcast broadcast = true
is_broadcast (chip _) = false

unfoldable pub address_byte : Destination → ℕ
address_byte broadcast = 0x00
address_byte (chip addr) = addr

pub data RegisterCommand : Type 0 where
  set_chip_address : (chip_address : ℕ) → RegisterCommand
  chain_inactive : RegisterCommand
  read_register : (destination : Destination) (register_address : RegisterAddress) → RegisterCommand
  write_register : (destination : Destination) (register : Register) → RegisterCommand

unfoldable pub encode_register : RegisterCommand → List ℕ → List ℕ
unfolding encode_type_flags is_broadcast address_byte
encode_register (set_chip_address chip_address) dst = put_u8 0x00 (
    put_u8 chip_address (
      put_u8 5 (
        encode_type_flags (record { kind = command; broadcast = false; cmd = set_chip_address_cmd })
          dst)))
encode_register chain_inactive dst = put_u8 0x00 (
    put_u8 0x00 (
      put_u8 5 (
        encode_type_flags (record { kind = command; broadcast = true; cmd = chain_inactive_cmd })
          dst)))
encode_register (read_register destination register_address) dst =
    put_u8 (address_u8 register_address) (
      put_u8 (address_byte destination) (
        put_u8 5 (
          encode_type_flags
            (record {
              kind = command;
              broadcast = is_broadcast destination;
              cmd = read_register_cmd;
            })
            dst)))
encode_register (write_register destination register) dst = Register.encode register (
    put_u8 (address_u8 (Register.address register)) (
      put_u8 (address_byte destination) (
        put_u8 9 (
          encode_type_flags
            (record {
              kind = command;
              broadcast = is_broadcast destination;
              cmd = write_register_or_job;
            })
            dst))))

-- Hashes are lists of 32 bytes, in the order of `to_byte_array`; `version` is the bit pattern of
-- the `i32`.
pub record JobFullFormat : Type 0 where
  pub job_id : ℕ
  pub num_midstates : ℕ
  pub starting_nonce : ℕ
  pub nbits : ℕ
  pub ntime : ℕ
  pub merkle_root : List ℕ
  pub prev_block_hash : List ℕ
  pub version : ℕ

abbrev job_flags : TypeFlags
job_flags = record { kind = job; broadcast = false; cmd = write_register_or_job }

-- The `debug_assert` on `job_id`, which release builds drop, is not modelled.
unfoldable pub encode_job_full : JobFullFormat → List ℕ → List ℕ
unfolding encode_type_flags
encode_job_full j dst =
    let flags = put_u8 54 (encode_type_flags job_flags dst) in
    let ids = put_u8 j.num_midstates (put_u8 (j.job_id * 2 ^ 3 % 2 ^ 8) flags) in
    let words = put_u32_le j.ntime (put_u32_le j.nbits (put_u32_le j.starting_nonce ids)) in
    let root = words ++ hash_to_wire_bytes j.merkle_root in
    let prev = root ++ hash_to_wire_bytes j.prev_block_hash in put_u32_le j.version prev

pub record JobMidstateFormat : Type 0 where
  pub job_id : ℕ
  pub num_midstates : ℕ
  pub starting_nonce : List ℕ
  pub nbits : List ℕ
  pub ntime : List ℕ
  pub merkle4 : List ℕ
  pub midstate0 : List ℕ
  pub midstate1 : Option (List ℕ)
  pub midstate2 : Option (List ℕ)
  pub midstate3 : Option (List ℕ)

-- `if let Some(midstate) = … { dst.put_slice(midstate) }`.
abbrev pub put_midstate : Option (List ℕ) → List ℕ → List ℕ
put_midstate none dst = dst
put_midstate (some midstate) dst = dst ++ midstate

-- The length is a `u8`; a release build wraps it.
unfoldable pub encode_job_midstate : JobMidstateFormat → List ℕ → List ℕ
unfolding encode_type_flags
encode_job_midstate j dst =
    let flags =
      put_u8 ((1 + 1 + 18 + j.num_midstates * 32 + 2) % 2 ^ 8) (encode_type_flags job_flags dst) in
    let ids = put_u8 j.num_midstates (put_u8 (j.job_id * 2 ^ 3 % 2 ^ 8) flags) in
    let header = (((ids ++ j.starting_nonce) ++ j.nbits) ++ j.ntime) ++ j.merkle4 in
    put_midstate j.midstate3
      (put_midstate j.midstate2 (put_midstate j.midstate1 (header ++ j.midstate0)))

pub data JobCommand : Type 0 where
  job_full : JobFullFormat → JobCommand
  job_midstate : JobMidstateFormat → JobCommand

unfoldable pub encode_job : JobCommand → List ℕ → List ℕ
unfolding encode_job_full encode_job_midstate
encode_job (job_full j) dst = encode_job_full j dst
encode_job (job_midstate j) dst = encode_job_midstate j dst
