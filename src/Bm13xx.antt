-- ===== src/Bm13xx.antt =====
-- mujina-miner/src/asic/bm13xx: the protocol of the BM13xx chips.
pub mod Error
pub mod Crc
pub mod Register
pub mod Command
pub mod Response
pub mod Codec
pub mod Topology
pub mod Chain
pub mod JobTracker
pub mod Nonces
pub mod RegisterClient
pub mod Reader
