-- ===== src/Runs.antt =====
-- Concrete runs of the models, and the theorems at concrete inputs.
mod Checksums
mod Registers
mod Frames
mod Boards
mod Work
mod Rates
mod Schedule
mod Slots
mod Versions
mod Nonces
mod Conversations
