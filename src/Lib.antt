-- ===== src/Lib.antt =====
-- The verification library of Mujina, firmware in Rust for Bitcoin miners.
--
-- The program takes work from a pool, hands it to hash boards, and reports the shares that they
-- find. A job source gives a job with a range of extranonces; the scheduler splits the range among
-- the hash threads; the thread of a chain of BM13xx chips turns a task into a job frame on a serial
-- line, keeps the task in a tracker, and matches the nonces that come back. This library models two
-- parts in full: the serial protocol of the chips, and the scheduler with its main loop. Of what
-- surrounds them it models the chain of chips, the job tracker, jobs with their extranonce ranges,
-- merkle roots and versions, the estimator of hash rates, and the alarm that watches over a
-- condition.
--
-- Which file models what (paths from the repository's root):
-- - Bm13xx/Crc: mujina-miner/src/asic/bm13xx/crc.rs. `crc5`, `crc5_is_valid` and `crc16`, bit by bit.
-- - Bm13xx/Error: mujina-miner/src/asic/bm13xx/error.rs.
-- - Bm13xx/Register and its children: mujina-miner/src/asic/bm13xx/register.rs. Each register is a
--   record in a child of its own with `encode`, `decode` and its named values; the parent has the
--   addresses and the type of all registers.
-- - Bm13xx/Command: mujina-miner/src/asic/bm13xx/command.rs. Command/Parse is a parser for the
--   commands, which the source has not.
-- - Bm13xx/Response: mujina-miner/src/asic/bm13xx/response.rs.
-- - Bm13xx/Codec: mujina-miner/src/asic/bm13xx/codec.rs. `FrameCodec::encode` is
--   `encode_register_frame` and `encode_job_frame`; a call of `FrameCodec::decode` is `decode`, a
--   function of the buffer to the response and the buffer left. Codec/Chip writes down the frames
--   of a chip, the other end of the wire.
-- - Bm13xx/Topology, Bm13xx/Chain: topology.rs and chain.rs in mujina-miner/src/asic/bm13xx. A method
--   that changes the chain returns the changed one.
-- - Bm13xx/JobTracker: `ChipJobTracker` in mujina-miner/src/asic/bm13xx/thread.rs.
-- - Bm13xx/Nonces: `task_to_job_full`, `roll_ntime` and `handle_nonce` of the same file. The share that
--   a nonce gives is the result of `handle_nonce`. Nonces/Shares writes down the header that the
--   chips hash for a job.
-- - Bm13xx/RegisterClient: mujina-miner/src/asic/bm13xx/register_client.rs. A method returns its result
--   and the state after it; the replies and the ends of waits are in the state, as is what was sent.
--   RegisterClient/Scan has a read as one pass over the replies.
-- - Bm13xx/Reader: mujina-miner/src/asic/bm13xx/reader.rs.
-- - Extranonce: mujina-miner/src/job_source/extranonce.rs.
-- - Version: mujina-miner/src/job_source/version.rs; `VersionTemplate::new` is `template`.
-- - Alarm: mujina-miner/src/types/debounced_alarm.rs. The clock is an argument of `check`.
-- - Estimator: mujina-miner/src/types/hashrate_estimator.rs, with the sum of hash rates of
--   hash_rate.rs beside it. Estimator/History runs it over sequences of calls,
--   and Estimator/Rate says what a rate is.
-- - Job: mujina-miner/src/job_source/job.rs, merkle.rs and messages.rs, and the tasks, shares and
--   events of mujina-miner/src/asic/hash_thread.rs. Job/Merkle has the tree of a block, which the
--   source has not.
-- - Scheduler/Gate: `StartupGate` in mujina-miner/src/scheduler.rs. Scheduler/State, Scheduler/Assign,
--   Scheduler/Handlers and Scheduler/Loop: the rest of that file. A method that changes the scheduler
--   returns the changed one; what it sends is a list of effects; a panic is `none` (Scheduler/Panic).
--   `Loop.step` is one pass of the loop in `Scheduler::run`; the branch that the `select!` takes, the
--   streams that end and the answers of the threads are its input. Scheduler/Slots stands for the
--   slot maps: a key is the number of its insertion. Scheduler/Sound, Scheduler/Keeps and
--   Scheduler/Always have the invariant, Scheduler/Streams, Scheduler/Slices and Scheduler/Stale what
--   follows for lost threads, slices and stale shares.
-- - Common: numbers and their bits, lists, results, words of bytes, and masks of fields in a word.
-- - Runs: concrete runs, on frames that the tests of the source have.
--
-- Numbers are natural numbers with the wrap-around of their type written out; that a number is in
-- the range of its type is a hypothesis where it matters. A `BytesMut` is a list of bytes. All loops
-- are structural recursion, so no function of the program needs fuel: the bits of a byte, the bytes of a message,
-- the chips of a chain, the parts of a split, the threads and sources of the scheduler. The levels of
-- a merkle tree in Job/Merkle are bounded by a number that is at least that of the transactions.
--
-- Not modelled: floating point (rates, frequencies, difficulty as a ratio), formatting, logging and
-- I/O (serial ports, I2C, HTTP); the rest of the hash thread's actor, the Stratum client, the boards, the
-- peripherals and the management protocol. The scheduler takes the target of a share rate and the
-- time to a share, both floating point, as parameters, the latter with a panic where no duration can
-- hold it; the order in which the slot maps are visited,
-- which is arbitrary there, is that of insertion here. The statistics of a chip, the printing of
-- extranonces and the conversions of a ticket mask to a hash rate are left out of the files above.
pub mod Common
pub mod Bm13xx
pub mod Alarm
pub mod Estimator
pub mod Extranonce
pub mod Job
pub mod Scheduler
pub mod Version
mod Runs
