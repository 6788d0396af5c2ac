-- ===== src/Job.antt =====
-- The jobs that sources give and the messages about them: mujina-miner/src/job_source/job.rs,
-- merkle.rs and messages.rs, and the tasks, shares and events of hash threads in
-- mujina-miner/src/asic/hash_thread.rs. Hashes and texts are lists of bytes, and a `Target` and a
-- `BlockHash` are the numbers they stand for. Of a thread's status the
-- temperature, a floating point number, is left out. A channel is named by the key that the scheduler knows it by, so a task
-- has no field for it.
pub mod Merkle
use mujina.Common.{ℕ, Bool, List, [], ◌∷◌, ◌++◌, Option, none, some, Result, ok, err, ◌>>=◌, leb}
use mujina.Extranonce.{Extranonce, ExtranonceRange, bytes}
use mujina.Version.{VersionTemplate}

pub record MerkleRootTemplate : Type 0 where
  pub coinbase_prefix : List ℕ
  pub extranonce_prefix : List ℕ
  pub extranonce_range : ExtranonceRange
  pub coinbase_suffix : List ℕ
  pub merkle_branches : List (List ℕ)

pub data MerkleRootKind : Type 0 where
  fixed : List ℕ → MerkleRootKind
  computed : MerkleRootTemplate → MerkleRootKind

pub record JobTemplate : Type 0 where
  pub id : List ℕ
  pub prev_blockhash : List ℕ
  pub version : VersionTemplate
  pub bits : ℕ
  pub share_target : ℕ
  pub time : ℕ
  pub merkle_root : MerkleRootKind

-- A share for a source, and one from a thread.
pub record SourceShare : Type 0 where
  pub job_id : List ℕ
  pub nonce : ℕ
  pub time : ℕ
  pub version : ℕ
  pub extranonce : Option Extranonce

pub record Share : Type 0 where
  pub nonce : ℕ
  pub hash : ℕ
  pub version : ℕ
  pub ntime : ℕ
  pub extranonce : Option Extranonce
  pub expected_work : ℕ

unfoldable pub from_share : Share → List ℕ → SourceShare
from_share share job_id = record {
  job_id = job_id;
  nonce = share.nonce;
  time = share.ntime;
  version = share.version;
  extranonce = share.extranonce;
}

pub data SourceEvent : Type 0 where
  update_job : JobTemplate → SourceEvent
  replace_job : JobTemplate → SourceEvent
  clear_jobs : SourceEvent

pub data SourceCommand : Type 0 where
  submit_share : SourceShare → SourceCommand
  update_hash_rate : ℕ → SourceCommand

pub record HashTask : Type 0 where
  pub template : JobTemplate
  pub extranonce_range : Option ExtranonceRange
  pub extranonce : Option Extranonce
  pub share_target : ℕ
  pub ntime : ℕ

pub record HashThreadStatus : Type 0 where
  pub hashrate : ℕ
  pub chip_shares_found : ℕ
  pub pool_shares_submitted : ℕ
  pub hardware_errors : ℕ
  pub is_active : Bool

pub data HashThreadEvent : Type 0 where
  work_depletion_warning : ℕ → HashThreadEvent
  work_exhausted : ℕ → HashThreadEvent
  status_update : HashThreadStatus → HashThreadEvent
  expected_hash_rate : ℕ → HashThreadEvent

pub data MerkleError : Type 0 where
  bad_coinbase : MerkleError
  header_only : MerkleError

-- `Target::is_met_by`, of the bitcoin crate: the hash as a number is at most the target.
unfoldable pub is_met_by : ℕ → ℕ → Bool
is_met_by target hash = leb hash target

-- The parameters are of the bitcoin crate: the id of the transaction that the bytes are, if they
-- are one, and the double hash.
module _ (txid : List ℕ → Option (List ℕ)) (sha256d : List ℕ → List ℕ) where
  -- The loop over the branches.
  unfoldable pub climb : List ℕ → List (List ℕ) → List ℕ
  climb current_hash [] = current_hash
  climb current_hash (branch ∷ rest) = climb (sha256d (current_hash ++ branch)) rest

  unfoldable pub coinbase_bytes : MerkleRootTemplate → Extranonce → List ℕ
  coinbase_bytes template extranonce =
      ((template.coinbase_prefix ++ template.extranonce_prefix) ++ bytes extranonce)
      ++ template.coinbase_suffix

  unfoldable pub template_merkle_root :
      MerkleRootTemplate → Extranonce → Result MerkleError (List ℕ)
  unfolding climb
  template_merkle_root template extranonce = elim (txid (coinbase_bytes template extranonce)) [
    | none ↦ err bad_coinbase
    | some id ↦ ok (climb id template.merkle_branches)
  ]

  unfoldable pub compute_merkle_root : JobTemplate → Extranonce → Result MerkleError (List ℕ)
  unfolding template_merkle_root
  compute_merkle_root job extranonce = elim job.merkle_root [
    | computed template ↦ template_merkle_root template extranonce
    | fixed root ↦ err header_only
  ]
