-- ===== src/Bm13xx/Nonces.antt =====
-- mujina-miner/src/asic/bm13xx/thread.rs: tasks turned into jobs for the chips, and the nonces that
-- come back turned into shares. The transaction format and the hashes are parameters, of the bitcoin
-- crate, as is the work of a target. The work of the chips' own filter is an argument. A share that
-- is sent stands with the task whose channel it is sent on.
pub mod Shares
use mujina.Common.{
  ℕ, ◌+◌, ◌%◌, ◌^◌, max, List, Option, none, some, Result, ok, err, ◌>>=◌, if◌then◌else◌,
}
use mujina.Extranonce.{Extranonce}
use mujina.Version.{GeneralPurposeBits, apply_to_version}
use mujina.Job.{
  JobTemplate, HashTask, Share, MerkleRootKind, fixed, computed, MerkleError, compute_merkle_root,
  is_met_by,
}
use mujina.Bm13xx.Command.{JobFullFormat}
use mujina.Bm13xx.Response.{NonceResponse}
use mujina.Bm13xx.JobTracker.{ChipJobTracker, get, insert}

-- The header of a block, of the bitcoin crate.
pub record BlockHeader : Type 0 where
  pub version : ℕ
  pub prev_blockhash : List ℕ
  pub merkle_root : List ℕ
  pub time : ℕ
  pub bits : ℕ
  pub nonce : ℕ

pub data JobError : Type 0 where
  extranonce_required : JobError
  merkle_failed : MerkleError → JobError

-- `context`, on the error of a merkle root.
unfoldable pub in_job : Result MerkleError (List ℕ) → Result JobError (List ℕ)
in_job (ok root) = ok root
in_job (err e) = err (merkle_failed e)

unfoldable pub sent : Result JobError JobFullFormat → Option JobFullFormat
sent (ok job) = some job
sent (err e) = none

-- `as_ref().and_then(…ok())`.
unfoldable pub root_if :
    (Extranonce → Result MerkleError (List ℕ)) → Option Extranonce → Option (List ℕ)
root_if f none = none
root_if f (some extranonce) = elim (f extranonce) [ ok root ↦ some root | err e ↦ none ]

module _ (txid : List ℕ → Option (List ℕ)) (sha256d : List ℕ → List ℕ) where
  unfoldable pub task_merkle_root :
      MerkleRootKind → Option Extranonce → JobTemplate → Result JobError (List ℕ)
  unfolding in_job compute_merkle_root
  task_merkle_root (fixed root) extranonce template = ok root
  task_merkle_root (computed merkle) none template = err extranonce_required
  task_merkle_root (computed merkle) (some extranonce) template =
      in_job (compute_merkle_root txid sha256d template extranonce)

  unfoldable pub task_to_job_full : HashTask → ℕ → Result JobError JobFullFormat
  unfolding task_merkle_root
  task_to_job_full task chip_job_id =
      task_merkle_root task.template.merkle_root task.extranonce task.template >>= λ root.
      ok (record {
        job_id = chip_job_id;
        num_midstates = 1;
        starting_nonce = 0;
        nbits = task.template.bits;
        ntime = task.ntime;
        merkle_root = root;
        prev_block_hash = task.template.prev_blockhash;
        version = task.template.version.base;
      })

  -- The task with its time rolled, the tracker, and the job that is sent if there is one.
  unfoldable pub roll_ntime :
      HashTask → ChipJobTracker HashTask → HashTask × ChipJobTracker HashTask × Option JobFullFormat
  unfolding insert sent task_to_job_full
  roll_ntime current chip_jobs =
      let task = record current { ntime = (current.ntime + 1) % 2 ^ 32 } in
      let (tracker, id) = insert task chip_jobs in (task, tracker, sent (task_to_job_full task id))

  module _ (block_hash : BlockHeader → ℕ) (to_work : ℕ → ℕ) where
    unfoldable pub nonce_header : HashTask → List ℕ → NonceResponse → BlockHeader
    unfolding apply_to_version
    nonce_header task root response = record {
      version =
          apply_to_version (record { high = response.version.0; low = response.version.1 })
            task.template.version.base;
      prev_blockhash = task.template.prev_blockhash;
      merkle_root = root;
      time = task.ntime;
      bits = task.template.bits;
      nonce = response.nonce;
    }

    unfoldable pub share_of : ℕ → HashTask → NonceResponse → BlockHeader → Option (HashTask × Share)
    unfolding is_met_by
    share_of asic_work task response header =
        if is_met_by task.share_target (block_hash header)
        then some (
          task,
          record {
            nonce = response.nonce;
            hash = block_hash header;
            version = header.version;
            ntime = task.ntime;
            extranonce = task.extranonce;
            expected_work = max asic_work (to_work task.share_target);
          },
        )
        else none

    unfoldable pub handle_task_nonce :
        ℕ → HashTask → Option (List ℕ) → NonceResponse → Option (HashTask × Share)
    unfolding nonce_header share_of
    handle_task_nonce asic_work task none response = none
    handle_task_nonce asic_work task (some root) response =
        share_of asic_work task response (nonce_header task root response)

    unfoldable pub handle_nonce :
        ℕ → ChipJobTracker HashTask → NonceResponse → Option (HashTask × Share)
    unfolding get root_if compute_merkle_root handle_task_nonce
    handle_nonce asic_work chip_jobs response = elim (get chip_jobs response.job_id) [
      | none ↦ none
      | some task ↦
          handle_task_nonce asic_work task
            (root_if (compute_merkle_root txid sha256d task.template) task.extranonce) response
    ]
