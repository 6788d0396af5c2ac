-- ===== src/Bm13xx/Nonces/Shares.antt =====
-- mujina-miner/src/asic/bm13xx/thread.rs: the share of a nonce is one of the job that the chips had.
use mujina.Common.{ℕ, ◌≡◌, refl, ◌∙◌, List, [], ◌∷◌, Option, none, some, ok}
use mujina.Extranonce.{Extranonce}
use mujina.Version.{apply_to_version}
use mujina.Job.{JobTemplate, HashTask, fixed, compute_merkle_root}
use mujina.Bm13xx.Command.{JobFullFormat}
use mujina.Bm13xx.Response.{NonceResponse}
use mujina.Bm13xx.JobTracker.{ChipJobTracker, get}
use mujina.Bm13xx.JobTracker.History.{Call, after, latest, get-latest}
use mujina.Bm13xx.Nonces.{
  BlockHeader, root_if, task_merkle_root, task_to_job_full, handle_task_nonce, handle_nonce,
}

-- The header that the chips hash: that of the job, with the version bits and the nonce they report.
unfoldable pub job_header : JobFullFormat → NonceResponse → BlockHeader
job_header job response = record {
  version =
      apply_to_version (record { high = response.version.0; low = response.version.1 }) job.version;
  prev_blockhash = job.prev_block_hash;
  merkle_root = job.merkle_root;
  time = job.ntime;
  bits = job.nbits;
  nonce = response.nonce;
}

module _ (txid : List ℕ → Option (List ℕ)) (sha256d : List ℕ → List ℕ) where
  job_of : HashTask → ℕ → List ℕ → JobFullFormat
  job_of task id root = record {
    job_id = id;
    num_midstates = 1;
    starting_nonce = 0;
    nbits = task.template.bits;
    ntime = task.ntime;
    merkle_root = root;
    prev_block_hash = task.template.prev_blockhash;
    version = task.template.version.base;
  }

  module _ (block_hash : BlockHeader → ℕ) (to_work : ℕ → ℕ) (asic_work : ℕ) where
    no_task :
        (tracker : ChipJobTracker HashTask) (response : NonceResponse)
        → get tracker response.job_id ≡ none
        → handle_nonce txid sha256d block_hash to_work asic_work tracker response ≡ none
    unfolding handle_nonce
    no_task tracker response there = rw (handle_nonce, there) refl

-- The calls of the tracker when more tasks follow, the last one first.
unfoldable pub then_tasks : List HashTask → List (Call HashTask) → List (Call HashTask)
then_tasks [] calls = calls
then_tasks (task ∷ later) calls = Call.inserted task ∷ then_tasks later calls

-- A task whose time is rolled and that is sent, the tracker's calls and the tasks sent after it, and
-- a nonce of its job.
module _ (txid : List ℕ → Option (List ℕ)) (sha256d : List ℕ → List ℕ)
    (block_hash : BlockHeader → ℕ) (to_work : ℕ → ℕ) (asic_work : ℕ) where
  root_not_found :
      (template : JobTemplate) (extranonce : Option Extranonce) {root : List ℕ}
      → template.merkle_root ≡ fixed root
      → root_if (compute_merkle_root txid sha256d template) extranonce ≡ none
  unfolding root_if compute_merkle_root
  root_not_found template none k = refl
  root_not_found template (some extranonce) k = rw (root_if, compute_merkle_root, k) refl

  -- A task with a fixed merkle root makes a job with that root, under any id. After any calls of the
  -- tracker, a nonce of an id that stands for the task is no share, whatever its hash.
  pub handle_nonce-fixed :
      (calls : List (Call HashTask)) (task : HashTask) (root : List ℕ) (response : NonceResponse)
      → task.template.merkle_root ≡ fixed root
      → latest response.job_id calls ≡ some task
      → ((job : JobFullFormat) × (task_to_job_full txid sha256d task response.job_id ≡ ok job)
          × (job.merkle_root ≡ root))
        × (handle_nonce txid sha256d block_hash to_work asic_work (after calls) response ≡ none)
  unfolding task_to_job_full task_merkle_root handle_nonce handle_task_nonce job_of
  handle_nonce-fixed calls task root response k is =
      let there = (get-latest calls response.job_id task).0 ∙ is in
      let missing = root_not_found task.template task.extranonce k in
      (
        (
          job_of txid sha256d task response.job_id root,
          rw (task_to_job_full, k, task_merkle_root) refl,
          refl,
        ),
        rw (handle_nonce, there, missing) refl,
      )
