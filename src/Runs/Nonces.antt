-- ===== src/Runs/Nonces.antt =====
-- Nonces of the jobs of a hash thread, of mujina-miner/src/asic/bm13xx/thread.rs.
use mujina.Common.{ℕ, ◌+◌, ◌≡◌, refl, List, [], ◌∷◌, Option, none, some, ok}
use mujina.Version.{apply_to_version}
use mujina.Job.{MerkleRootTemplate, HashTask, fixed, computed}
use mujina.Bm13xx.Command.{JobFullFormat}
use mujina.Bm13xx.Response.{NonceResponse}
use mujina.Bm13xx.JobTracker.History.{Call, after, latest}
use mujina.Bm13xx.Nonces.{BlockHeader, share_of, handle_nonce, task_to_job_full}
use mujina.Bm13xx.Nonces.Shares.{job_header, handle_nonce-fixed}

abbrev txid : List ℕ → Option (List ℕ)
txid coinbase = some coinbase

abbrev sha256d : List ℕ → List ℕ
sha256d input = input

abbrev block_hash : BlockHeader → ℕ
block_hash header = header.nonce + header.time

abbrev to_work : ℕ → ℕ
to_work target = target

abbrev merkle : MerkleRootTemplate
merkle = record {
  coinbase_prefix = 1 ∷ [];
  extranonce_prefix = [];
  extranonce_range = record { first = 0; last = 9; width = 1 };
  coinbase_suffix = 2 ∷ [];
  merkle_branches = (8 ∷ []) ∷ [];
}

abbrev task : HashTask
task = record {
  template = record {
    id = 65 ∷ [];
    prev_blockhash = [];
    version = record { base = 0x2000_0000; gp_bits_mask = record { high = 0; low = 0 } };
    bits = 0;
    share_target = 1000;
    time = 17;
    merkle_root = computed merkle;
  };
  extranonce_range = none;
  extranonce = some (record { counter = 5; width = 1 });
  share_target = 1000;
  ntime = 17;
}

abbrev headers_only : HashTask
headers_only = record task { template = record task.template { merkle_root = fixed (6 ∷ []) } }

abbrev reported : NonceResponse
reported = record {
  nonce = 40;
  job_id = 1;
  excess_difficulty = 0;
  version = (0, 0);
  subcore_id = 0;
}

abbrev calls : List (Call HashTask)
calls = Call.inserted task ∷ []

abbrev rolled : HashTask
rolled = record task { ntime = 18 }

abbrev job : JobFullFormat
job = record {
  job_id = 1;
  num_midstates = 1;
  starting_nonce = 0;
  nbits = 0;
  ntime = 18;
  merkle_root = 1 ∷ 5 ∷ 2 ∷ 8 ∷ [];
  prev_block_hash = [];
  version = 0x2000_0000;
}

one_share :
    share_of txid sha256d block_hash to_work 500 rolled reported (job_header job reported)
    ≡ some (
      rolled,
      record {
        nonce = 40;
        hash = 58;
        version = 0x2000_0000;
        ntime = 18;
        extranonce = some (record { counter = 5; width = 1 });
        expected_work = 1000;
      },
    )
unfolding share_of job_header apply_to_version
one_share = refl

handle_nonce-fixed_example :
    ((made : JobFullFormat) × (task_to_job_full txid sha256d headers_only 1 ≡ ok made)
      × (made.merkle_root ≡ 6 ∷ []))
    × (handle_nonce txid sha256d block_hash to_work 500
          (after (Call.inserted headers_only ∷ calls))
          reported
        ≡ none)
unfolding latest
handle_nonce-fixed_example =
    handle_nonce-fixed txid sha256d block_hash to_work 500 (Call.inserted headers_only ∷ calls)
      headers_only (6 ∷ []) reported refl refl
