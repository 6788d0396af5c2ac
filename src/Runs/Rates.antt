-- ===== src/Runs/Rates.antt =====
-- Runs of the estimator of mujina-miner/src/types/hashrate_estimator.rs and of the merkle roots of
-- mujina-miner/src/job_source/merkle.rs.
use mujina.Common.{
  ℕ, ◌^◌, ◌≤◌, ◌<◌, ◌≡◌, refl, arith, List, [], ◌∷◌, Option, none, some, length, ok,
}
use mujina.Extranonce.{Extranonce}
use mujina.Estimator.{with_limits, hashrate_at}
use mujina.Estimator.Samples.{since, newest, work_of}
use mujina.Estimator.History.{
  Call, recorded, asked, run, shares_of, latest, InOrder, time_of, run-bounds,
}
use mujina.Estimator.Rate.{IsRateOf, run-hashrate_at}
use mujina.Job.{MerkleRootTemplate, coinbase_bytes, template_merkle_root}
use mujina.Job.Merkle.{tree_root, branches_of, template_merkle_root-tree_root}

-- A window of ten seconds, and shares at eleven, twelve and thirteen of which two are kept.
abbrev calls : List Call
calls =
    recorded 11_000_000_000 500
    ∷ asked 11_500_000_000
    ∷ recorded 12_000_000_000 600
    ∷ recorded 13_000_000_000 700
    ∷ []

rate_of_two : (hashrate_at (run (with_limits 10_000_000_000 1 2) calls) 15_000_000_000).1 ≡ 433
unfolding hashrate_at run with_limits
rate_of_two = refl

run-hashrate_at_example :
    IsRateOf
      (since 5_000_000_000 (newest 2 (shares_of calls)))
      15_000_000_000
      (hashrate_at (run (with_limits 10_000_000_000 1 2) calls) 15_000_000_000).1
unfolding shares_of latest InOrder time_of work_of
run-hashrate_at_example =
    run-hashrate_at 10_000_000_000 1 2 10_000_000_000 15_000_000_000 calls (omega arith)
      (omega arith, (omega arith, (omega arith, (omega arith, tt)))) (omega arith) (omega arith)

run-bounds_example :
    (length (run (with_limits 10_000_000_000 1 2) calls).samples ≤ 2)
    × ((run (with_limits 10_000_000_000 1 2) calls).total_work < 2 ^ 256)
run-bounds_example = run-bounds 10_000_000_000 1 2 calls

-- A transaction's id is its first byte, and a hash is the number of its bytes.
first_byte : List ℕ → Option (List ℕ)
first_byte [] = none
first_byte (b ∷ rest) = some (b ∷ [])

count_bytes : List ℕ → List ℕ
count_bytes bytes = length bytes ∷ []

abbrev others : List (List ℕ)
others = (7 ∷ []) ∷ (8 ∷ 9 ∷ []) ∷ []

template : MerkleRootTemplate
unfolding branches_of
template = record {
  coinbase_prefix = 1 ∷ 2 ∷ [];
  extranonce_prefix = 3 ∷ [];
  extranonce_range = record { first = 0; last = 255; width = 1 };
  coinbase_suffix = 4 ∷ [];
  merkle_branches = branches_of count_bytes 2 others;
}

abbrev slot : Extranonce
slot = record { counter = 5; width = 1 }

template_merkle_root-tree_root_example :
    (root : List ℕ) × (tree_root count_bytes 2 ((1 ∷ []) ∷ others) ≡ some root)
    × (template_merkle_root first_byte count_bytes template slot ≡ ok root)
unfolding template coinbase_bytes first_byte
template_merkle_root-tree_root_example =
    template_merkle_root-tree_root first_byte count_bytes template slot 2 others (1 ∷ [])
      (omega arith) refl refl
