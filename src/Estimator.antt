-- ===== src/Estimator.antt =====
-- mujina-miner/src/types/hashrate_estimator.rs and the operations on rates of
-- mujina-miner/src/types/hash_rate.rs that are not floating point. An `Instant` and a `Duration` are
-- numbers of nanoseconds, an instant since the first one that the clock has; methods that read the
-- clock take what they read as an argument. A `U256` is a number with its wrap-around written out.
pub mod Samples
pub mod Window
pub mod History
pub mod Rate
use mujina.Common.{
  ℕ, ◌+◌, ◌-◌, ◌*◌, ◌/◌, ◌%◌, ◌^◌, min, Bool, true, false, not, List, [], ◌∷◌, ◌++◌, Option, none,
  some, ltb, leb, ◌==◌, if◌then◌else◌, length,
}

pub record HashrateEstimator : Type 0 where
  pub window : ℕ
  pub min_samples : ℕ
  pub max_samples : ℕ
  pub samples : List (ℕ × ℕ)
  pub total_work : ℕ

unfoldable pub with_limits : ℕ → ℕ → ℕ → HashrateEstimator
with_limits window min_samples max_samples = record {
  window = window;
  min_samples = min_samples;
  max_samples = max_samples;
  samples = [];
  total_work = 0;
}

-- `window.as_secs() as usize * 10`, of a 64-bit `usize`.
unfoldable pub new : ℕ → HashrateEstimator
unfolding with_limits
new window = with_limits window 5 (window / 10 ^ 9 * 10 % 2 ^ 64)

-- `a -= b` on `U256`.
unfoldable pub sub_assign : ℕ → ℕ → ℕ
sub_assign a b = (a + (2 ^ 256 - b)) % 2 ^ 256

-- The samples and the total work that `prune_before` leaves.
unfoldable pub prune : ℕ → List (ℕ × ℕ) → ℕ → List (ℕ × ℕ) × ℕ
unfolding sub_assign
prune cutoff [] total = ([], total)
prune cutoff ((t, work) ∷ rest) total =
    let pruned = prune cutoff rest (sub_assign total work) in
    if leb cutoff t then ((t, work) ∷ rest, total) else pruned

unfoldable pub prune_before : HashrateEstimator → ℕ → HashrateEstimator
unfolding prune
prune_before est cutoff =
    let (samples, total) = prune cutoff est.samples est.total_work in
    record est { samples = samples; total_work = total }

-- `while self.samples.len() > self.max_samples`.
unfoldable pub enforce : ℕ → List (ℕ × ℕ) → ℕ → List (ℕ × ℕ) × ℕ
unfolding sub_assign
enforce max_samples [] total = ([], total)
enforce max_samples ((t, work) ∷ rest) total =
    let enforced = enforce max_samples rest (sub_assign total work) in
    if ltb max_samples (length ((t, work) ∷ rest)) then enforced else ((t, work) ∷ rest, total)

-- `at.checked_sub(self.window).unwrap_or(at)`.
unfoldable pub cutoff_of : ℕ → ℕ → ℕ
cutoff_of window at = if leb window at then at - window else at

unfoldable pub record_at : HashrateEstimator → ℕ → ℕ → HashrateEstimator
unfolding prune_before enforce cutoff_of
record_at est at work =
    let pruned = prune_before est (cutoff_of est.window at) in
    let (samples, total) =
      enforce pruned.max_samples (pruned.samples ++ (at, work) ∷ [])
        ((pruned.total_work + work) % 2 ^ 256) in
    record pruned { samples = samples; total_work = total }

-- The rate over the time since the oldest sample; `duration_since` is 0 for a time before it.
unfoldable pub rate_since : List (ℕ × ℕ) → ℕ → ℕ → ℕ
rate_since [] total now = 0
rate_since ((oldest, work) ∷ rest) total now =
    let secs = (now - oldest) / 10 ^ 9 in if secs == 0 then 0 else min (total / secs) (2 ^ 64 - 1)

unfoldable pub hashrate_at : HashrateEstimator → ℕ → HashrateEstimator × ℕ
unfolding prune_before cutoff_of rate_since
hashrate_at est now =
    let pruned = prune_before est (cutoff_of est.window now) in
    (pruned, rate_since pruned.samples pruned.total_work now)

unfoldable pub has_samples : HashrateEstimator → Bool
has_samples est = elim est.samples [ [] ↦ false | _ ∷ _ ↦ true ]

unfoldable pub is_settled : HashrateEstimator → Bool
is_settled est = leb est.min_samples (length est.samples)

unfoldable pub settled_hashrate : HashrateEstimator → ℕ → HashrateEstimator × Option ℕ
unfolding is_settled hashrate_at
settled_hashrate est now =
    let (next, rate) = hashrate_at est now in
    if is_settled est then (next, some rate) else (est, none)

-- `HashRate`: `is_zero`, `+` and `sum` over an iterator.
unfoldable pub is_zero : ℕ → Bool
is_zero rate = rate == 0

unfoldable pub add : ℕ → ℕ → ℕ
add rate rhs = (rate + rhs) % 2 ^ 64

unfoldable pub sum_from : ℕ → List ℕ → ℕ
unfolding add
sum_from acc [] = acc
sum_from acc (x ∷ rest) = sum_from (add acc x) rest

unfoldable pub sum : List ℕ → ℕ
unfolding sum_from
sum rates = sum_from 0 rates
