-- ===== src/Estimator/History.antt =====
-- mujina-miner/src/types/hashrate_estimator.rs: an estimator over any sequence of its calls.
use mujina.Common.{
  ℕ, suc, ◌+◌, ◌-◌, ◌%◌, ◌^◌, ◌≤◌, ◌<◌, ◌≡◌, refl, ap, subst, arith, List, [], ◌∷◌, ◌++◌, leb, ltb,
  length, Bool-cases, inl, inr, All, append_assoc, append-nil,
}
use mujina.Estimator.{
  HashrateEstimator, with_limits, sub_assign, prune, prune_before, enforce, cutoff_of, record_at,
  rate_since, hashrate_at,
}
use mujina.Estimator.Samples.{Ordered, work_of, since, newest, work_of-append, drop_nil}
use mujina.Estimator.Window.{Keeps, record_at-Keeps, prune_before-Keeps}

-- The calls that change an estimator, with the times they read from the clock.
pub data Call : Type 0 where
  recorded : ℕ → ℕ → Call
  asked : ℕ → Call

unfoldable pub time_of : Call → ℕ
time_of (recorded at work) = at
time_of (asked now) = now

unfoldable pub run : HashrateEstimator → List Call → HashrateEstimator
unfolding record_at hashrate_at
run est [] = est
run est (recorded at work ∷ rest) = run (record_at est at work) rest
run est (asked now ∷ rest) = run (hashrate_at est now).0 rest

-- The shares of the calls that record one.
unfoldable pub shares_of : List Call → List (ℕ × ℕ)
shares_of [] = []
shares_of (recorded at work ∷ rest) = (at, work) ∷ shares_of rest
shares_of (asked now ∷ rest) = shares_of rest

-- The clock does not run backwards: the calls stand in the order of their times, from `t` on.
unfoldable pub InOrder : ℕ → List Call → Type 0
InOrder t [] = Unit {0}
InOrder t (call ∷ rest) = (t ≤ time_of call) × InOrder (time_of call) rest

Ordered-snoc :
    (xs : List (ℕ × ℕ)) (t at work : ℕ)
    → Ordered xs
    → All (λ s. s.0 ≤ t) xs
    → t ≤ at
    → Ordered (xs ++ (at, work) ∷ [])
unfolding Ordered
Ordered-snoc [] t at work ord all le = (tt, tt)
Ordered-snoc ((u, w) ∷ xs) t at work (first, ord) (h, all) le =
    (later u xs first (omega arith), Ordered-snoc xs t at work ord all le)
  where
    later :
        (u : ℕ) (xs : List (ℕ × ℕ))
        → All (λ s. u ≤ s.0) xs
        → u ≤ at
        → All (λ s. u ≤ s.0) (xs ++ (at, work) ∷ [])
    later u [] all le = (le, tt)
    later u ((v, w) ∷ xs) (h, all) le = (h, later u xs all le)

All-snoc :
    (xs : List (ℕ × ℕ)) (t at work : ℕ)
    → All (λ s. s.0 ≤ t) xs
    → t ≤ at
    → All (λ s. s.0 ≤ at) (xs ++ (at, work) ∷ [])
All-snoc [] t at work all le = (omega arith, tt)
All-snoc ((u, w) ∷ xs) t at work (h, all) le = (omega arith, All-snoc xs t at work all le)

All-later :
    (xs : List (ℕ × ℕ)) (t now : ℕ) → t ≤ now → All (λ s. s.0 ≤ t) xs → All (λ s. s.0 ≤ now) xs
All-later [] t now le all = tt
All-later ((u, w) ∷ xs) t now le (h, all) = (omega arith, All-later xs t now le all)

-- What holds after calls up to the time `t` with these shares.
record Knows (window max_samples t : ℕ) (shares : List (ℕ × ℕ)) (est : HashrateEstimator)
    : Type 0 where
  same_window : est.window ≡ window
  same_max : est.max_samples ≡ max_samples
  ordered : Ordered shares
  past : All (λ s. s.0 ≤ t) shares
  reached : window ≤ t
  keeps : Keeps est (t - window) shares

recorded_Knows :
    (window max_samples t at work : ℕ) (shares : List (ℕ × ℕ)) (est : HashrateEstimator)
    → t ≤ at
    → work_of (shares ++ (at, work) ∷ []) < 2 ^ 256
    → Knows window max_samples t shares est
    → Knows window max_samples at (shares ++ (at, work) ∷ []) (record_at est at work)
unfolding record_at prune_before work_of
recorded_Knows window max_samples t at work shares est le lt k =
    let ordered = Ordered-snoc shares t at work k.ordered k.past le in
    let sum = work_of-append shares ((at, work) ∷ []) in
    let same = k.same_window in
    let reached = k.reached in
    record {
      same_window = k.same_window;
      same_max = k.same_max;
      ordered = ordered;
      past = All-snoc shares t at work k.past le;
      reached = omega arith;
      keeps =
          subst (λ w. Keeps (record_at est at work) (at - w) (shares ++ (at, work) ∷ [])) same
            (record_at-Keeps est (t - window) at work shares k.ordered ordered lt (omega arith)
              (omega arith) (omega arith) k.keeps);
    }

pruned_Knows :
    (window max_samples t now : ℕ) (shares : List (ℕ × ℕ)) (est : HashrateEstimator)
    → t ≤ now
    → work_of shares < 2 ^ 256
    → Knows window max_samples t shares est
    → Knows window max_samples now shares (prune_before est (now - window))
unfolding prune_before
pruned_Knows window max_samples t now shares est le lt k =
    let reached = k.reached in
    record {
      same_window = k.same_window;
      same_max = k.same_max;
      ordered = k.ordered;
      past = All-later shares t now le k.past;
      reached = omega arith;
      keeps =
          prune_before-Keeps est (t - window) (now - window) shares k.ordered lt (omega arith)
            k.keeps;
    }

-- Asked for the rate, an estimator is pruned to the window.
asked_prunes :
    (window max_samples t now : ℕ) (shares : List (ℕ × ℕ)) (est : HashrateEstimator)
    → t ≤ now
    → Knows window max_samples t shares est
    → cutoff_of est.window now ≡ now - window
unfolding cutoff_of
asked_prunes window max_samples t now shares est le k =
    let same = k.same_window in let reached = k.reached in ground arith

asked_Knows :
    (window max_samples t now : ℕ) (shares : List (ℕ × ℕ)) (est : HashrateEstimator)
    → t ≤ now
    → work_of shares < 2 ^ 256
    → Knows window max_samples t shares est
    → Knows window max_samples now shares (hashrate_at est now).0
unfolding hashrate_at
asked_Knows window max_samples t now shares est le lt k =
    rw (asked_prunes window max_samples t now shares est le k)
      (pruned_Knows window max_samples t now shares est le lt k)

-- The latest time of calls from `t` on.
unfoldable pub latest : ℕ → List Call → ℕ
latest t [] = t
latest t (call ∷ rest) = latest (time_of call) rest

run-Knows :
    (window max_samples t : ℕ) (shares : List (ℕ × ℕ)) (calls : List Call) (est : HashrateEstimator)
    → InOrder t calls
    → work_of (shares ++ shares_of calls) < 2 ^ 256
    → Knows window max_samples t shares est
    → Knows window max_samples (latest t calls) (shares ++ shares_of calls) (run est calls)
unfolding run shares_of InOrder latest time_of
run-Knows window max_samples t shares [] est ord lt k = rw append-nil k
run-Knows window max_samples t shares (recorded at work ∷ rest) est (le, ord) lt k =
    let same = append_assoc shares ((at, work) ∷ []) (shares_of rest) in
    let all = work_of-append (shares ++ (at, work) ∷ []) (shares_of rest) in
    let split : work_of ((shares ++ (at, work) ∷ []) ++ shares_of rest) < 2 ^ 256 = rw same lt in
    subst (λ s. Knows window max_samples (latest at rest) s (run (record_at est at work) rest)) same
      (run-Knows window max_samples at (shares ++ (at, work) ∷ []) rest (record_at est at work) ord
        split (recorded_Knows window max_samples t at work shares est le (omega arith) k))
run-Knows window max_samples t shares (asked now ∷ rest) est (le, ord) lt k =
    let all = work_of-append shares (shares_of rest) in
    run-Knows window max_samples now shares rest (hashrate_at est now).0 ord lt
      (asked_Knows window max_samples t now shares est le (omega arith) k)

new_Knows :
    (window min_samples max_samples t : ℕ)
    → window ≤ t
    → Knows window max_samples t [] (with_limits window min_samples max_samples)
unfolding with_limits Ordered newest since work_of
new_Knows window min_samples max_samples t le = record {
  same_window = refl;
  same_max = refl;
  ordered = tt;
  past = tt;
  reached = le;
  keeps = record { keeps_samples = nothing; keeps_total = ap work_of nothing };
}
  where
    nothing : [] ≡ since (t - window) (newest max_samples [])
    nothing = rw drop_nil refl

-- Asked for the rate, an estimator gives that of the samples which the calls say it keeps.
pub run-rate_since :
    (window min_samples max_samples start now : ℕ) (calls : List Call)
    → window ≤ start
    → InOrder start calls
    → latest start calls ≤ now
    → work_of (shares_of calls) < 2 ^ 256
    → let kept = since (now - window) (newest max_samples (shares_of calls)) in
      (hashrate_at (run (with_limits window min_samples max_samples) calls) now).1
      ≡ rate_since kept (work_of kept) now
unfolding hashrate_at
run-rate_since window min_samples max_samples start now calls reached ord le lt =
    let est = run (with_limits window min_samples max_samples) calls in
    let known =
      run-Knows window max_samples start [] calls (with_limits window min_samples max_samples) ord
        lt (new_Knows window min_samples max_samples start reached) in
    let after =
      pruned_Knows window max_samples (latest start calls) now (shares_of calls) est le lt known in
    rw
      (
        asked_prunes window max_samples (latest start calls) now (shares_of calls) est le known,
        after.keeps.keeps_samples,
        after.keeps.keeps_total,
        after.same_max,
      )
      refl

latest-le : (t : ℕ) (calls : List Call) → InOrder t calls → t ≤ latest t calls
unfolding InOrder latest
latest-le t [] ord = omega arith
latest-le t (call ∷ rest) (first, ord) =
    let later = latest-le (time_of call) rest ord in omega arith

-- The shares are not later than the last call.
pub run-past :
    (t now : ℕ) (calls : List Call)
    → InOrder t calls
    → latest t calls ≤ now
    → All (λ s. s.0 ≤ now) (shares_of calls)
unfolding InOrder latest shares_of time_of
run-past t now [] ord le = tt
run-past t now (recorded at work ∷ rest) (first, ord) le =
    (let later = latest-le at rest ord in omega arith, run-past at now rest ord le)
run-past t now (asked at ∷ rest) (first, ord) le = run-past at now rest ord le

-- Samples no more than there is room for, and a work in 256 bits.
Fits : ℕ → ℕ → HashrateEstimator → Type 0
Fits window n est =
    (est.window ≡ window)
    × (est.max_samples ≡ n)
    × (length est.samples ≤ n)
    × (est.total_work < 2 ^ 256)

sub_assign-lt : (a b : ℕ) → sub_assign a b < 2 ^ 256
unfolding sub_assign
sub_assign-lt a b = omega arith

length-prune :
    (c : ℕ) (xs : List (ℕ × ℕ)) (total : ℕ)
    → total < 2 ^ 256
    → (length (prune c xs total).0 ≤ length xs) × ((prune c xs total).1 < 2 ^ 256)
unfolding prune
length-prune c [] total lt = (omega arith, lt)
length-prune c ((t, w) ∷ xs) total lt =
    let (short, small) = length-prune c xs (sub_assign total w) (sub_assign-lt total w) in
    elim (Bool-cases (leb c t)) [
      | inl h ↦ rw h (omega arith, lt)
      | inr h ↦ rw h (omega arith, small)
    ]

length-enforce :
    (n : ℕ) (xs : List (ℕ × ℕ)) (total : ℕ)
    → total < 2 ^ 256
    → (length (enforce n xs total).0 ≤ n) × ((enforce n xs total).1 < 2 ^ 256)
unfolding enforce
length-enforce n [] total lt = (omega arith, lt)
length-enforce n ((t, w) ∷ xs) total lt = elim (Bool-cases (ltb n (suc (length xs)))) [
  | inl h ↦ rw h (length-enforce n xs (sub_assign total w) (sub_assign-lt total w))
  | inr h ↦ rw h (ground arith, lt)
]

prune_before-Fits :
    (window n c : ℕ) (est : HashrateEstimator)
    → Fits window n est
    → Fits window n (prune_before est c)
unfolding prune_before Fits
prune_before-Fits window n c est (same, max, short, small) =
    let (shorter, smaller) = length-prune c est.samples est.total_work small in
    (same, max, omega arith, smaller)

record_at-Fits :
    (window n at work : ℕ) (est : HashrateEstimator)
    → Fits window n est
    → Fits window n (record_at est at work)
unfolding record_at Fits
record_at-Fits window n at work est fits =
    let (same, max, short, small) = prune_before-Fits window n (cutoff_of est.window at) est fits in
    let pruned = prune_before est (cutoff_of est.window at) in
    let (shorter, smaller) =
      length-enforce pruned.max_samples (pruned.samples ++ (at, work) ∷ [])
        ((pruned.total_work + work) % 2 ^ 256) (omega arith) in
    (same, max, omega arith, smaller)

run-Fits :
    (window n : ℕ) (calls : List Call) (est : HashrateEstimator)
    → Fits window n est
    → Fits window n (run est calls)
unfolding run hashrate_at
run-Fits window n [] est fits = fits
run-Fits window n (recorded at work ∷ rest) est fits =
    run-Fits window n rest (record_at est at work) (record_at-Fits window n at work est fits)
run-Fits window n (asked now ∷ rest) est fits =
    run-Fits window n rest (prune_before est (cutoff_of est.window now))
      (prune_before-Fits window n (cutoff_of est.window now) est fits)

-- After any calls of a new estimator, whatever their times and works, it has no more samples than
-- its limit, and its total work is a number of 256 bits.
pub run-bounds :
    (window min_samples max_samples : ℕ) (calls : List Call)
    → let est = run (with_limits window min_samples max_samples) calls in
      (length est.samples ≤ max_samples) × (est.total_work < 2 ^ 256)
unfolding with_limits Fits
run-bounds window min_samples max_samples calls =
    let (same, max, short, small) =
      run-Fits window max_samples calls (with_limits window min_samples max_samples)
        (refl, refl, omega arith, omega arith) in
    (short, small)
