-- ===== src/Estimator/Rate.antt =====
-- mujina-miner/src/types/hashrate_estimator.rs: the rate that an estimator gives after any calls.
use mujina.Common.{
  ℕ, ◌+◌, ◌-◌, ◌*◌, ◌/◌, ◌^◌, ◌≤◌, ◌<◌, ◌≡◌, refl, sym, subst, arith, min, zero, suc, List, [], ◌∷◌,
  ◌==◌, leb, Bool-cases, ◌⊎◌, inl, inr, All, drop, length,
}
use native.Mathlib.Nat.{div-mul-le_self, div-lt_iff_lt-mul}
use mujina.Estimator.{with_limits, rate_since, hashrate_at}
use mujina.Estimator.Samples.{since, newest, work_of}
use mujina.Estimator.History.{Call, InOrder, latest, run, shares_of, run-rate_since, run-past}

-- The work in all over the whole seconds from the oldest sample to now, rounded down and at most
-- what 64 bits hold; 0 with no samples, and within a second of the oldest.
unfoldable pub IsRateOf : List (ℕ × ℕ) → ℕ → ℕ → Type 0
unfolding work_of
IsRateOf [] now rate = rate ≡ 0
IsRateOf ((oldest, work) ∷ rest) now rate =
    (secs : ℕ) × ((oldest + secs * 10 ^ 9 ≤ now) × (now < oldest + (secs + 1) * 10 ^ 9))
    × (((secs ≡ 0) × (rate ≡ 0))
        ⊎ ((0 < secs)
            × ((q : ℕ) × (q * secs ≤ work_of ((oldest, work) ∷ rest))
                × (work_of ((oldest, work) ∷ rest) < (q + 1) * secs)
                × (rate ≡ min q (2 ^ 64 - 1)))))

rate_since-IsRateOf :
    (kept : List (ℕ × ℕ)) (now : ℕ)
    → All (λ s. s.0 ≤ now) kept
    → IsRateOf kept now (rate_since kept (work_of kept) now)
unfolding IsRateOf rate_since
rate_since-IsRateOf [] now past = refl
rate_since-IsRateOf ((oldest, work) ∷ rest) now (le, past) =
    let secs = (now - oldest) / 10 ^ 9 in
    let total = work_of ((oldest, work) ∷ rest) in
    (
      secs,
      (omega arith, omega arith),
      elim (Bool-cases (secs == 0)) [
        | inl none_yet ↦ inl (ground arith, rw none_yet refl)
        | inr some_yet ↦
            let pos : 0 < secs = ground arith in
            inr (
              pos,
              (
                total / secs,
                div-mul-le_self total secs,
                (div-lt_iff_lt-mul pos).0 (omega arith),
                rw some_yet refl,
              ),
            )
      ],
    )

past-drop :
    (now n : ℕ) (xs : List (ℕ × ℕ)) → All (λ s. s.0 ≤ now) xs → All (λ s. s.0 ≤ now) (drop n xs)
past-drop now zero xs past = past
past-drop now (suc n) [] past = tt
past-drop now (suc n) (x ∷ xs) (le, past) = past-drop now n xs past

past-since :
    (now c : ℕ) (xs : List (ℕ × ℕ)) → All (λ s. s.0 ≤ now) xs → All (λ s. s.0 ≤ now) (since c xs)
unfolding since
past-since now c [] past = tt
past-since now c ((t, w) ∷ xs) (le, past) = elim (Bool-cases (leb c t)) [
  | inl h ↦ rw h (le, past-since now c xs past)
  | inr h ↦ rw h (past-since now c xs past)
]

-- Let a new estimator be used from a time on at which the clock has run for the length of the window
-- at least, in the order of the times of its calls, and let the work recorded fit in 256 bits. Of the
-- shares recorded, take those within the window before now among the newest `max_samples`. Asked for
-- the rate, the estimator gives their work in all over the whole seconds from the oldest of them to
-- now, rounded down and at most 2^64 - 1; it gives 0 if there are none of them, and while less than a
-- second has passed since the oldest.
pub run-hashrate_at :
    (window min_samples max_samples start now : ℕ) (calls : List Call)
    → window ≤ start
    → InOrder start calls
    → latest start calls ≤ now
    → work_of (shares_of calls) < 2 ^ 256
    → IsRateOf
        (since (now - window) (newest max_samples (shares_of calls)))
        now
        (hashrate_at (run (with_limits window min_samples max_samples) calls) now).1
unfolding newest
run-hashrate_at window min_samples max_samples start now calls reached ord le lt =
    let shares = shares_of calls in
    let kept = since (now - window) (newest max_samples shares) in
    let past =
      past-since now (now - window) (newest max_samples shares)
        (past-drop now (length shares - max_samples) shares (run-past start now calls ord le)) in
    subst (IsRateOf kept now)
      (sym (run-rate_since window min_samples max_samples start now calls reached ord le lt))
      (rate_since-IsRateOf kept now past)
