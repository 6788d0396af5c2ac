-- ===== src/Runs/Work.antt =====
-- Alarms of mujina-miner/src/types/debounced_alarm.rs and extranonce ranges of
-- mujina-miner/src/job_source/extranonce.rs.
use mujina.Common.{ℕ, ◌-◌, ◌≤◌, ◌≡◌, ◌⊎◌, refl, arith, List, [], ◌∷◌, Bool, true, false, some, none}
use mujina.Common.{length, get_elem?, take, drop, ltb, if◌then◌else◌}
use mujina.Alarm.{AlarmStatus, new, check}
use mujina.Alarm.Run.{run, held_since, alternates, run-alternates, check-triggered, check-reports}
use mujina.Extranonce.{ExtranonceRange, ExtranonceIter, split, next, nth, nth_back}
use mujina.Extranonce.Split.{SplitOk, split-SplitOk}
use mujina.Extranonce.Iterate.{left, give, IsIter, nth-left, nth_back-left}

abbrev checks : List (ℕ × Bool)
checks = (10, false) ∷ (20, true) ∷ (25, true) ∷ []

run-alternates_example : alternates false (run (new 5) checks).1 ≡ true
run-alternates_example = run-alternates 5 checks

triggers : (check (run (new 10) checks).0 30 true).1 ≡ AlarmStatus.triggered
unfolding check run new
triggers = refl

check-triggered_example :
    (t : ℕ) × (held_since none checks ≡ some t) × (true ≡ true) × (10 ≤ 30 - t)
check-triggered_example = check-triggered 10 checks 30 true triggers

held : held_since none checks ≡ some 20
unfolding held_since
held = refl

check-reports_example :
    ((check (run (new 10) checks).0 30 true).1 ≡ AlarmStatus.triggered)
    ⊎ ((check (run (new 10) checks).0 30 true).1 ≡ AlarmStatus.active)
check-reports_example = check-reports 10 checks 30 20 held (omega arith)

abbrev one_byte : ExtranonceRange
one_byte = record { first = 0; last = 255; width = 1 }

split-SplitOk_example : SplitOk one_byte 3 (split one_byte 3)
split-SplitOk_example =
    split-SplitOk one_byte 3 (record { ordered = omega arith; bounded = omega arith })

abbrev some_left : ExtranonceIter
some_left = record { next_counter = some 4; last = 9; width = 1 }

some_left-IsIter : IsIter some_left
unfolding IsIter
some_left-IsIter = (omega arith, omega arith)

nth-left_example :
    (left (nth some_left 2).0 ≡ drop 3 (left some_left))
    × ((nth some_left 2).1 ≡ give some_left (get_elem? (left some_left) 2))
    × (next some_left ≡ nth some_left 0)
nth-left_example = nth-left some_left 2 some_left-IsIter

nth_back-left_example :
    (left (nth_back some_left 2).0 ≡ take (length (left some_left) - 3) (left some_left))
    × ((nth_back some_left 2).1 ≡ (
        if ltb 2 (length (left some_left))
        then give some_left (get_elem? (left some_left) (length (left some_left) - 3))
        else none))
nth_back-left_example = nth_back-left some_left 2 some_left-IsIter
