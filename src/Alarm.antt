-- ===== src/Alarm.antt =====
-- mujina-miner/src/types/debounced_alarm.rs: an alarm that fires once a condition has held for the
-- debounce duration. An `Instant` and a `Duration` are numbers, and `check` takes the time it reads
-- from the clock as an argument.
pub mod Run
use mujina.Common.{ℕ, ◌-◌, Bool, true, false, leb, if◌then◌else◌}

pub data AlarmStatus : Type 0 where
  idle : AlarmStatus
  pending : AlarmStatus
  triggered : AlarmStatus
  active : AlarmStatus
  resolved : AlarmStatus

pub data State : Type 0 where
  idle : State
  timing : ℕ → State
  fired : State

pub record DebouncedAlarm : Type 0 where
  pub debounce : ℕ
  pub state : State

unfoldable pub new : ℕ → DebouncedAlarm
new debounce = record { debounce = debounce; state = State.idle }

-- The state that `check` leaves and the status it returns. `elapsed` is 0 for a start in the future.
unfoldable pub check_state : ℕ → State → ℕ → Bool → State × AlarmStatus
check_state debounce State.idle now false = (State.idle, AlarmStatus.idle)
check_state debounce State.idle now true = (State.timing now, AlarmStatus.pending)
check_state debounce (State.timing since) now false = (State.idle, AlarmStatus.idle)
check_state debounce (State.timing since) now true =
    if leb debounce (now - since)
    then (State.fired, AlarmStatus.triggered)
    else (State.timing since, AlarmStatus.pending)
check_state debounce State.fired now false = (State.idle, AlarmStatus.resolved)
check_state debounce State.fired now true = (State.fired, AlarmStatus.active)

unfoldable pub check : DebouncedAlarm → ℕ → Bool → DebouncedAlarm × AlarmStatus
unfolding check_state
check alarm now condition =
    let (state, status) = check_state alarm.debounce alarm.state now condition in
    (record alarm { state = state }, status)

unfoldable pub reset : DebouncedAlarm → DebouncedAlarm
reset alarm = record alarm { state = State.idle }
