-- ===== src/Scheduler/State.antt =====
-- mujina-miner/src/scheduler.rs: the state of the scheduler and its small operations. What they send
-- to a thread, to a source, or to the API is a list of effects, in the order of sending. Floating
-- point is a parameter: the target of a share rate, the time to a share, and the displayed
-- difficulty. A method takes one reading of the clock. Telemetry has no boards, since the scheduler leaves
-- them empty. Logging is left out.
use mujina.Common.{
  ℕ, ◌-◌, ◌*◌, ◌/◌, ◌^◌, Bool, false, not, List, [], ◌∷◌, Option, none, some, ltb, leb,
  if◌then◌else◌, map,
}
use mujina.Alarm
use mujina.Alarm.{DebouncedAlarm}
use mujina.Estimator.{HashrateEstimator, hashrate_at, is_zero, sum}
use mujina.Job.{JobTemplate, HashTask, SourceCommand, update_hash_rate}
use mujina.Scheduler.Slots.{SlotMap, empty, retain, keep, contains, keys, values, each}
use mujina.Scheduler.Panic.{◌>>=◌}
use mujina.Scheduler.Gate
use mujina.Scheduler.Gate.{StartupGate}

pub record TaskEntry : Type 0 where
  pub source_id : ℕ
  pub template : JobTemplate
  pub thread_id : ℕ

pub record SourceEntry : Type 0 where
  pub name : List ℕ
  pub url : Option (List ℕ)
  pub last_job : Option JobTemplate
  pub difficulty_alarm : DebouncedAlarm

pub data AssignMode : Type 0 where
  update : AssignMode
  replace : AssignMode

pub record ThreadEntry : Type 0 where
  pub hashrate : HashrateEstimator
  pub expected : Option ℕ

pub record MiningStats : Type 0 where
  pub start_time : ℕ
  pub shares_submitted : ℕ

pub record Scheduler : Type 0 where
  pub sources : SlotMap SourceEntry
  pub threads : SlotMap ThreadEntry
  pub tasks : SlotMap TaskEntry
  pub stats : MiningStats
  pub last_thread_count : ℕ
  pub startup_gate : StartupGate
  pub paused : Bool

pub record SourceTelemetry : Type 0 where
  pub name : List ℕ
  pub url : Option (List ℕ)
  pub difficulty : Option ℕ

pub record MinerTelemetry : Type 0 where
  pub uptime_secs : ℕ
  pub hashrate : ℕ
  pub shares_submitted : ℕ
  pub paused : Bool
  pub sources : List SourceTelemetry

pub data Effect : Type 0 where
  configure : ℕ → Effect
  update_task : ℕ → HashTask → Effect
  replace_task : ℕ → HashTask → Effect
  command : ℕ → SourceCommand → Effect
  telemetry : MinerTelemetry → Effect
  reply : Effect

-- `to_target` of a share rate with the given interval at a hash rate, in nanoseconds and hashes per
-- second; `expected_time_to_share_from_target`, with `none` where `Duration::from_secs_f64` panics; and
-- the difficulty that telemetry shows.
pub record Rates : Type 0 where
  pub to_target : ℕ → ℕ → ℕ
  pub time_to_share : ℕ → ℕ → Option ℕ
  pub shown_difficulty : ℕ → ℕ

abbrev pub hashrate_window : ℕ
hashrate_window = 5 * 60 * 10 ^ 9

abbrev pub startup_gate_timeout : ℕ
startup_gate_timeout = 10 * 10 ^ 9

abbrev pub measurement_interval : ℕ
measurement_interval = 10 ^ 9

abbrev pub flood_cap_interval : ℕ
flood_cap_interval = 10 ^ 8

abbrev pub high_difficulty_threshold : ℕ
high_difficulty_threshold = 300 * 10 ^ 9

abbrev pub high_difficulty_debounce : ℕ
high_difficulty_debounce = 30 * 10 ^ 9

unfoldable pub new : ℕ → Scheduler
unfolding Gate.new empty
new now = record {
  sources = empty;
  threads = empty;
  tasks = empty;
  stats = record { start_time = now; shares_submitted = 0 };
  last_thread_count = 0;
  startup_gate = Gate.new;
  paused = false;
}

unfoldable pub estimated : ℕ → ThreadEntry → ThreadEntry
unfolding hashrate_at
estimated now entry = record entry { hashrate = (hashrate_at entry.hashrate now).0 }

-- The scheduler with the estimators pruned, and the sum of their rates.
unfoldable pub measured_hashrate : Scheduler → ℕ → Scheduler × ℕ
unfolding hashrate_at estimated each values sum
measured_hashrate s now = (
  record s { threads = each (estimated now) s.threads },
  sum (map (λ entry. (hashrate_at entry.hashrate now).1) (values s.threads)),
)

-- `filter_map(|entry| entry.expected)`.
unfoldable pub expected_rates : List ThreadEntry → List ℕ
expected_rates [] = []
expected_rates (entry ∷ rest) = elim entry.expected [
  | none ↦ expected_rates rest
  | some rate ↦ rate ∷ expected_rates rest
]

unfoldable pub expected_hashrate : Scheduler → ℕ
unfolding expected_rates values sum
expected_hashrate s = sum (expected_rates (values s.threads))

unfoldable pub allocated_hashrate : Scheduler → ℕ → ℕ
unfolding expected_hashrate
allocated_hashrate s source_id = expected_hashrate s

unfoldable pub eligible_of : List (ℕ × ThreadEntry) → List ℕ
eligible_of [] = []
eligible_of ((id, entry) ∷ rest) = elim entry.expected [
  | none ↦ eligible_of rest
  | some rate ↦ id ∷ eligible_of rest
]

unfoldable pub eligible_thread_ids : Scheduler → List ℕ
unfolding eligible_of
eligible_thread_ids s = eligible_of s.threads.entries

unfoldable pub source_telemetry : Rates → SourceEntry → SourceTelemetry
source_telemetry rates source = record {
  name = source.name;
  url = source.url;
  difficulty = elim source.last_job [
    | none ↦ none
    | some job ↦ some (rates.shown_difficulty job.share_target)
  ];
}

unfoldable pub compute_miner_telemetry : Rates → Scheduler → ℕ → Scheduler × MinerTelemetry
unfolding measured_hashrate source_telemetry values
compute_miner_telemetry rates s now =
    let (next, rate) = measured_hashrate s now in
    (
      next,
      record {
        uptime_secs = (now - s.stats.start_time) / 10 ^ 9;
        hashrate = rate;
        shares_submitted = s.stats.shares_submitted;
        paused = s.paused;
        sources = map (source_telemetry rates) (values s.sources);
      },
    )

-- `Ord::clamp`, which panics if the bounds are the wrong way round.
unfoldable pub clamp : ℕ → ℕ → ℕ → Option ℕ
clamp x lo hi =
    if leb lo hi then some (if ltb x lo then lo else if ltb hi x then hi else x) else none

unfoldable pub compute_scheduler_target : Rates → ℕ → ℕ → Option ℕ
unfolding clamp is_zero
compute_scheduler_target rates hashrate source_target =
    if is_zero hashrate
    then some source_target
    else clamp source_target (rates.to_target measurement_interval hashrate)
        (rates.to_target flood_cap_interval hashrate)

unfoldable pub is_difficulty_too_high : Rates → JobTemplate → ℕ → Option Bool
unfolding is_zero
is_difficulty_too_high rates job hashrate =
    if is_zero hashrate
    then some false
    else rates.time_to_share job.share_target hashrate >>= λ time_to_share.
        some (ltb high_difficulty_threshold time_to_share)

unfoldable pub alarm_reset : SourceEntry → SourceEntry
unfolding Alarm.reset
alarm_reset source = record source { difficulty_alarm = Alarm.reset source.difficulty_alarm }

unfoldable pub send_hashrate_updates : List (ℕ × ℕ) → List Effect
send_hashrate_updates [] = []
send_hashrate_updates ((source_id, rate) ∷ rest) =
    command source_id (update_hash_rate rate) ∷ send_hashrate_updates rest

unfoldable pub collect_hashrate_updates : Scheduler → List (ℕ × ℕ)
unfolding allocated_hashrate keys
collect_hashrate_updates s = map (λ id. (id, allocated_hashrate s id)) (keys s.sources)

unfoldable pub broadcast_hashrate_change : Scheduler → Scheduler × List Effect
unfolding alarm_reset each send_hashrate_updates collect_hashrate_updates
broadcast_hashrate_change s =
    let next = record s { sources = each alarm_reset s.sources } in
    (next, send_hashrate_updates (collect_hashrate_updates next))

-- The share channels are the keys of the tasks whose channel is open.
unfoldable pub remove_tasks_where : (TaskEntry → Bool) → Scheduler → List ℕ → Scheduler × List ℕ
unfolding retain keys keep contains
remove_tasks_where predicate s share_channels =
    let removed = keys (retain (λ id entry. predicate entry) s.tasks) in
    (
      record s { tasks = retain (λ id entry. not (predicate entry)) s.tasks },
      keep (λ id. not (contains removed id)) share_channels,
    )
