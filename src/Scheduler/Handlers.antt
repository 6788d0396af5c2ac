-- ===== src/Scheduler/Handlers.antt =====
-- mujina-miner/src/scheduler.rs: the handlers of the scheduler's events.
use mujina.Common.{
  ℕ, ◌+◌, ◌%◌, ◌^◌, Bool, true, false, not, List, [], ◌∷◌, ◌++◌, Option, none, some,
}
use mujina.Common.{◌==◌, if◌then◌else◌, length}
use mujina.Alarm
use mujina.Estimator
use mujina.Estimator.{record_at}
use mujina.Job.{
  Share, from_share, is_met_by, submit_share, HashThreadEvent, work_depletion_warning,
  work_exhausted, status_update, expected_hash_rate,
}
use mujina.Scheduler.Panic.{◌>>=◌}
use mujina.Scheduler.Slots.{insert, get, put, retain, contains}
use mujina.Scheduler.Gate.{is_holding, record_registered, record_reported}
use mujina.Scheduler.State.{
  Scheduler, SourceEntry, ThreadEntry, TaskEntry, Effect, configure, command, telemetry, reply,
  Rates, broadcast_hashrate_change, remove_tasks_where, compute_miner_telemetry, hashrate_window,
  high_difficulty_debounce,
}
use mujina.Scheduler.Assign.{Outcome, silent, and_then, change_source, assign_cached_jobs_to_thread}

-- The broadcast, as the last step of a handler.
unfoldable pub broadcasting : Scheduler → List ℕ → Outcome
unfolding broadcast_hashrate_change
broadcasting s share_channels =
    let (next, effects) = broadcast_hashrate_change s in
    record { scheduler = next; share_channels = share_channels; effects = effects }

unfoldable pub broadcast_unless_holding : Scheduler → List ℕ → Outcome
unfolding broadcasting silent is_holding
broadcast_unless_holding s share_channels =
    if not (is_holding s.startup_gate)
    then broadcasting s share_channels
    else silent s share_channels

-- The key of the new source is that of its event stream, too.
unfoldable pub handle_source_registration :
    List ℕ → Option (List ℕ) → Scheduler → List ℕ → List ℕ → Outcome × List ℕ
unfolding insert broadcast_unless_holding Alarm.new
handle_source_registration name url s share_channels source_events =
    let (sources, source_id) = insert s.sources (record {
      name = name;
      url = url;
      last_job = none;
      difficulty_alarm = Alarm.new high_difficulty_debounce;
    }) in
    (
      broadcast_unless_holding (record s { sources = sources }) share_channels,
      source_events ++ source_id ∷ [],
    )

unfoldable pub forget_job : SourceEntry → SourceEntry
forget_job source = record source { last_job = none }

unfoldable pub handle_clear_jobs : ℕ → Scheduler → List ℕ → Outcome
unfolding change_source forget_job remove_tasks_where silent
handle_clear_jobs source_id s share_channels =
    let (next, open_channels) =
      remove_tasks_where (λ e. e.source_id == source_id) (change_source forget_job source_id s)
        share_channels in
    silent next open_channels

-- `entry.hashrate.record(share.expected_work)`, if the thread is there.
unfoldable pub record_work : ℕ → ℕ → ℕ → Scheduler → Scheduler
unfolding get put record_at
record_work now thread_id work s = elim (get s.threads thread_id) [
  | none ↦ s
  | some entry ↦ record s {
    threads =
        put s.threads thread_id (record entry { hashrate = record_at entry.hashrate now work });
  }
]

unfoldable pub count_share : Scheduler → Scheduler
count_share s = record s {
  stats = record s.stats { shares_submitted = (s.stats.shares_submitted + 1) % 2 ^ 64 };
}

unfoldable pub submission : TaskEntry → Share → Scheduler → List Effect
unfolding get from_share
submission task share s = elim (get s.sources task.source_id) [
  | none ↦ []
  | some source ↦ command task.source_id (submit_share (from_share share task.template.id)) ∷ []
]

unfoldable pub handle_share : ℕ → ℕ → Share → Scheduler → List ℕ → Outcome
unfolding get record_work is_met_by count_share submission silent
handle_share now task_id share s share_channels = elim (get s.tasks task_id) [
  | none ↦ silent s share_channels
  | some task ↦
      let recorded = record_work now task.thread_id share.expected_work s in
      if is_met_by task.template.share_target share.hash
      then (let counted = count_share recorded in
          record {
            scheduler = counted;
            share_channels = share_channels;
            effects = submission task share counted;
          })
      else silent recorded share_channels
]

unfoldable pub report_counted : Bool → Scheduler → Scheduler
unfolding is_holding record_reported
report_counted false s = s
report_counted true s =
    if is_holding s.startup_gate
    then record s { startup_gate = record_reported s.startup_gate }
    else s

-- Whether this is a thread's first report.
unfoldable pub is_first : ThreadEntry → Bool
is_first entry = elim entry.expected [ none ↦ true | some rate ↦ false ]

module _ (rates : Rates) (now : ℕ) (accepts : ℕ → ℕ → Bool) where
  unfoldable pub assign_if_first : Bool → ℕ → Scheduler → List ℕ → Option Outcome
  unfolding assign_cached_jobs_to_thread silent
  assign_if_first false thread_id s share_channels = some (silent s share_channels)
  assign_if_first true thread_id s share_channels =
      assign_cached_jobs_to_thread rates now accepts thread_id s share_channels

  unfoldable pub after_report : Bool → Scheduler → List ℕ → Option Outcome
  unfolding report_counted broadcast_unless_holding
  after_report first_report s share_channels =
      some (broadcast_unless_holding (report_counted first_report s) share_channels)

  -- For a thread that is there.
  unfoldable pub handle_known_rate : ℕ → ℕ → ThreadEntry → Scheduler → List ℕ → Option Outcome
  unfolding put is_first assign_if_first and_then after_report
  handle_known_rate thread_id rate entry s share_channels = do
    let threads = put s.threads thread_id (record entry { expected = some rate })
    out ← assign_if_first (is_first entry) thread_id (record s { threads = threads }) share_channels
    and_then out (after_report (is_first entry))

  unfoldable pub handle_rate_of : ℕ → ℕ → Option ThreadEntry → Scheduler → List ℕ → Option Outcome
  unfolding handle_known_rate silent
  handle_rate_of thread_id rate none s share_channels = some (silent s share_channels)
  handle_rate_of thread_id rate (some entry) s share_channels =
      handle_known_rate thread_id rate entry s share_channels

  unfoldable pub handle_expected_rate : ℕ → ℕ → Scheduler → List ℕ → Option Outcome
  unfolding get handle_rate_of
  handle_expected_rate thread_id rate s share_channels =
      handle_rate_of thread_id rate (get s.threads thread_id) s share_channels

  unfoldable pub handle_thread_event : ℕ → HashThreadEvent → Scheduler → List ℕ → Option Outcome
  unfolding handle_expected_rate silent
  handle_thread_event thread_id (work_exhausted searched) s share_channels =
      some (silent s share_channels)
  handle_thread_event thread_id (work_depletion_warning remaining) s share_channels =
      some (silent s share_channels)
  handle_thread_event thread_id (status_update status) s share_channels =
      some (silent s share_channels)
  handle_thread_event thread_id (expected_hash_rate rate) s share_channels =
      handle_expected_rate thread_id rate s share_channels

-- The new thread is configured whatever the answer is; `has_receiver` says whether its event receiver
-- is there to take.
unfoldable pub handle_new_thread : Bool → Scheduler → List ℕ → List ℕ → Option (Outcome × List ℕ)
unfolding insert record_registered Estimator.new
handle_new_thread false s share_channels thread_events = none
handle_new_thread true s share_channels thread_events =
    let (threads, thread_id) =
      insert s.threads (record { hashrate = Estimator.new hashrate_window; expected = none }) in
    let events = thread_events ++ thread_id ∷ [] in
    some (
      record {
        scheduler = record s {
          threads = threads;
          startup_gate = record_registered s.startup_gate;
          last_thread_count = length events;
        };
        share_channels = share_channels;
        effects = configure thread_id ∷ [];
      },
      events,
    )

unfoldable pub drop_threads : List ℕ → Scheduler → Scheduler
unfolding retain contains
drop_threads active s = record s { threads = retain (λ id entry. contains active id) s.threads }

unfoldable pub handle_thread_disconnections : List ℕ → Scheduler → List ℕ → Outcome
unfolding drop_threads remove_tasks_where contains broadcasting silent
handle_thread_disconnections thread_events s share_channels =
    if length thread_events == s.last_thread_count
    then silent s share_channels
    else (let (left, open_channels) =
          remove_tasks_where (λ e. not (contains thread_events e.thread_id))
            (drop_threads thread_events s) share_channels in
        broadcasting (record left { last_thread_count = length thread_events }) open_channels)

pub data SchedulerCommand : Type 0 where
  pause_mining : SchedulerCommand
  resume_mining : SchedulerCommand

unfoldable pub set_paused : SchedulerCommand → Scheduler → Scheduler
set_paused pause_mining s = record s { paused = true }
set_paused resume_mining s = record s { paused = false }

unfoldable pub handle_api_command : Rates → ℕ → SchedulerCommand → Scheduler → List ℕ → Outcome
unfolding set_paused compute_miner_telemetry
handle_api_command rates now cmd s share_channels =
    let (next, sent) = compute_miner_telemetry rates (set_paused cmd s) now in
    record {
      scheduler = next;
      share_channels = share_channels;
      effects = telemetry sent ∷ reply ∷ [];
    }
