-- ===== src/Scheduler/Loop.antt =====
-- mujina-miner/src/scheduler.rs, `Scheduler::run`: one pass of the main loop as a step on the state of
-- the scheduler and of the streams it waits on. Which branch of the `select!` runs, and which streams
-- it finds at their end meanwhile and drops, is given as input, as the runtime decides it. The branch
-- for the shutdown ends the loop, so it is no step.
use mujina.Common.{ℕ, ◌+◌, Bool, true, false, not, List, [], ◌∷◌, ◌++◌, Option, none, some}
use mujina.Common.{if◌then◌else◌}
use mujina.Job.{Share, SourceEvent, update_job, replace_job, clear_jobs, HashThreadEvent}
use mujina.Scheduler.Panic.{◌>>=◌}
use mujina.Scheduler.Slots.{contains, keep}
use mujina.Scheduler.Gate.{is_holding, record_enumeration_complete, record_timeout}
use mujina.Scheduler.State
use mujina.Scheduler.State.{
  Scheduler, Effect, telemetry, Rates, AssignMode, update, replace, measured_hashrate,
  compute_miner_telemetry, startup_gate_timeout,
}
use mujina.Scheduler.Assign.{Outcome, assign_job_to_threads}
use mujina.Scheduler.Handlers.{
  broadcasting, handle_source_registration, handle_clear_jobs, handle_share, handle_thread_event,
  handle_new_thread, handle_thread_disconnections, handle_api_command, SchedulerCommand,
}

pub record Run : Type 0 where
  pub scheduler : Scheduler
  pub source_events : List ℕ
  pub thread_events : List ℕ
  pub share_channels : List ℕ
  pub gate_deadline : Option ℕ
  pub first_status_tick : Bool

unfoldable pub new : ℕ → Run
unfolding State.new
new now = record {
  scheduler = State.new now;
  source_events = [];
  thread_events = [];
  share_channels = [];
  gate_deadline = none;
  first_status_tick = true;
}

-- The branches of the `select!`. A new thread says whether its event receiver is there.
pub data Branch : Type 0 where
  source_registered : List ℕ → Option (List ℕ) → Branch
  source_event : ℕ → SourceEvent → Branch
  share : ℕ → Share → Branch
  thread_event : ℕ → HashThreadEvent → Branch
  thread_registered : Bool → Branch
  enumeration_completed : Branch
  gate_timed_out : Branch
  status_tick : Branch
  api_command : SchedulerCommand → Branch
  telemetry_tick : Branch

-- What the runtime decides of a pass: the time, the branch, the streams found at their end, and which
-- threads take the tasks offered to them.
pub record Pass : Type 0 where
  pub now : ℕ
  pub branch : Branch
  pub ended_sources : List ℕ
  pub ended_threads : List ℕ
  pub ended_shares : List ℕ
  pub accepts : ℕ → ℕ → Bool

-- The streams that are left when these have ended.
unfoldable pub without : List ℕ → List ℕ → List ℕ
unfolding keep contains
without ended streams = keep (λ key. not (contains ended key)) streams

unfoldable pub poll : Pass → Run → Run
unfolding without
poll pass run = record run {
  source_events = without pass.ended_sources run.source_events;
  thread_events = without pass.ended_threads run.thread_events;
  share_channels = without pass.ended_shares run.share_channels;
}

-- What a handler leaves, put back.
unfoldable pub leave : Run → Outcome → Run × List Effect
leave run out =
    (record run { scheduler = out.scheduler; share_channels = out.share_channels }, out.effects)

unfoldable pub leave_some : Run → Option Outcome → Option (Run × List Effect)
unfolding leave
leave_some run none = none
leave_some run (some out) = some (leave run out)

unfoldable pub on_source_event :
    Rates → Pass → ℕ → SourceEvent → Scheduler → List ℕ → Option Outcome
unfolding assign_job_to_threads handle_clear_jobs
on_source_event rates pass source_id (update_job template) s share_channels =
    assign_job_to_threads rates pass.now pass.accepts update source_id template s share_channels
on_source_event rates pass source_id (replace_job template) s share_channels =
    assign_job_to_threads rates pass.now pass.accepts replace source_id template s share_channels
on_source_event rates pass source_id clear_jobs s share_channels =
    some (handle_clear_jobs source_id s share_channels)

-- The gate after the signal, and its deadline if it still holds.
unfoldable pub on_enumeration_complete : ℕ → Run → Run × List Effect
unfolding record_enumeration_complete is_holding leave broadcasting
on_enumeration_complete now run =
    let s = record run.scheduler {
      startup_gate = record_enumeration_complete run.scheduler.startup_gate;
    } in
    if is_holding s.startup_gate
    then (record run { scheduler = s; gate_deadline = some (now + startup_gate_timeout) }, [])
    else leave run (broadcasting s run.share_channels)

unfoldable pub on_gate_timeout : Run → Run × List Effect
unfolding record_timeout leave broadcasting
on_gate_timeout run =
    let s = record run.scheduler { startup_gate = record_timeout run.scheduler.startup_gate } in
    leave (record run { gate_deadline = none }) (broadcasting s run.share_channels)

unfoldable pub on_status_tick : ℕ → Run → Run × List Effect
unfolding measured_hashrate
on_status_tick now run =
    if run.first_status_tick
    then (record run { first_status_tick = false }, [])
    else (record run { scheduler = (measured_hashrate run.scheduler now).0 }, [])

unfoldable pub on_telemetry_tick : Rates → ℕ → Run → Run × List Effect
unfolding compute_miner_telemetry
on_telemetry_tick rates now run =
    let (next, sent) = compute_miner_telemetry rates run.scheduler now in
    (record run { scheduler = next }, telemetry sent ∷ [])

unfoldable pub on_new_thread : Run → Option (Outcome × List ℕ) → Option (Run × List Effect)
unfolding leave
on_new_thread run none = none
on_new_thread run (some (out, thread_events)) =
    some (leave (record run { thread_events = thread_events }) out)

unfoldable pub on_new_source : Run → Outcome × List ℕ → Run × List Effect
unfolding leave
on_new_source run (out, source_events) = leave (record run { source_events = source_events }) out

unfoldable pub select : Rates → Pass → Branch → Run → Option (Run × List Effect)
unfolding leave leave_some on_source_event on_enumeration_complete on_gate_timeout on_status_tick
    on_telemetry_tick on_new_thread on_new_source handle_source_registration handle_share
    handle_thread_event handle_new_thread handle_api_command
select rates pass (source_registered name url) run = some (
    on_new_source run
      (handle_source_registration name url run.scheduler run.share_channels run.source_events))
select rates pass (source_event source_id event) run =
    leave_some run (on_source_event rates pass source_id event run.scheduler run.share_channels)
select rates pass (share task_id found) run =
    some (leave run (handle_share pass.now task_id found run.scheduler run.share_channels))
select rates pass (thread_event thread_id event) run = leave_some run (
    handle_thread_event rates pass.now pass.accepts thread_id event run.scheduler
      run.share_channels)
select rates pass (thread_registered has_receiver) run =
    on_new_thread run
      (handle_new_thread has_receiver run.scheduler run.share_channels run.thread_events)
select rates pass enumeration_completed run = some (on_enumeration_complete pass.now run)
select rates pass gate_timed_out run = some (on_gate_timeout run)
select rates pass status_tick run = some (on_status_tick pass.now run)
select rates pass (api_command cmd) run =
    some (leave run (handle_api_command rates pass.now cmd run.scheduler run.share_channels))
select rates pass telemetry_tick run = some (on_telemetry_tick rates pass.now run)

unfoldable pub disconnect : Run × List Effect → Run × List Effect
unfolding handle_thread_disconnections leave
disconnect (run, sent) =
    let (next, more) =
      leave run (handle_thread_disconnections run.thread_events run.scheduler run.share_channels) in
    (next, sent ++ more)

-- One pass of the loop; `none` if it panics.
unfoldable pub step : Rates → Pass → Run → Option (Run × List Effect)
unfolding poll select disconnect
step rates pass run = do
  selected ← select rates pass pass.branch (poll pass run)
  some (disconnect selected)
