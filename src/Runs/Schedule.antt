-- ===== src/Runs/Schedule.antt =====
-- Runs of the scheduler of mujina-miner/src/scheduler.rs: two threads, one source, and its jobs.
use mujina.Common.{
  ℕ, ◌^◌, ◌/◌, ◌≡◌, refl, arith, true, false, List, [], ◌∷◌, Option, none, some, All, ◌++◌,
}
use mujina.Alarm
use mujina.Extranonce.{range_len}
use mujina.Job.{JobTemplate, MerkleRootTemplate, computed, Share, replace_job, status_update}
use mujina.Scheduler.Slots.{keys, contains}
use mujina.Scheduler.Gate
use mujina.Scheduler.Gate.{StartupGate, registers, reports, completes, is_holding, waits, run-waits}
use mujina.Scheduler.State.{
  Scheduler, SourceEntry, ThreadEntry, TaskEntry, Rates, Effect, replace, eligible_thread_ids,
}
use mujina.Scheduler.Assign.{silent, assign_job_to_threads}
use mujina.Scheduler.Handlers.{handle_share, pause_mining}
use mujina.Scheduler.Loop.{
  Run, Pass, Branch, source_event, thread_event, thread_registered, api_command, without, poll,
  step,
}
use mujina.Scheduler.Sound.{Owned}
use mujina.Scheduler.Slots.Keys.{Distinct}
use mujina.Scheduler.Always.{SoundRun, Possible, step-SoundRun}
use mujina.Scheduler.Streams.{Live, registers_thread, step-Live, step-registered}
use mujina.Scheduler.Slices.{HandedOut, assign_job_to_threads-HandedOut}
use mujina.Scheduler.Stale.{TakesBack, TaskOf, here, after_pass, taken_back-silent}

abbrev rates : Rates
rates = record {
  to_target = λ interval hashrate. 10 ^ 20 / interval;
  time_to_share = λ target hashrate. some 7;
  shown_difficulty = λ target. target;
}

abbrev merkle : MerkleRootTemplate
merkle = record {
  coinbase_prefix = 1 ∷ [];
  extranonce_prefix = [];
  extranonce_range = record { first = 0; last = 9; width = 1 };
  coinbase_suffix = 2 ∷ [];
  merkle_branches = [];
}

abbrev job : JobTemplate
job = record {
  id = 65 ∷ [];
  prev_blockhash = [];
  version = record { base = 0x2000_0000; gp_bits_mask = record { high = 0; low = 0 } };
  bits = 0;
  share_target = 1000;
  time = 17;
  merkle_root = computed merkle;
}

abbrev thread : ThreadEntry
thread = record {
  hashrate = record {
    window = 300;
    min_samples = 5;
    max_samples = 10;
    samples = [];
    total_work = 0;
  };
  expected = some 50;
}

abbrev source : SourceEntry
source = record {
  name = [];
  url = none;
  last_job = some job;
  difficulty_alarm = record { debounce = 30; state = Alarm.State.idle };
}

abbrev task : TaskEntry
task = record { source_id = 0; template = job; thread_id = 0 }

abbrev scheduler : Scheduler
scheduler = record {
  sources = record { issued = 1; entries = (0, source) ∷ [] };
  threads = record { issued = 2; entries = (0, thread) ∷ (1, thread) ∷ [] };
  tasks = record { issued = 1; entries = (0, task) ∷ [] };
  stats = record { start_time = 0; shares_submitted = 0 };
  last_thread_count = 2;
  startup_gate = record { registered = 2; reported = 2; enumeration_complete = true; open_ = true };
  paused = false;
}

abbrev busy : Run
busy = record {
  scheduler = scheduler;
  source_events = 0 ∷ [];
  thread_events = 0 ∷ 1 ∷ [];
  share_channels = 0 ∷ [];
  gate_deadline = none;
  first_status_tick = false;
}

abbrev pass : Branch → List ℕ → Pass
pass branch ended = record {
  now = 1000;
  branch = branch;
  ended_sources = [];
  ended_threads = ended;
  ended_shares = [];
  accepts = λ thread_id source_id. true;
}

-- Where a pass leads; a panic would lead nowhere.
leads : Option (Run × List Effect) → Run × List Effect
leads none = (busy, [])
leads (some next) = next

abbrev replaces : Pass
replaces = pass (source_event 0 (replace_job job)) []

abbrev pauses : Pass
pauses = pass (api_command pause_mining) []

abbrev loses : Pass
loses =
    pass
      (thread_event 1 (
        status_update (record {
          hashrate = 3;
          chip_shares_found = 1;
          pool_shares_submitted = 0;
          hardware_errors = 0;
          is_active = true;
        })))
      (0 ∷ [])

abbrev loses_and_registers : Pass
loses_and_registers = pass (thread_registered true) (0 ∷ [])

replaced : Run × List Effect
unfolding leads step
replaced = leads (step rates replaces busy)

paused : Run × List Effect
unfolding leads step
paused = leads (step rates pauses replaced.0)

lost : Run × List Effect
unfolding leads step
lost = leads (step rates loses busy)

lost_and_registered : Run × List Effect
unfolding leads step
lost_and_registered = leads (step rates loses_and_registers busy)

busy-SoundRun : SoundRun busy
unfolding keys contains Distinct Owned
busy-SoundRun = record {
  state = record {
    issued = (omega arith, tt);
    distinct = (refl, tt);
    owned = ((refl, refl), tt);
    routed = (refl, tt);
  };
  sources = (refl, tt);
  threads = (refl, (refl, tt));
}

step-SoundRun_example : SoundRun replaced.0
unfolding replaced step Possible poll
step-SoundRun_example = step-SoundRun rates replaces busy {after = replaced} busy-SoundRun refl refl

busy-Live : Live busy
unfolding keys contains
busy-Live = record { counted = refl; streamed = (refl, (refl, tt)) }

step-Live_example :
    Live lost.0
    × All (λ e. contains lost.0.thread_events e.1.thread_id ≡ true) lost.0.scheduler.tasks.entries
unfolding lost step Possible poll registers_thread
step-Live_example = step-Live rates loses busy {after = lost} busy-SoundRun busy-Live refl refl refl

-- The first thread has lost its stream in the pass and is there all the same, with its task.
step-registered_example :
    (keys lost_and_registered.0.scheduler.threads ≡ keys scheduler.threads ++ 2 ∷ [])
    × (lost_and_registered.0.scheduler.tasks ≡ scheduler.tasks)
    × (lost_and_registered.0.thread_events ≡ without (0 ∷ []) (0 ∷ 1 ∷ []) ++ 2 ∷ [])
unfolding lost_and_registered step
step-registered_example =
    step-registered rates loses_and_registers busy {after = lost_and_registered} refl refl

assign_job_to_threads-HandedOut_example :
    HandedOut
      (0 ∷ 1 ∷ [])
      merkle.extranonce_range
      (assign_job_to_threads rates 1000 (λ thread_id source_id. false) replace 0 job scheduler [])
unfolding eligible_thread_ids range_len
assign_job_to_threads-HandedOut_example =
    assign_job_to_threads-HandedOut rates 1000 (λ thread_id source_id. false) replace 0 job merkle
      scheduler [] 7 refl (λ rate. omega arith) refl
      (record { ordered = omega arith; bounded = omega arith }) (omega arith) (omega arith)

abbrev late : Share
late = record {
  nonce = 3;
  hash = 1;
  version = 0x2000_0000;
  ntime = 17;
  extranonce = none;
  expected_work = 9;
}

taken_back-silent_example :
    handle_share 2000 0 late paused.0.scheduler paused.0.share_channels
    ≡ silent paused.0.scheduler paused.0.share_channels
unfolding paused replaced step Possible poll TakesBack TaskOf
taken_back-silent_example =
    taken_back-silent rates replaces busy replaced paused.0 0 0 2000 (replace_job job) late
      busy-SoundRun refl refl (merkle, refl, omega arith) (task, refl, refl) refl
      (after_pass pauses paused tt refl here)

-- Without the replacement the share is counted.
late_share_counted : (handle_share 2000 0 late scheduler []).scheduler.stats.shares_submitted ≡ 1
unfolding handle_share
late_share_counted = refl

run-waits_example :
    is_holding (Gate.run Gate.new (registers ∷ completes ∷ reports ∷ []))
    ≡ waits [] (registers ∷ completes ∷ reports ∷ [])
run-waits_example = run-waits (registers ∷ completes ∷ reports ∷ [])
