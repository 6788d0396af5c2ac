-- ===== src/Scheduler/Always.antt =====
-- mujina-miner/src/scheduler.rs, `Scheduler::run`: what holds between two passes of the loop.
use mujina.Common.{
  ℕ, ◌≤◌, ◌≡◌, refl, sym, ◌∙◌, subst, arith, Bool, true, false, not, List, [], ◌∷◌, ◌++◌, Option,
  none, some, ◌==◌, if◌then◌else◌, All, Bool-cases, inl, inr, length,
}
use mujina.Job.{SourceEvent, update_job, replace_job, clear_jobs}
use mujina.Scheduler.Panic.{>>=-some, some_is}
use mujina.Scheduler.Slots.{contains, keep, insert, keys, empty}
use mujina.Scheduler.Slots.Keys.{
  contains-insert, contains-insert_key, keys-retain, Distinct, contains-keep, All-map, All-append,
  All-both, All-self, All-member,
}
use mujina.Scheduler.Gate.{is_holding, record_enumeration_complete, record_timeout}
use mujina.Alarm
use mujina.Estimator
use mujina.Scheduler.State
use mujina.Scheduler.State.{
  Scheduler, TaskEntry, SourceEntry, ThreadEntry, Effect, Rates, update, replace,
  remove_tasks_where, measured_hashrate, hashrate_window, high_difficulty_debounce,
}
use mujina.Scheduler.Assign.{Outcome, silent}
use mujina.Scheduler.Handlers.{
  broadcasting, broadcast_unless_holding, handle_source_registration, handle_new_thread,
  drop_threads, handle_thread_disconnections,
}
use mujina.Scheduler.Sound.{Sound, SoundState, Sound-more, Sound-drop, All-keep}
use mujina.Scheduler.Keeps.{Keeps, silent-Keeps, Keeps-from}
use mujina.Scheduler.Keeps.Assign.{assign_job_to_threads-Keeps}
use mujina.Scheduler.Keeps.Handlers.{
  broadcasting-Keeps, broadcast_unless_holding-Keeps, handle_clear_jobs-Keeps, handle_share-Keeps,
  handle_thread_event-Keeps, handle_api_command-Keeps, measured-Keeps, telemetry-Keeps,
}
use mujina.Scheduler.Loop.{
  Run, new, Branch, source_registered, source_event, share, thread_event, thread_registered,
  enumeration_completed, gate_timed_out, status_tick, api_command, telemetry_tick, Pass, without,
  poll, leave, leave_some, on_source_event, on_enumeration_complete, on_gate_timeout,
  on_status_tick, on_telemetry_tick, on_new_thread, on_new_source, select, disconnect, step,
}

-- The tasks, sources, threads and share channels fit together, and every event stream is that of a
-- source or a thread that is there.
pub record SoundRun (run : Run) : Type 0 where
  pub state : SoundState run.scheduler run.share_channels
  pub sources : All (λ k. contains (keys run.scheduler.sources) k ≡ true) run.source_events
  pub threads : All (λ k. contains (keys run.scheduler.threads) k ≡ true) run.thread_events

-- A stream yields an event only while it is open, and the timeout of the gate comes only while the
-- gate holds, at its deadline or later.
unfoldable pub Possible : Pass → Branch → Run → Type 0
Possible pass (source_registered name url) run = Unit {0}
Possible pass (source_event id event) run = contains run.source_events id ≡ true
Possible pass (share id found) run = contains run.share_channels id ≡ true
Possible pass (thread_event id event) run = contains run.thread_events id ≡ true
Possible pass (thread_registered has_receiver) run = Unit {0}
Possible pass enumeration_completed run = Unit {0}
Possible pass gate_timed_out run =
    (is_holding run.scheduler.startup_gate ≡ true)
    × (deadline : ℕ) × (run.gate_deadline ≡ some deadline)
    × (deadline ≤ pass.now)
Possible pass status_tick run = Unit {0}
Possible pass (api_command cmd) run = Unit {0}
Possible pass telemetry_tick run = Unit {0}

pub new-SoundRun : (now : ℕ) → SoundRun (new now)
unfolding new State.new empty keys Distinct
new-SoundRun now = record {
  state = record { issued = tt; distinct = tt; owned = tt; routed = tt };
  sources = tt;
  threads = tt;
}

All-without :
    (P : ℕ → Type 0) (ended streams : List ℕ) → All P streams → All P (without ended streams)
unfolding without
All-without P ended streams h =
    All-map _ P _ (λ k q. q.0) (All-keep P (λ key. not (contains ended key)) streams h)

pub poll-SoundRun : (pass : Pass) (run : Run) → SoundRun run → SoundRun (poll pass run)
unfolding poll
poll-SoundRun pass run h = record {
  state = record {
    issued = h.state.issued;
    distinct = h.state.distinct;
    owned = h.state.owned;
    routed = All-without _ pass.ended_shares run.share_channels h.state.routed;
  };
  sources = All-without _ pass.ended_sources run.source_events h.sources;
  threads = All-without _ pass.ended_threads run.thread_events h.threads;
}

leave-SoundRun :
    (run : Run) (out : Outcome)
    → Keeps run.scheduler out
    → SoundRun run
    → SoundRun (leave run out).0
unfolding leave
leave-SoundRun run out k h = record {
  state = k.sound;
  sources =
      subst (λ ks. All (λ id. contains ks id ≡ true) run.source_events) (sym k.same_sources)
        h.sources;
  threads =
      subst (λ ks. All (λ id. contains ks id ≡ true) run.thread_events) (sym k.same_threads)
        h.threads;
}

leave_some-SoundRun :
    (run : Run) (out : Option Outcome) {after : Run × List Effect}
    → ((o : Outcome) → out ≡ some o → Keeps run.scheduler o)
    → SoundRun run
    → leave_some run out ≡ some after
    → SoundRun after.0
unfolding leave_some
leave_some-SoundRun run none f h e = cc
leave_some-SoundRun run (some out) f h e =
    subst (λ a. SoundRun a.0) (some_is e) (leave-SoundRun run out (f out refl) h)

-- A new source is in the map and has a stream.
on_new_source-SoundRun :
    (run : Run) (name : List ℕ) (url : Option (List ℕ))
    → SoundRun run
    → SoundRun
        (on_new_source run (
          handle_source_registration name url run.scheduler run.share_channels run.source_events)).0
unfolding on_new_source handle_source_registration leave
on_new_source-SoundRun run name url h =
    let entry : SourceEntry = record {
      name = name;
      url = url;
      last_job = none;
      difficulty_alarm = Alarm.new high_difficulty_debounce;
    } in
    let id = run.scheduler.sources.issued in
    let s = record run.scheduler { sources = (insert run.scheduler.sources entry).0 } in
    let more = contains-insert run.scheduler.sources entry in
    let state : SoundState s run.share_channels = Sound-more more (λ k c. c) h.state in
    leave-SoundRun (record run { scheduler = s; source_events = run.source_events ++ id ∷ [] })
      (broadcast_unless_holding s run.share_channels)
      (broadcast_unless_holding-Keeps s run.share_channels state)
      (record {
        state = state;
        sources =
            All-append _ run.source_events (id ∷ []) (All-map _ _ _ more h.sources)
              (contains-insert_key run.scheduler.sources entry, tt);
        threads = h.threads;
      })

on_new_thread-SoundRun :
    (run : Run) (has_receiver : Bool) {after : Run × List Effect}
    → SoundRun run
    → on_new_thread run
        (handle_new_thread has_receiver run.scheduler run.share_channels run.thread_events)
      ≡ some after
    → SoundRun after.0
unfolding on_new_thread handle_new_thread leave
on_new_thread-SoundRun run false h e = cc
on_new_thread-SoundRun run true h e =
    let entry : ThreadEntry = record {
      hashrate = Estimator.new hashrate_window;
      expected = none;
    } in
    let id = run.scheduler.threads.issued in
    let more = contains-insert run.scheduler.threads entry in
    subst (λ a. SoundRun a.0) (some_is e)
      (record {
        state = Sound-more (λ k c. c) more h.state;
        sources = h.sources;
        threads =
            All-append _ run.thread_events (id ∷ []) (All-map _ _ _ more h.threads)
              (contains-insert_key run.scheduler.threads entry, tt);
      })

dropped_threads :
    (events threads : List ℕ)
    → All (λ k. contains threads k ≡ true) events
    → All (λ k. contains (keep (contains events) threads) k ≡ true) events
dropped_threads events threads h =
    All-map _ _ events (λ k q. contains-keep (contains events) threads k ∙ ground arith)
      (All-both _ _ events h (All-self events))

-- A disconnection takes the threads without a stream away, and their tasks first.
drop-SoundRun :
    (run : Run)
    → SoundRun run
    → let (left, open_channels) =
        remove_tasks_where
          (λ e. not (contains run.thread_events e.thread_id))
          (drop_threads run.thread_events run.scheduler)
          run.share_channels in
      SoundRun
        (leave run (
          broadcasting
            (record left { last_thread_count = length run.thread_events })
            open_channels)).0
unfolding drop_threads remove_tasks_where leave
drop-SoundRun run h =
    let events = run.thread_events in
    let (left, open_channels) =
      remove_tasks_where (λ e. not (contains events e.thread_id))
        (drop_threads events run.scheduler) run.share_channels in
    let next = record left { last_thread_count = length events } in
    let same = sym (keys-retain (contains events) run.scheduler.threads) in
    let state : SoundState next open_channels =
      subst (λ ks. Sound (keys run.scheduler.sources) ks next.tasks open_channels) same
        (Sound-drop events run.scheduler run.share_channels h.state) in
    leave-SoundRun (record run { scheduler = next; share_channels = open_channels })
      (broadcasting next open_channels) (broadcasting-Keeps next open_channels state)
      (record {
        state = state;
        sources = h.sources;
        threads =
            subst (λ ks. All (λ k. contains ks k ≡ true) events) same
              (dropped_threads events (keys run.scheduler.threads) h.threads);
      })

disconnect-SoundRun :
    (run : Run) (sent : List Effect) → SoundRun run → SoundRun (disconnect (run, sent)).0
unfolding disconnect handle_thread_disconnections
disconnect-SoundRun run sent h =
    elim (Bool-cases (length run.thread_events == run.scheduler.last_thread_count)) [
      | inl b ↦ rw b (
          leave-SoundRun run (silent run.scheduler run.share_channels)
            (silent-Keeps run.scheduler run.share_channels h.state) h)
      | inr b ↦ rw b (drop-SoundRun run h)
    ]

enumeration-SoundRun :
    (now : ℕ) (run : Run) → SoundRun run → SoundRun (on_enumeration_complete now run).0
unfolding on_enumeration_complete
enumeration-SoundRun now run h =
    let s = record run.scheduler {
      startup_gate = record_enumeration_complete run.scheduler.startup_gate;
    } in
    elim (Bool-cases (is_holding s.startup_gate)) [
      | inl b ↦ rw b (record { state = h.state; sources = h.sources; threads = h.threads })
      | inr b ↦ rw b (
          leave-SoundRun run (broadcasting s run.share_channels)
            (Keeps-from run.scheduler s refl refl refl refl
              (broadcasting-Keeps s run.share_channels h.state))
            h)
    ]

timeout-SoundRun : (run : Run) → SoundRun run → SoundRun (on_gate_timeout run).0
unfolding on_gate_timeout leave
timeout-SoundRun run h =
    let s = record run.scheduler { startup_gate = record_timeout run.scheduler.startup_gate } in
    leave-SoundRun (record run { gate_deadline = none }) (broadcasting s run.share_channels)
      (Keeps-from run.scheduler s refl refl refl refl
        (broadcasting-Keeps s run.share_channels h.state))
      (record { state = h.state; sources = h.sources; threads = h.threads })

status-SoundRun : (now : ℕ) (run : Run) → SoundRun run → SoundRun (on_status_tick now run).0
unfolding on_status_tick leave silent
status-SoundRun now run h = either run.first_status_tick
  where
    either :
        (first : Bool)
        → let after : Run × List Effect =
            if first
            then (record run { first_status_tick = false }, [])
            else (record run { scheduler = (measured_hashrate run.scheduler now).0 }, []) in
          SoundRun after.0
    either true = record { state = h.state; sources = h.sources; threads = h.threads }
    either false =
        leave-SoundRun run _ (measured-Keeps now run.scheduler run.share_channels h.state) h

telemetry-SoundRun :
    (rates : Rates) (now : ℕ) (run : Run)
    → SoundRun run
    → SoundRun (on_telemetry_tick rates now run).0
unfolding on_telemetry_tick leave silent
telemetry-SoundRun rates now run h =
    leave-SoundRun run _ (telemetry-Keeps rates now run.scheduler run.share_channels h.state) h

pub on_source_event-Keeps :
    (rates : Rates) (pass : Pass) (id : ℕ) (event : SourceEvent) (s : Scheduler) (channels : List ℕ)
    {out : Outcome}
    → contains (keys s.sources) id ≡ true
    → SoundState s channels
    → on_source_event rates pass id event s channels ≡ some out
    → Keeps s out
unfolding on_source_event
on_source_event-Keeps rates pass id (update_job template) s channels src h e =
    assign_job_to_threads-Keeps rates pass.now pass.accepts update id template s channels src h e
on_source_event-Keeps rates pass id (replace_job template) s channels src h e =
    assign_job_to_threads-Keeps rates pass.now pass.accepts replace id template s channels src h e
on_source_event-Keeps rates pass id clear_jobs s channels src h e =
    subst (Keeps s) (some_is e) (handle_clear_jobs-Keeps id s channels h)

select-SoundRun :
    (rates : Rates) (pass : Pass) (branch : Branch) (run : Run) {after : Run × List Effect}
    → SoundRun run
    → Possible pass branch run
    → select rates pass branch run ≡ some after
    → SoundRun after.0
unfolding select Possible
select-SoundRun rates pass (source_registered name url) run h p e =
    subst (λ a. SoundRun a.0) (some_is e) (on_new_source-SoundRun run name url h)
select-SoundRun rates pass (source_event id event) run h p e =
    leave_some-SoundRun run _
      (λ o made.
        on_source_event-Keeps rates pass id event run.scheduler run.share_channels
          (All-member (λ k. contains (keys run.scheduler.sources) k ≡ true) run.source_events id
            h.sources p)
          h.state made)
      h e
select-SoundRun rates pass (share id found) run h p e =
    subst (λ a. SoundRun a.0) (some_is e)
      (leave-SoundRun run _
        (handle_share-Keeps pass.now id found run.scheduler run.share_channels h.state) h)
select-SoundRun rates pass (thread_event id event) run h p e =
    leave_some-SoundRun run _
      (λ o made.
        handle_thread_event-Keeps rates pass.now pass.accepts id event run.scheduler
          run.share_channels h.state made)
      h e
select-SoundRun rates pass (thread_registered has_receiver) run h p e =
    on_new_thread-SoundRun run has_receiver h e
select-SoundRun rates pass enumeration_completed run h p e =
    subst (λ a. SoundRun a.0) (some_is e) (enumeration-SoundRun pass.now run h)
select-SoundRun rates pass gate_timed_out run h p e =
    subst (λ a. SoundRun a.0) (some_is e) (timeout-SoundRun run h)
select-SoundRun rates pass status_tick run h p e =
    subst (λ a. SoundRun a.0) (some_is e) (status-SoundRun pass.now run h)
select-SoundRun rates pass (api_command cmd) run h p e =
    subst (λ a. SoundRun a.0) (some_is e)
      (leave-SoundRun run _
        (handle_api_command-Keeps rates pass.now cmd run.scheduler run.share_channels h.state) h)
select-SoundRun rates pass telemetry_tick run h p e =
    subst (λ a. SoundRun a.0) (some_is e) (telemetry-SoundRun rates pass.now run h)

-- A pass of the loop that does not panic keeps the state sound, whatever the branch, the streams that
-- have ended and the answers of the threads: every task has an issued key, a source and a thread that
-- are there, every share channel is a task's, and every event stream is a source's or a thread's.
pub step-SoundRun :
    (rates : Rates) (pass : Pass) (run : Run) {after : Run × List Effect}
    → SoundRun run
    → Possible pass pass.branch (poll pass run)
    → step rates pass run ≡ some after
    → SoundRun after.0
unfolding step
step-SoundRun rates pass run h p e =
    let (selected, ran, is) = >>=-some (select rates pass pass.branch (poll pass run)) _ e in
    subst (λ a. SoundRun a.0) (some_is is)
      (disconnect-SoundRun selected.0 selected.1
        (select-SoundRun rates pass pass.branch (poll pass run) (poll-SoundRun pass run h) p ran))
