-- ===== src/Scheduler/Streams.antt =====
-- mujina-miner/src/scheduler.rs: threads whose event stream has ended, which the loop finds by
-- counting the streams.
use mujina.Common.{
  ℕ, ◌≤◌, ◌≡◌, refl, sym, ap, ◌∙◌, subst, arith, Bool, true, false, not, List, [], ◌∷◌, ◌++◌,
  Option, none, some, ◌==◌, if◌then◌else◌, All, Bool-cases, inl, inr, length,
}
use mujina.Scheduler.Panic.{>>=-some, some_is}
use mujina.Scheduler.Slots.{contains, keep, keys}
use mujina.Scheduler.Slots.Keys.{keys-insert, keys-retain, All-map, All-member, keys-each}
use mujina.Scheduler.Gate.{is_holding, record_enumeration_complete}
use mujina.Scheduler.State.{
  Effect, Rates, broadcast_hashrate_change, measured_hashrate, estimated, remove_tasks_where,
  compute_miner_telemetry,
}
use mujina.Scheduler.Assign.{Outcome, silent}
use mujina.Scheduler.Handlers.{
  broadcasting, handle_new_thread, handle_thread_disconnections, drop_threads,
  handle_source_registration, broadcast_unless_holding,
}
use mujina.Scheduler.Sound.{All-keep, Owned}
use mujina.Scheduler.Keeps.{Keeps, Gone}
use mujina.Scheduler.Loop.{
  Run, Branch, source_registered, source_event, share, thread_event, thread_registered,
  enumeration_completed, gate_timed_out, status_tick, api_command, telemetry_tick, Pass, without,
  poll, leave, leave_some, on_enumeration_complete, on_gate_timeout, on_status_tick,
  on_telemetry_tick, on_new_thread, on_new_source, select, disconnect, step,
}
use mujina.Scheduler.Keeps.Handlers.{
  handle_share-Keeps, handle_thread_event-Keeps, handle_api_command-Keeps,
}
use mujina.Scheduler.Always.{
  SoundRun, Possible, step-SoundRun, poll-SoundRun, on_source_event-Keeps,
}

-- The count is that of the streams, and every thread has one.
pub record Live (run : Run) : Type 0 where
  pub counted : run.scheduler.last_thread_count ≡ length run.thread_events
  pub streamed : All (λ k. contains run.thread_events k ≡ true) (keys run.scheduler.threads)

unfoldable pub registers_thread : Branch → Bool
registers_thread (thread_registered has_receiver) = true
registers_thread (source_registered name url) = false
registers_thread (source_event id event) = false
registers_thread (share id found) = false
registers_thread (thread_event id event) = false
registers_thread enumeration_completed = false
registers_thread gate_timed_out = false
registers_thread status_tick = false
registers_thread (api_command cmd) = false
registers_thread telemetry_tick = false

All-unit : (ks : List ℕ) → All (λ k. Unit {0}) ks
All-unit [] = tt
All-unit (k ∷ ks) = (tt, All-unit ks)

-- If as many streams are left as there were, they are the same.
length-keep : (p : ℕ → Bool) (ks : List ℕ) → length (keep p ks) ≤ length ks
unfolding keep
length-keep p [] = omega arith
length-keep p (k ∷ ks) = ground (arith, length-keep p ks)

keep_all : (p : ℕ → Bool) (ks : List ℕ) → length (keep p ks) ≡ length ks → keep p ks ≡ ks
unfolding keep
keep_all p [] e = refl
keep_all p (k ∷ ks) e = elim (Bool-cases (p k)) [
  | inl b ↦ rw b (ap (◌∷◌ k) (keep_all p ks (ground arith)))
  | inr b ↦ let le = length-keep p ks in absurd (ground arith)
]

dropped-Live :
    (run : Run)
    → let (left, open_channels) =
        remove_tasks_where
          (λ e. not (contains run.thread_events e.thread_id))
          (drop_threads run.thread_events run.scheduler)
          run.share_channels in
      Live
        (leave run (
          broadcasting
            (record left { last_thread_count = length run.thread_events })
            open_channels)).0
unfolding drop_threads remove_tasks_where leave broadcasting broadcast_hashrate_change
dropped-Live run = record {
  counted = refl;
  streamed =
      subst (All (λ k. contains run.thread_events k ≡ true))
        (sym (keys-retain (contains run.thread_events) run.scheduler.threads))
        (All-map _ _ _ (λ k q. q.1)
          (All-keep (λ k. Unit {0}) (contains run.thread_events) (keys run.scheduler.threads)
            (All-unit (keys run.scheduler.threads))));
}

-- After the disconnections are handled, the count is right again; and every thread has a stream if
-- it had one before streams ended.
disconnect-Live :
    (run : Run) (sent : List Effect) (before : List ℕ) (ended : List ℕ)
    → run.thread_events ≡ without ended before
    → run.scheduler.last_thread_count ≡ length before
    → All (λ k. contains before k ≡ true) (keys run.scheduler.threads)
    → Live (disconnect (run, sent)).0
unfolding disconnect handle_thread_disconnections leave silent without
disconnect-Live run sent before ended events count all =
    elim (Bool-cases (length run.thread_events == run.scheduler.last_thread_count)) [
      | inl b ↦ rw b (
          let same : run.thread_events ≡ before =
            events
            ∙ keep_all (λ key. not (contains ended key)) before
                (let e = ap length events in ground arith) in
          record {
            counted = ground arith;
            streamed =
                subst (λ ks. All (λ k. contains ks k ≡ true) (keys run.scheduler.threads))
                  (sym same) all;
          })
      | inr b ↦ rw b (dropped-Live run)
    ]

-- What a pass that registers no thread leaves as it was.
pub record SameThreads (run after : Run) : Type 0 where
  pub same_events : after.thread_events ≡ run.thread_events
  pub same_keys : keys after.scheduler.threads ≡ keys run.scheduler.threads
  pub same_counted : after.scheduler.last_thread_count ≡ run.scheduler.last_thread_count
  pub gone_remains : (key : ℕ) → Gone key run.scheduler.tasks → Gone key after.scheduler.tasks

leave-SameThreads :
    (run : Run) (out : Outcome) → Keeps run.scheduler out → SameThreads run (leave run out).0
unfolding leave
leave-SameThreads run out k = record {
  same_events = refl;
  same_keys = k.same_threads;
  same_counted = k.same_count;
  gone_remains = k.gone_stays;
}

leave_some-SameThreads :
    (run : Run) (out : Option Outcome) {after : Run × List Effect}
    → ((o : Outcome) → out ≡ some o → Keeps run.scheduler o)
    → leave_some run out ≡ some after
    → SameThreads run after.0
unfolding leave_some
leave_some-SameThreads run none f e = cc
leave_some-SameThreads run (some out) f e =
    subst (λ a. SameThreads run a.0) (some_is e) (leave-SameThreads run out (f out refl))

enumeration-SameThreads :
    (now : ℕ) (run : Run) → SameThreads run (on_enumeration_complete now run).0
unfolding on_enumeration_complete leave broadcasting broadcast_hashrate_change
enumeration-SameThreads now run =
    elim (Bool-cases (is_holding (record_enumeration_complete run.scheduler.startup_gate))) [
      | inl b ↦ rw b (record {
        same_events = refl;
        same_keys = refl;
        same_counted = refl;
        gone_remains = λ key g. g;
      })
      | inr b ↦ rw b (record {
        same_events = refl;
        same_keys = refl;
        same_counted = refl;
        gone_remains = λ key g. g;
      })
    ]

status-SameThreads : (now : ℕ) (run : Run) → SameThreads run (on_status_tick now run).0
unfolding on_status_tick measured_hashrate
status-SameThreads now run = either run.first_status_tick
  where
    either :
        (first : Bool)
        → let after : Run × List Effect =
            if first
            then (record run { first_status_tick = false }, [])
            else (record run { scheduler = (measured_hashrate run.scheduler now).0 }, []) in
          SameThreads run after.0
    either true = record {
      same_events = refl;
      same_keys = refl;
      same_counted = refl;
      gone_remains = λ key g. g;
    }
    either false = record {
      same_events = refl;
      same_keys = keys-each (estimated now) run.scheduler.threads;
      same_counted = refl;
      gone_remains = λ key g. g;
    }

source-SameThreads :
    (name : List ℕ) (url : Option (List ℕ)) (run : Run)
    → SameThreads run
        (on_new_source run (
          handle_source_registration name url run.scheduler run.share_channels run.source_events)).0
unfolding on_new_source leave handle_source_registration broadcast_unless_holding broadcasting
    silent broadcast_hashrate_change
source-SameThreads name url run = elim (Bool-cases (is_holding run.scheduler.startup_gate)) [
  | inl b ↦ rw b (record {
    same_events = refl;
    same_keys = refl;
    same_counted = refl;
    gone_remains = λ key g. g;
  })
  | inr b ↦ rw b (record {
    same_events = refl;
    same_keys = refl;
    same_counted = refl;
    gone_remains = λ key g. g;
  })
]

pub select-SameThreads :
    (rates : Rates) (pass : Pass) (branch : Branch) (run : Run) {after : Run × List Effect}
    → SoundRun run
    → Possible pass branch run
    → registers_thread branch ≡ false
    → select rates pass branch run ≡ some after
    → SameThreads run after.0
unfolding select Possible registers_thread on_gate_timeout on_telemetry_tick leave broadcasting
    broadcast_hashrate_change compute_miner_telemetry measured_hashrate
select-SameThreads rates pass (source_registered name url) run h p r e =
    subst (λ a. SameThreads run a.0) (some_is e) (source-SameThreads name url run)
select-SameThreads rates pass (source_event id event) run h p r e =
    leave_some-SameThreads run _
      (λ o made.
        on_source_event-Keeps rates pass id event run.scheduler run.share_channels
          (All-member (λ k. contains (keys run.scheduler.sources) k ≡ true) run.source_events id
            h.sources p)
          h.state made)
      e
select-SameThreads rates pass (share id found) run h p r e =
    subst (λ a. SameThreads run a.0) (some_is e)
      (leave-SameThreads run _
        (handle_share-Keeps pass.now id found run.scheduler run.share_channels h.state))
select-SameThreads rates pass (thread_event id event) run h p r e =
    leave_some-SameThreads run _
      (λ o made.
        handle_thread_event-Keeps rates pass.now pass.accepts id event run.scheduler
          run.share_channels h.state made)
      e
select-SameThreads rates pass (thread_registered has_receiver) run h p r e = absurd (ground arith)
select-SameThreads rates pass enumeration_completed run h p r e =
    subst (λ a. SameThreads run a.0) (some_is e) (enumeration-SameThreads pass.now run)
select-SameThreads rates pass gate_timed_out run h p r e =
    subst (λ a. SameThreads run a.0) (some_is e)
      (record {
        same_events = refl;
        same_keys = refl;
        same_counted = refl;
        gone_remains = λ key g. g;
      })
select-SameThreads rates pass status_tick run h p r e =
    subst (λ a. SameThreads run a.0) (some_is e) (status-SameThreads pass.now run)
select-SameThreads rates pass (api_command cmd) run h p r e =
    subst (λ a. SameThreads run a.0) (some_is e)
      (leave-SameThreads run _
        (handle_api_command-Keeps rates pass.now cmd run.scheduler run.share_channels h.state))
select-SameThreads rates pass telemetry_tick run h p r e =
    subst (λ a. SameThreads run a.0) (some_is e)
      (record {
        same_events = refl;
        same_keys = keys-each (estimated pass.now) run.scheduler.threads;
        same_counted = refl;
        gone_remains = λ key g. g;
      })

-- If a pass registers no thread, begins with the count of the streams and a stream for each thread,
-- and does not panic, then it ends so, whichever streams end meanwhile; and then every task is of a
-- thread with an open event stream.
pub step-Live :
    (rates : Rates) (pass : Pass) (run : Run) {after : Run × List Effect}
    → SoundRun run
    → Live run
    → Possible pass pass.branch (poll pass run)
    → registers_thread pass.branch ≡ false
    → step rates pass run ≡ some after
    → Live after.0
      × All
          (λ e. contains after.0.thread_events e.1.thread_id ≡ true)
          after.0.scheduler.tasks.entries
unfolding step poll Owned
step-Live rates pass run {after} h l p r e =
    let (selected, ran, is) = >>=-some (select rates pass pass.branch (poll pass run)) _ e in
    let same =
      select-SameThreads rates pass pass.branch (poll pass run) (poll-SoundRun pass run h) p r
        ran in
    let live =
      disconnect-Live selected.0 selected.1 run.thread_events pass.ended_threads same.same_events
        (same.same_counted ∙ l.counted)
        (subst (All (λ k. contains run.thread_events k ≡ true)) (sym same.same_keys) l.streamed) in
    let now_live : Live after.0 = subst (λ a. Live a.0) (some_is is) live in
    let sound = step-SoundRun rates pass run h p e in
    (
      now_live,
      All-map _ _ after.0.scheduler.tasks.entries
          (λ t o.
            All-member (λ k. contains after.0.thread_events k ≡ true)
              (keys after.0.scheduler.threads) t.1.thread_id now_live.streamed o.1)
          sound.state.owned,
    )

-- With the count that of the streams, nothing is taken for a disconnection.
disconnect_counted :
    (run : Run) (sent : List Effect)
    → run.scheduler.last_thread_count ≡ length run.thread_events
    → (disconnect (run, sent)).0 ≡ run
unfolding disconnect handle_thread_disconnections leave silent
disconnect_counted run sent h =
    let b : length run.thread_events == run.scheduler.last_thread_count ≡ true = ground arith in
    rw b refl

unfoldable pub Registered : List ℕ → Run → Run → Type 0
Registered ended run after =
    (keys after.scheduler.threads ≡ keys run.scheduler.threads ++ run.scheduler.threads.issued ∷ [])
    × (after.scheduler.tasks ≡ run.scheduler.tasks)
    × (after.thread_events ≡ without ended run.thread_events ++ run.scheduler.threads.issued ∷ [])

pub select-Registered :
    (rates : Rates) (pass : Pass) (run : Run) {after : Run × List Effect}
    → select rates pass (thread_registered true) (poll pass run) ≡ some after
    → Registered pass.ended_threads run after.0
      × (after.0.scheduler.last_thread_count ≡ length after.0.thread_events)
unfolding select on_new_thread handle_new_thread leave poll Registered
select-Registered rates pass run e =
    subst
      (λ a.
        Registered pass.ended_threads run a.0
        × (a.0.scheduler.last_thread_count ≡ length a.0.thread_events))
      (some_is e) ((keys-insert run.scheduler.threads _, refl, refl), refl)

-- A pass that registers a thread removes none, whichever streams have ended: the scheduler has its
-- threads and tasks as before and the new thread, though the streams that have ended are gone.
pub step-registered :
    (rates : Rates) (pass : Pass) (run : Run) {after : Run × List Effect}
    → pass.branch ≡ thread_registered true
    → step rates pass run ≡ some after
    → (keys after.0.scheduler.threads
        ≡ keys run.scheduler.threads ++ run.scheduler.threads.issued ∷ [])
      × (after.0.scheduler.tasks ≡ run.scheduler.tasks)
      × (after.0.thread_events
          ≡ without pass.ended_threads run.thread_events ++ run.scheduler.threads.issued ∷ [])
unfolding step Registered
step-registered rates pass run b e =
    let (selected, ran, is) = >>=-some (select rates pass pass.branch (poll pass run)) _ e in
    let (made, counted) =
      select-Registered rates pass run
        (subst (λ branch. select rates pass branch (poll pass run) ≡ some selected) b ran) in
    subst (λ a. Registered pass.ended_threads run a.0) (some_is is)
      (subst (Registered pass.ended_threads run)
        (sym (disconnect_counted selected.0 selected.1 counted)) made)
