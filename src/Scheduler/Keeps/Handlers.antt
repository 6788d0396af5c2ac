-- ===== src/Scheduler/Keeps/Handlers.antt =====
-- mujina-miner/src/scheduler.rs: the handlers leave a sound state.
use mujina.Common.{
  ℕ, ◌≡◌, refl, sym, subst, Bool, true, false, List, Option, none, some, ◌==◌, Bool-cases,
  Option-cases, inl, inr,
}
use mujina.Job.{
  Share, HashThreadEvent, work_exhausted, work_depletion_warning, status_update, expected_hash_rate,
  is_met_by,
}
use mujina.Scheduler.Panic.{>>=-some, some_is}
use mujina.Scheduler.Slots.{get, put, keys}
use mujina.Scheduler.Slots.Keys.{keys-put, keys-each}
use mujina.Scheduler.Gate.{is_holding}
use mujina.Scheduler.State.{
  Scheduler, ThreadEntry, Rates, broadcast_hashrate_change, alarm_reset, measured_hashrate,
  estimated, compute_miner_telemetry,
}
use mujina.Scheduler.Assign.{Outcome, silent, change_source}
use mujina.Scheduler.Handlers.{
  broadcasting, broadcast_unless_holding, handle_clear_jobs, forget_job, record_work, count_share,
  handle_share, report_counted, is_first, assign_if_first, after_report, handle_known_rate,
  handle_rate_of, handle_expected_rate, handle_thread_event, handle_api_command, SchedulerCommand,
  pause_mining, resume_mining, set_paused,
}
use mujina.Scheduler.Sound.{Sound, SoundState}
use mujina.Scheduler.Keeps.{
  Keeps, silent-Keeps, Keeps-trans, Keeps-from, and_then-Keeps, put_thread, change_source-Keeps,
  remove_tasks_where-Keeps,
}
use mujina.Scheduler.Keeps.Assign.{assign_cached_jobs_to_thread-Keeps}

pub broadcasting-Keeps :
    (s : Scheduler) (channels : List ℕ) → SoundState s channels → Keeps s (broadcasting s channels)
unfolding broadcasting broadcast_hashrate_change
broadcasting-Keeps s channels h =
    let same = keys-each alarm_reset s.sources in
    record {
      same_sources = same;
      same_threads = refl;
      same_count = refl;
      sound = subst (λ ks. Sound ks (keys s.threads) s.tasks channels) (sym same) h;
      gone_stays = λ key g. g;
    }

pub broadcast_unless_holding-Keeps :
    (s : Scheduler) (channels : List ℕ)
    → SoundState s channels
    → Keeps s (broadcast_unless_holding s channels)
unfolding broadcast_unless_holding
broadcast_unless_holding-Keeps s channels h = elim (Bool-cases (is_holding s.startup_gate)) [
  | inl b ↦ rw b (silent-Keeps s channels h)
  | inr b ↦ rw b (broadcasting-Keeps s channels h)
]

pub handle_clear_jobs-Keeps :
    (source_id : ℕ) (s : Scheduler) (channels : List ℕ)
    → SoundState s channels
    → Keeps s (handle_clear_jobs source_id s channels)
unfolding handle_clear_jobs
handle_clear_jobs-Keeps source_id s channels h =
    let k = change_source-Keeps forget_job source_id s channels h in
    Keeps-trans k (
      remove_tasks_where-Keeps (λ e. e.source_id == source_id)
        (change_source forget_job source_id s) channels k.sound)

record_work-Keeps :
    (now thread_id work : ℕ) (s : Scheduler) (channels : List ℕ)
    → SoundState s channels
    → Keeps s (silent (record_work now thread_id work s) channels)
unfolding record_work silent
record_work-Keeps now thread_id work s channels h = elim (Option-cases (get s.threads thread_id)) [
  | inl none_there ↦ rw (record_work, none_there) (silent-Keeps s channels h)
  | inr (entry, found) ↦
      rw (record_work, found)
        (record {
          same_sources = refl;
          same_threads = keys-put s.threads thread_id _;
          same_count = refl;
          sound = put_thread s channels thread_id _ h;
          gone_stays = λ key g. g;
        })
]

pub handle_share-Keeps :
    (now task_id : ℕ) (share : Share) (s : Scheduler) (channels : List ℕ)
    → SoundState s channels
    → Keeps s (handle_share now task_id share s channels)
unfolding handle_share count_share
handle_share-Keeps now task_id share s channels h = elim (Option-cases (get s.tasks task_id)) [
  | inl none_there ↦ rw (handle_share, none_there) (silent-Keeps s channels h)
  | inr (task, found) ↦
      rw (handle_share, found)
        (let k = record_work-Keeps now task.thread_id share.expected_work s channels h in
          elim (Bool-cases (is_met_by task.template.share_target share.hash)) [
            | inl b ↦ rw b (record {
              same_sources = k.same_sources;
              same_threads = k.same_threads;
              same_count = k.same_count;
              sound = k.sound;
              gone_stays = k.gone_stays;
            })
            | inr b ↦ rw b k
          ])
]

report_counted-Keeps :
    (first : Bool) (s : Scheduler) (channels : List ℕ)
    → SoundState s channels
    → Keeps s (silent (report_counted first s) channels)
unfolding report_counted silent
report_counted-Keeps false s channels h = silent-Keeps s channels h
report_counted-Keeps true s channels h = elim (Bool-cases (is_holding s.startup_gate)) [
  | inl b ↦ rw b (record {
    same_sources = refl;
    same_threads = refl;
    same_count = refl;
    sound = h;
    gone_stays = λ key g. g;
  })
  | inr b ↦ rw b (silent-Keeps s channels h)
]

pub measured-Keeps :
    (now : ℕ) (s : Scheduler) (channels : List ℕ)
    → SoundState s channels
    → Keeps s (silent (measured_hashrate s now).0 channels)
unfolding measured_hashrate silent
measured-Keeps now s channels h =
    let same = keys-each (estimated now) s.threads in
    record {
      same_sources = refl;
      same_threads = same;
      same_count = refl;
      sound = subst (λ ks. Sound (keys s.sources) ks s.tasks channels) (sym same) h;
      gone_stays = λ key g. g;
    }

pub telemetry-Keeps :
    (rates : Rates) (now : ℕ) (s : Scheduler) (channels : List ℕ)
    → SoundState s channels
    → Keeps s (silent (compute_miner_telemetry rates s now).0 channels)
unfolding compute_miner_telemetry
telemetry-Keeps rates now s channels h = measured-Keeps now s channels h

pub handle_api_command-Keeps :
    (rates : Rates) (now : ℕ) (cmd : SchedulerCommand) (s : Scheduler) (channels : List ℕ)
    → SoundState s channels
    → Keeps s (handle_api_command rates now cmd s channels)
unfolding handle_api_command set_paused silent
handle_api_command-Keeps rates now pause_mining s channels h =
    let k = telemetry-Keeps rates now (record s { paused = true }) channels h in
    record {
      same_sources = k.same_sources;
      same_threads = k.same_threads;
      same_count = k.same_count;
      sound = k.sound;
      gone_stays = k.gone_stays;
    }
handle_api_command-Keeps rates now resume_mining s channels h =
    let k = telemetry-Keeps rates now (record s { paused = false }) channels h in
    record {
      same_sources = k.same_sources;
      same_threads = k.same_threads;
      same_count = k.same_count;
      sound = k.sound;
      gone_stays = k.gone_stays;
    }

module _ (rates : Rates) (now : ℕ) (accepts : ℕ → ℕ → Bool) where
  assign_if_first-Keeps :
      (first : Bool) (thread_id : ℕ) (s : Scheduler) (channels : List ℕ) {out : Outcome}
      → SoundState s channels
      → assign_if_first rates now accepts first thread_id s channels ≡ some out
      → Keeps s out
  unfolding assign_if_first
  assign_if_first-Keeps false thread_id s channels h e =
      subst (Keeps s) (some_is e) (silent-Keeps s channels h)
  assign_if_first-Keeps true thread_id s channels h e =
      assign_cached_jobs_to_thread-Keeps rates now accepts thread_id s channels h e

  after_report-Keeps :
      (first : Bool) (s : Scheduler) (channels : List ℕ) {out : Outcome}
      → SoundState s channels
      → after_report rates now accepts first s channels ≡ some out
      → Keeps s out
  unfolding after_report
  after_report-Keeps first s channels h e =
      let k = report_counted-Keeps first s channels h in
      subst (Keeps s) (some_is e)
        (Keeps-trans k (broadcast_unless_holding-Keeps (report_counted first s) channels k.sound))

  handle_known_rate-Keeps :
      (thread_id rate : ℕ) (entry : ThreadEntry) (s : Scheduler) (channels : List ℕ) {out : Outcome}
      → SoundState s channels
      → handle_known_rate rates now accepts thread_id rate entry s channels ≡ some out
      → Keeps s out
  unfolding handle_known_rate
  handle_known_rate-Keeps thread_id rate entry s channels h e =
      let told = record entry { expected = some rate } in
      let same = keys-put s.threads thread_id told in
      let next = record s { threads = put s.threads thread_id told } in
      let (first, ran, rest) =
        >>=-some (assign_if_first rates now accepts (is_first entry) thread_id next channels) _ e in
      let k =
        assign_if_first-Keeps (is_first entry) thread_id next channels
          (put_thread s channels thread_id told h) ran in
      Keeps-from s next refl same refl refl (
        and_then-Keeps first (after_report rates now accepts (is_first entry)) k
          (λ out r.
            after_report-Keeps (is_first entry) first.scheduler first.share_channels k.sound r)
          rest)

  handle_rate_of-Keeps :
      (thread_id rate : ℕ) (entry : Option ThreadEntry) (s : Scheduler) (channels : List ℕ)
      {out : Outcome}
      → SoundState s channels
      → handle_rate_of rates now accepts thread_id rate entry s channels ≡ some out
      → Keeps s out
  unfolding handle_rate_of
  handle_rate_of-Keeps thread_id rate none s channels h e =
      subst (Keeps s) (some_is e) (silent-Keeps s channels h)
  handle_rate_of-Keeps thread_id rate (some entry) s channels h e =
      handle_known_rate-Keeps thread_id rate entry s channels h e

  pub handle_thread_event-Keeps :
      (thread_id : ℕ) (event : HashThreadEvent) (s : Scheduler) (channels : List ℕ) {out : Outcome}
      → SoundState s channels
      → handle_thread_event rates now accepts thread_id event s channels ≡ some out
      → Keeps s out
  unfolding handle_thread_event handle_expected_rate
  handle_thread_event-Keeps thread_id (work_exhausted n) s channels h e =
      subst (Keeps s) (some_is e) (silent-Keeps s channels h)
  handle_thread_event-Keeps thread_id (work_depletion_warning n) s channels h e =
      subst (Keeps s) (some_is e) (silent-Keeps s channels h)
  handle_thread_event-Keeps thread_id (status_update status) s channels h e =
      subst (Keeps s) (some_is e) (silent-Keeps s channels h)
  handle_thread_event-Keeps thread_id (expected_hash_rate rate) s channels h e =
      handle_rate_of-Keeps thread_id rate (get s.threads thread_id) s channels h e
