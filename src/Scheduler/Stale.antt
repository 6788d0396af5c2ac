-- ===== src/Scheduler/Stale.antt =====
-- mujina-miner/src/scheduler.rs: shares of work that its source has replaced or cleared.
use mujina.Common.{
  ℕ, ◌<◌, ◌≡◌, refl, sym, ap, ◌∙◌, subst, arith, Bool, true, false, not, List, none, some, ◌==◌,
  Bool-cases, Option-cases, inl, inr, length,
}
use mujina.Job.{
  JobTemplate, Share, MerkleRootTemplate, computed, SourceEvent, update_job, replace_job,
  clear_jobs,
}
use mujina.Scheduler.Panic.{>>=-some, some_is, if_some}
use mujina.Scheduler.Slots.{contains, get, retain, keys}
use mujina.Scheduler.Slots.Keys.{contains-get, All-find, All-member, retain-absent}
use mujina.Scheduler.State.{
  Scheduler, SourceEntry, TaskEntry, Effect, Rates, replace, remove_tasks_where,
  broadcast_hashrate_change,
}
use mujina.Scheduler.Assign.{
  Outcome, silent, change_source, note_job, check_difficulty, invalidate, assign_kind,
  assign_job_to_threads,
}
use mujina.Scheduler.Handlers.{
  handle_share, handle_clear_jobs, forget_job, handle_thread_disconnections, drop_threads,
  handle_new_thread, broadcasting,
}
use mujina.Scheduler.Sound.{SoundState}
use mujina.Scheduler.Keeps.{
  Gone, Gone-retain, Keeps-trans, change_source-Keeps, check_difficulty-Keeps,
  check_difficulty-change_source, invalidate-Keeps,
}
use mujina.Scheduler.Keeps.Assign.{distribute-Keeps}
use mujina.Scheduler.Loop
use mujina.Scheduler.Loop.{
  Run, Pass, Branch, source_event, thread_registered, source_registered, thread_event,
  enumeration_completed, gate_timed_out, status_tick, api_command, telemetry_tick, on_new_thread,
  poll, leave, leave_some, on_source_event, select, disconnect, step,
}
use mujina.Scheduler.Always.{SoundRun, Possible, step-SoundRun, poll-SoundRun}
use mujina.Scheduler.Slices.{change_source-threads}
use mujina.Scheduler.Streams.{registers_thread, select-SameThreads}

-- The task is one of the source's, in the map.
unfoldable pub TaskOf : ℕ → ℕ → Scheduler → Type 0
TaskOf source_id key s =
    (task : TaskEntry) × (get s.tasks key ≡ some task) × (task.source_id ≡ source_id)

-- A task for which the predicate holds is gone when those are removed.
removed-Gone :
    (predicate : TaskEntry → Bool) (s : Scheduler) (channels : List ℕ) (key : ℕ) {task : TaskEntry}
    → SoundState s channels
    → get s.tasks key ≡ some task
    → predicate task ≡ true
    → Gone key (remove_tasks_where predicate s channels).0.tasks
unfolding remove_tasks_where Gone get retain
removed-Gone predicate s channels key {task} h there holds = (
  All-find (λ e. e.0 < s.tasks.issued) s.tasks.entries key h.issued there,
  retain-absent (λ entry. not (predicate entry)) s.tasks key h.distinct there (ap not holds),
)

invalidated-Gone :
    (source_id : ℕ) (s : Scheduler) (channels : List ℕ) (key : ℕ)
    → SoundState s channels
    → TaskOf source_id key s
    → Gone key (invalidate replace source_id s channels).0.tasks
unfolding invalidate TaskOf
invalidated-Gone source_id s channels key h (task, there, same) =
    removed-Gone (λ e. e.source_id == source_id) s channels key h there (ground arith)

change_source-tasks :
    (f : SourceEntry → SourceEntry) (source_id : ℕ) (s : Scheduler)
    → (change_source f source_id s).tasks ≡ s.tasks
unfolding change_source
change_source-tasks f source_id s = elim (Option-cases (get s.sources source_id)) [
  | inl none_there ↦ rw (change_source, none_there) refl
  | inr (source, found) ↦ rw (change_source, found) refl
]

check_difficulty-tasks :
    (rates : Rates) (now source_id : ℕ) (template : JobTemplate) (s : Scheduler)
    {checked : Scheduler}
    → check_difficulty rates now source_id template s ≡ some checked
    → checked.tasks ≡ s.tasks
check_difficulty-tasks rates now source_id template s e =
    let (f, is) = check_difficulty-change_source rates now source_id template s e in
    sym (ap (λ next. next.tasks) is) ∙ change_source-tasks f source_id s

TaskOf-same :
    (source_id key : ℕ) (s next : Scheduler)
    → next.tasks ≡ s.tasks
    → TaskOf source_id key s
    → TaskOf source_id key next
unfolding TaskOf
TaskOf-same source_id key s next e (task, there, same) =
    (task, ap (λ tasks. get tasks key) e ∙ there, same)

-- The source's event takes back the work it has given: it clears its jobs, or replaces them by one
-- with a computed merkle root while there are threads.
unfoldable pub TakesBack : SourceEvent → Scheduler → Type 0
TakesBack clear_jobs s = Unit {0}
TakesBack (update_job template) s = ⊥
TakesBack (replace_job template) s =
    (merkle : MerkleRootTemplate) × (template.merkle_root ≡ computed merkle)
    × (0 < length s.threads.entries)

module _ (rates : Rates) (now : ℕ) (accepts : ℕ → ℕ → Bool) where
  assign_kind-Gone :
      (source_id : ℕ) (template : JobTemplate) (merkle : MerkleRootTemplate) (s : Scheduler)
      (channels : List ℕ) (key : ℕ) {out : Outcome}
      → 0 < length s.threads.entries
      → contains (keys s.sources) source_id ≡ true
      → SoundState s channels
      → TaskOf source_id key s
      → assign_kind rates now accepts replace source_id template (computed merkle) s channels
        ≡ some out
      → Gone key out.scheduler.tasks
  unfolding assign_kind silent
  assign_kind-Gone source_id template merkle s channels key pos src h t e =
      let noted = change_source (note_job template) source_id s in
      let a = change_source-Keeps (note_job template) source_id s channels h in
      let threads =
        ap (λ m. length m.entries) (change_source-threads (note_job template) source_id s) in
      elim (if_some (length noted.threads.entries == 0) e) [
        | inl (none_there, is) ↦ absurd (ground arith)
        | inr (some_there, is) ↦
            let (checked, passed, ran) =
              >>=-some (check_difficulty rates now source_id template noted) _ is in
            let b =
              Keeps-trans a (
                check_difficulty-Keeps rates now source_id template noted channels a.sound
                  passed) in
            let (left, open_channels) = invalidate replace source_id checked channels in
            let c = Keeps-trans b (invalidate-Keeps replace source_id checked channels b.sound) in
            let still =
              TaskOf-same source_id key s checked
                (check_difficulty-tasks rates now source_id template noted passed
                  ∙ change_source-tasks (note_job template) source_id s)
                t in
            let d =
              distribute-Keeps rates now accepts replace source_id template merkle.extranonce_range
                left open_channels (ap (λ ks. contains ks source_id) c.same_sources ∙ src) c.sound
                ran in
            d.gone_stays key (invalidated-Gone source_id checked channels key b.sound still)
      ]

clear_jobs-Gone :
    (source_id : ℕ) (s : Scheduler) (channels : List ℕ) (key : ℕ)
    → SoundState s channels
    → TaskOf source_id key s
    → Gone key (handle_clear_jobs source_id s channels).scheduler.tasks
unfolding handle_clear_jobs silent invalidate
clear_jobs-Gone source_id s channels key h t =
    let forgot = change_source forget_job source_id s in
    let k = change_source-Keeps forget_job source_id s channels h in
    invalidated-Gone source_id forgot channels key k.sound
      (TaskOf-same source_id key s forgot (change_source-tasks forget_job source_id s) t)

on_source_event-Gone :
    (rates : Rates) (pass : Pass) (source_id : ℕ) (event : SourceEvent) (s : Scheduler)
    (channels : List ℕ) (key : ℕ) {out : Outcome}
    → TakesBack event s
    → contains (keys s.sources) source_id ≡ true
    → SoundState s channels
    → TaskOf source_id key s
    → on_source_event rates pass source_id event s channels ≡ some out
    → Gone key out.scheduler.tasks
unfolding on_source_event TakesBack assign_job_to_threads
on_source_event-Gone rates pass source_id (update_job template) s channels key back src h t e =
    absurd back
on_source_event-Gone rates pass source_id (replace_job template) s channels key (merkle, kind, pos)
      src h t e =
    assign_kind-Gone rates pass.now pass.accepts source_id template merkle s channels key pos src h
      t
      (ap (λ k. assign_kind rates pass.now pass.accepts replace source_id template k s channels)
          (sym kind)
        ∙ e)
on_source_event-Gone rates pass source_id clear_jobs s channels key back src h t e =
    subst (λ o. Gone key o.scheduler.tasks) (some_is e)
      (clear_jobs-Gone source_id s channels key h t)

-- What is gone stays gone while disconnections are handled.
disconnect-Gone :
    (run : Run) (sent : List Effect) (key : ℕ)
    → Gone key run.scheduler.tasks
    → Gone key (disconnect (run, sent)).0.scheduler.tasks
unfolding disconnect handle_thread_disconnections leave silent broadcasting
    broadcast_hashrate_change remove_tasks_where drop_threads
disconnect-Gone run sent key g =
    elim (Bool-cases (length run.thread_events == run.scheduler.last_thread_count)) [
      | inl b ↦ rw b g
      | inr b ↦ rw b (
          Gone-retain (λ e. not (not (contains run.thread_events e.thread_id))) run.scheduler.tasks
            key g)
    ]

registered-Gone :
    (rates : Rates) (pass : Pass) (branch : Branch) (run : Run) (key : ℕ)
    {after : Run × List Effect}
    → registers_thread branch ≡ true
    → select rates pass branch run ≡ some after
    → Gone key run.scheduler.tasks
    → Gone key after.0.scheduler.tasks
unfolding registers_thread select on_new_thread handle_new_thread leave
registered-Gone rates pass (thread_registered true) run key r e g =
    subst (λ a. Gone key a.0.scheduler.tasks) (some_is e) g
registered-Gone rates pass (thread_registered false) run key r e g = cc
registered-Gone rates pass (source_registered name url) run key r e g = absurd (ground arith)
registered-Gone rates pass (source_event id event) run key r e g = absurd (ground arith)
registered-Gone rates pass (Loop.share id found) run key r e g = absurd (ground arith)
registered-Gone rates pass (thread_event id event) run key r e g = absurd (ground arith)
registered-Gone rates pass enumeration_completed run key r e g = absurd (ground arith)
registered-Gone rates pass gate_timed_out run key r e g = absurd (ground arith)
registered-Gone rates pass status_tick run key r e g = absurd (ground arith)
registered-Gone rates pass (api_command cmd) run key r e g = absurd (ground arith)
registered-Gone rates pass telemetry_tick run key r e g = absurd (ground arith)

select-Gone :
    (rates : Rates) (pass : Pass) (branch : Branch) (run : Run) (key : ℕ)
    {after : Run × List Effect}
    → SoundRun run
    → Possible pass branch run
    → select rates pass branch run ≡ some after
    → Gone key run.scheduler.tasks
    → Gone key after.0.scheduler.tasks
select-Gone rates pass branch run key h p e g = elim (Bool-cases (registers_thread branch)) [
  | inl r ↦ registered-Gone rates pass branch run key r e g
  | inr r ↦ (select-SameThreads rates pass branch run h p r e).gone_remains key g
]

-- A pass brings no task back.
step-Gone :
    (rates : Rates) (pass : Pass) (run : Run) (key : ℕ) {after : Run × List Effect}
    → SoundRun run
    → Possible pass pass.branch (poll pass run)
    → step rates pass run ≡ some after
    → Gone key run.scheduler.tasks
    → Gone key after.0.scheduler.tasks
unfolding step poll
step-Gone rates pass run key h p e g =
    let (selected, ran, is) = >>=-some (select rates pass pass.branch (poll pass run)) _ e in
    subst (λ a. Gone key a.0.scheduler.tasks) (some_is is)
      (disconnect-Gone selected.0 selected.1 key
        (select-Gone rates pass pass.branch (poll pass run) key (poll-SoundRun pass run h) p ran g))

-- The pass in which the source takes the task back.
select_back-Gone :
    (rates : Rates) (pass : Pass) (run : Run) (source_id key : ℕ) (event : SourceEvent)
    {after : Run × List Effect}
    → SoundRun run
    → Possible pass (source_event source_id event) run
    → TakesBack event run.scheduler
    → TaskOf source_id key run.scheduler
    → select rates pass (source_event source_id event) run ≡ some after
    → Gone key after.0.scheduler.tasks
unfolding select leave_some leave Possible
select_back-Gone rates pass run source_id key event {after} h p back t e =
    elim (Option-cases
      (on_source_event rates pass source_id event run.scheduler run.share_channels)) [
        | inl panics ↦
            let is : leave_some run none ≡ some after = ap (leave_some run) (sym panics) ∙ e in cc
        | inr (out, made) ↦
            let is : leave_some run (some out) ≡ some after = ap (leave_some run) (sym made) ∙ e in
            subst (λ a. Gone key a.0.scheduler.tasks) (some_is is)
              (on_source_event-Gone rates pass source_id event run.scheduler run.share_channels key
                back
                (All-member (λ k. contains (keys run.scheduler.sources) k ≡ true) run.source_events
                  source_id h.sources p)
                h.state t made)
      ]

-- The states that passes of the loop lead to.
pub data Reaches (rates : Rates) : Run → Run → Type 0 where
  here : {run : Run} → Reaches rates run run
  after_pass :
      {run last : Run} (pass : Pass) (next : Run × List Effect)
      → Possible pass pass.branch (poll pass run)
      → step rates pass run ≡ some next
      → Reaches rates next.0 last
      → Reaches rates run last

Reaches-Gone :
    (rates : Rates) {run last : Run} (key : ℕ)
    → Reaches rates run last
    → SoundRun run
    → Gone key run.scheduler.tasks
    → Gone key last.scheduler.tasks
Reaches-Gone rates key here h g = g
Reaches-Gone rates {run} key (after_pass pass next p e rest) h g =
    Reaches-Gone rates key rest (step-SoundRun rates pass run h p e)
      (step-Gone rates pass run key h p e g)

absent_silent :
    (now key : ℕ) (share : Share) (s : Scheduler) (channels : List ℕ)
    → Gone key s.tasks
    → handle_share now key share s channels ≡ silent s channels
unfolding handle_share Gone
absent_silent now key share s channels (lt, away) = elim (Option-cases (get s.tasks key)) [
  | inl none_there ↦ rw (handle_share, none_there) refl
  | inr (task, found) ↦ let there = contains-get s.tasks key found in absurd (ground arith)
]

-- Let a pass of the loop without a panic take an event by which a source takes back the work it has
-- given: that its jobs are cleared, or replaced by a job with a computed merkle root while there are
-- threads. Whatever passes follow, a share for a task that the source had before is then dropped: it
-- changes nothing, and nothing is sent for it.
pub taken_back-silent :
    (rates : Rates) (pass : Pass) (run : Run) (next : Run × List Effect) (last : Run)
    (source_id key now : ℕ) (event : SourceEvent) (share : Share)
    → SoundRun run
    → pass.branch ≡ source_event source_id event
    → Possible pass pass.branch (poll pass run)
    → TakesBack event run.scheduler
    → TaskOf source_id key run.scheduler
    → step rates pass run ≡ some next
    → Reaches rates next.0 last
    → handle_share now key share last.scheduler last.share_channels
      ≡ silent last.scheduler last.share_channels
unfolding step
taken_back-silent rates pass run next last source_id key now event share h b p back t e later =
    let (selected, ran, is) = >>=-some (select rates pass pass.branch (poll pass run)) _ e in
    let gone =
      select_back-Gone rates pass (poll pass run) source_id key event (poll-SoundRun pass run h)
        (subst (λ branch. Possible pass branch (poll pass run)) b p) back t
        (subst (λ branch. select rates pass branch (poll pass run) ≡ some selected) b ran) in
    let after =
      subst (λ a. Gone key a.0.scheduler.tasks) (some_is is)
        (disconnect-Gone selected.0 selected.1 key gone) in
    absent_silent now key share last.scheduler last.share_channels
      (Reaches-Gone rates key later (step-SoundRun rates pass run h p e) after)
