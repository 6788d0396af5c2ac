-- ===== src/Scheduler/Assign.antt =====
-- mujina-miner/src/scheduler.rs: how work is handed to threads. A call that panics, for an `expect`
-- an assertion that fails, or a duration that is out of range, gives `none`. `accepts` says which threads take the task of a source
-- that this call offers them; no call offers a thread two tasks of one source.
use mujina.Common.{
  ℕ, Bool, true, false, List, [], ◌∷◌, ◌++◌, Option, none, some, ◌==◌, if◌then◌else◌, length,
}
use mujina.Alarm
use mujina.Extranonce.{ExtranonceRange, split, start}
use mujina.Estimator.{settled_hashrate}
use mujina.Job.{JobTemplate, HashTask, MerkleRootKind, fixed, computed}
use mujina.Scheduler.Panic.{◌>>=◌}
use mujina.Scheduler.Slots.{insert, get, put}
use mujina.Scheduler.State.{
  Scheduler, SourceEntry, ThreadEntry, AssignMode, update, replace, Effect, update_task,
  replace_task, Rates, compute_scheduler_target, is_difficulty_too_high, expected_hashrate,
  eligible_thread_ids, remove_tasks_where, alarm_reset,
}

-- What a handler leaves: the scheduler, the open share channels, and what was sent.
pub record Outcome : Type 0 where
  pub scheduler : Scheduler
  pub share_channels : List ℕ
  pub effects : List Effect

unfoldable pub silent : Scheduler → List ℕ → Outcome
silent s share_channels = record { scheduler = s; share_channels = share_channels; effects = [] }

-- `a.or(b).unwrap_or_default()`.
unfoldable pub rate_or : Option ℕ → Option ℕ → ℕ
rate_or (some rate) expected = rate
rate_or none (some rate) = rate
rate_or none none = 0

-- The rate to aim at, with the thread entry that asking its estimator leaves.
unfoldable pub aimed_rate : ℕ → ThreadEntry → ThreadEntry × ℕ
unfolding settled_hashrate rate_or
aimed_rate now entry =
    let (hashrate, settled) = settled_hashrate entry.hashrate now in
    (record entry { hashrate = hashrate }, rate_or settled entry.expected)

unfoldable pub make_task : JobTemplate → ExtranonceRange → ℕ → HashTask
unfolding start
make_task template range share_target = record {
  template = template;
  extranonce_range = some range;
  extranonce = some (start range);
  share_target = share_target;
  ntime = template.time;
}

-- After the thread's answer: the task's entry and its share channel.
unfoldable pub enter_task : Bool → ℕ → JobTemplate → ℕ → Scheduler → List ℕ → Effect → Outcome
unfolding insert
enter_task false source_id template thread_id s share_channels effect = record {
  scheduler = s;
  share_channels = share_channels;
  effects = effect ∷ [];
}
enter_task true source_id template thread_id s share_channels effect =
    let (tasks, task_id) =
      insert s.tasks
        (record { source_id = source_id; template = template; thread_id = thread_id }) in
    record {
      scheduler = record s { tasks = tasks };
      share_channels = share_channels ++ task_id ∷ [];
      effects = effect ∷ [];
    }

unfoldable pub offer : AssignMode → ℕ → HashTask → Effect
offer update thread_id task = update_task thread_id task
offer replace thread_id task = replace_task thread_id task

unfoldable pub and_then : Outcome → (Scheduler → List ℕ → Option Outcome) → Option Outcome
and_then out f = do
  rest ← f out.scheduler out.share_channels
  some (record rest { effects = out.effects ++ rest.effects })

unfoldable pub same_target : Option JobTemplate → JobTemplate → Bool
same_target none template = false
same_target (some job) template = job.share_target == template.share_target

-- `source.last_job`, with the alarm reset when the target changes.
unfoldable pub note_job : JobTemplate → SourceEntry → SourceEntry
unfolding alarm_reset same_target
note_job template source =
    let noted = if same_target source.last_job template then source else alarm_reset source in
    record noted { last_job = some template }

unfoldable pub change_source : (SourceEntry → SourceEntry) → ℕ → Scheduler → Scheduler
unfolding get put
change_source f source_id s = elim (get s.sources source_id) [
  | none ↦ s
  | some source ↦ record s { sources = put s.sources source_id (f source) }
]

unfoldable pub invalidate : AssignMode → ℕ → Scheduler → List ℕ → Scheduler × List ℕ
unfolding remove_tasks_where
invalidate update source_id s share_channels = (s, share_channels)
invalidate replace source_id s share_channels =
    remove_tasks_where (λ e. e.source_id == source_id) s share_channels

unfoldable pub check_alarm : ℕ → Bool → SourceEntry → SourceEntry
unfolding Alarm.check
check_alarm now too_high source = record source {
  difficulty_alarm = (Alarm.check source.difficulty_alarm now too_high).0;
}

-- `if let Some(source)`: the time to a share is computed for a source that is there.
unfoldable pub check_difficulty : Rates → ℕ → ℕ → JobTemplate → Scheduler → Option Scheduler
unfolding get put is_difficulty_too_high expected_hashrate check_alarm
check_difficulty rates now source_id template s = elim (get s.sources source_id) [
  | none ↦ some s
  | some source ↦ is_difficulty_too_high rates template (expected_hashrate s) >>= λ too_high.
      some (record s { sources = put s.sources source_id (check_alarm now too_high source) })
]

-- The parameters that a whole call of the scheduler shares.
module _ (rates : Rates) (now : ℕ) (accepts : ℕ → ℕ → Bool) where
  -- The body of the loop over the eligible threads.
  unfoldable pub assign_one :
      AssignMode → ℕ → JobTemplate → ℕ → ExtranonceRange → Scheduler → List ℕ → Option Outcome
  unfolding get put aimed_rate compute_scheduler_target make_task offer enter_task
  assign_one mode source_id template thread_id range s share_channels = do
    entry ← get s.threads thread_id
    let (asked, hashrate) = aimed_rate now entry
    share_target ← compute_scheduler_target rates hashrate template.share_target
    let task = make_task template range share_target
    some (
        enter_task (accepts thread_id source_id) source_id template thread_id
          (record s { threads = put s.threads thread_id asked }) share_channels
          (offer mode thread_id task))

  -- `for (thread_id, extranonce_range) in eligible.into_iter().zip(extranonce_slices)`.
  unfoldable pub assign_slices :
      AssignMode
      → ℕ
      → JobTemplate
      → List ℕ
      → List ExtranonceRange
      → Scheduler
      → List ℕ
      → Option Outcome
  unfolding assign_one and_then silent
  assign_slices mode source_id template [] slices s share_channels = some (silent s share_channels)
  assign_slices mode source_id template (thread_id ∷ ids) [] s share_channels =
      some (silent s share_channels)
  assign_slices mode source_id template (thread_id ∷ ids) (range ∷ slices) s share_channels = do
    out ← assign_one mode source_id template thread_id range s share_channels
    and_then out (assign_slices mode source_id template ids slices)

  -- From the split on: nothing without eligible threads, else a slice for each.
  unfoldable pub distribute :
      AssignMode → ℕ → JobTemplate → ExtranonceRange → Scheduler → List ℕ → Option Outcome
  unfolding eligible_thread_ids split assign_slices silent
  distribute mode source_id template range s share_channels =
      if length (eligible_thread_ids s) == 0
      then some (silent s share_channels)
      else split range (length (eligible_thread_ids s)) >>= λ slices.
          assign_slices mode source_id template (eligible_thread_ids s) slices s share_channels

  unfoldable pub assign_kind :
      AssignMode → ℕ → JobTemplate → MerkleRootKind → Scheduler → List ℕ → Option Outcome
  unfolding change_source note_job check_difficulty invalidate distribute silent
  assign_kind mode source_id template (fixed root) s share_channels = some (silent s share_channels)
  assign_kind mode source_id template (computed merkle) s share_channels =
      let noted = change_source (note_job template) source_id s in
      if length noted.threads.entries == 0
      then some (silent noted share_channels)
      else check_difficulty rates now source_id template noted >>= λ checked.
          let (left, open_channels) = invalidate mode source_id checked share_channels in
          distribute mode source_id template merkle.extranonce_range left open_channels

  unfoldable pub assign_job_to_threads :
      AssignMode → ℕ → JobTemplate → Scheduler → List ℕ → Option Outcome
  unfolding assign_kind
  assign_job_to_threads mode source_id template s share_channels =
      assign_kind mode source_id template template.merkle_root s share_channels

  -- The body of the loop over the sources, for a source with a cached job.
  unfoldable pub assign_cached_one :
      ℕ → ℕ → ℕ → JobTemplate → MerkleRootKind → Scheduler → List ℕ → Option Outcome
  unfolding compute_scheduler_target make_task enter_task silent
  assign_cached_one thread_id hashrate source_id template (fixed root) s share_channels =
      some (silent s share_channels)
  assign_cached_one thread_id hashrate source_id template (computed merkle) s share_channels = do
    share_target ← compute_scheduler_target rates hashrate template.share_target
    let task = make_task template merkle.extranonce_range share_target
    some (
        enter_task (accepts thread_id source_id) source_id template thread_id s share_channels
          (update_task thread_id task))

  -- A source without a job is passed over.
  unfoldable pub assign_cached_of :
      ℕ → ℕ → ℕ → Option JobTemplate → Scheduler → List ℕ → Option Outcome
  unfolding assign_cached_one silent
  assign_cached_of thread_id hashrate source_id none s share_channels =
      some (silent s share_channels)
  assign_cached_of thread_id hashrate source_id (some template) s share_channels =
      assign_cached_one thread_id hashrate source_id template template.merkle_root s share_channels

  unfoldable pub assign_cached_from :
      ℕ → ℕ → List (ℕ × SourceEntry) → Scheduler → List ℕ → Option Outcome
  unfolding assign_cached_of and_then silent
  assign_cached_from thread_id hashrate [] s share_channels = some (silent s share_channels)
  assign_cached_from thread_id hashrate ((source_id, source) ∷ rest) s share_channels = do
    out ← assign_cached_of thread_id hashrate source_id source.last_job s share_channels
    and_then out (assign_cached_from thread_id hashrate rest)

  unfoldable pub assign_cached_jobs_to_thread : ℕ → Scheduler → List ℕ → Option Outcome
  unfolding get put aimed_rate assign_cached_from
  assign_cached_jobs_to_thread thread_id s share_channels = do
    entry ← get s.threads thread_id
    let (asked, hashrate) = aimed_rate now entry
    let next = record s { threads = put s.threads thread_id asked }
    assign_cached_from thread_id hashrate next.sources.entries next share_channels
