-- ===== src/Scheduler/Keeps.antt =====
-- mujina-miner/src/scheduler.rs: what it is for a handler to leave a sound state,
-- and the parts of which the handlers are made.
pub mod Assign
pub mod Handlers
use mujina.Common.{
  ℕ, suc, ◌+◌, ◌<◌, ◌≡◌, refl, sym, ap, ◌∙◌, subst, arith, Bool, true, false, not, ◌||◌, ◌&&◌, List,
  [], ◌∷◌, ◌++◌, Option, none, some, ◌==◌, if◌then◌else◌, All, Bool-cases, Option-cases, inl, inr,
  length,
}
use mujina.Extranonce.{ExtranonceRange, split}
use mujina.Job.{JobTemplate, MerkleRootKind, fixed, computed, MerkleRootTemplate}
use mujina.Scheduler.Panic.{◌>>=◌, >>=-some, some_is, if_some}
use mujina.Scheduler.Slots.{SlotMap, contains, keep, insert, find, get, put, retain, each, keys}
use mujina.Scheduler.Slots.Keys.{
  keys-put, keys-each, keys-insert, contains-append, contains-retain, contains-get,
  contains-entries, All-map,
}
use mujina.Scheduler.State.{
  Scheduler, SourceEntry, ThreadEntry, TaskEntry, AssignMode, update, replace, Effect, Rates,
  update_task, remove_tasks_where, eligible_thread_ids, compute_scheduler_target, expected_hashrate,
  is_difficulty_too_high,
}
use mujina.Scheduler.Assign.{
  Outcome, silent, enter_task, and_then, change_source, invalidate, assign_one, assign_slices,
  distribute, assign_job_to_threads, note_job, check_alarm, check_difficulty, assign_cached_one,
  assign_cached_from, assign_cached_jobs_to_thread, aimed_rate, offer, make_task, assign_kind,
  assign_cached_of,
}
use mujina.Scheduler.Sound.{
  Owned, Sound, SoundState, Sound-more, Sound-insert, Sound-remove_tasks_where,
}

-- The key of a task that was issued, but is there no more.
unfoldable pub Gone : ℕ → SlotMap TaskEntry → Type 0
Gone key tasks = (key < tasks.issued) × (contains (keys tasks) key ≡ false)

-- The sources, the threads and their count are the same as before, the state is sound, and no task
-- that is gone has come back.
pub record Keeps (s : Scheduler) (out : Outcome) : Type 0 where
  pub same_sources : keys out.scheduler.sources ≡ keys s.sources
  pub same_threads : keys out.scheduler.threads ≡ keys s.threads
  pub same_count : out.scheduler.last_thread_count ≡ s.last_thread_count
  pub sound : SoundState out.scheduler out.share_channels
  pub gone_stays : (key : ℕ) → Gone key s.tasks → Gone key out.scheduler.tasks

Gone-insert :
    (tasks : SlotMap TaskEntry) (task : TaskEntry) (key : ℕ)
    → Gone key tasks
    → Gone key (insert tasks task).0
unfolding Gone insert contains
Gone-insert tasks task key (lt, away) =
    let last : contains (tasks.issued ∷ []) key ≡ false = ground arith in
    (
      omega arith,
      ap (λ ks. contains ks key) (keys-insert tasks task)
          ∙ contains-append (keys tasks) (tasks.issued ∷ []) key
          ∙ ground arith,
    )

pub Gone-retain :
    (p : TaskEntry → Bool) (tasks : SlotMap TaskEntry) (key : ℕ)
    → Gone key tasks
    → Gone key (retain (λ id entry. p entry) tasks)
unfolding Gone retain
Gone-retain p tasks key (lt, away) = let all = contains-retain p tasks key in (lt, ground arith)

pub silent-Keeps :
    (s : Scheduler) (channels : List ℕ) → SoundState s channels → Keeps s (silent s channels)
unfolding silent
silent-Keeps s channels h = record {
  same_sources = refl;
  same_threads = refl;
  same_count = refl;
  sound = h;
  gone_stays = λ key g. g;
}

pub Keeps-trans :
    {s : Scheduler} {out next : Outcome} → Keeps s out → Keeps out.scheduler next → Keeps s next
Keeps-trans a b = record {
  same_sources = b.same_sources ∙ a.same_sources;
  same_threads = b.same_threads ∙ a.same_threads;
  same_count = b.same_count ∙ a.same_count;
  sound = b.sound;
  gone_stays = λ key g. b.gone_stays key (a.gone_stays key g);
}

pub and_then-Keeps :
    {s : Scheduler} (first : Outcome) (f : Scheduler → List ℕ → Option Outcome) {out : Outcome}
    → Keeps s first
    → ((next : Outcome)
        → f first.scheduler first.share_channels ≡ some next
        → Keeps first.scheduler next)
    → and_then first f ≡ some out
    → Keeps s out
unfolding and_then
and_then-Keeps {s} first f {out} k g h =
    let (next, ran, is) = >>=-some (f first.scheduler first.share_channels) _ h in
    let after = Keeps-trans k (g next ran) in
    subst (Keeps s) (some_is is) (record {
      same_sources = after.same_sources;
      same_threads = after.same_threads;
      same_count = after.same_count;
      sound = after.sound;
      gone_stays = after.gone_stays;
    })

pub enter_task-Keeps :
    (accepted : Bool) (source_id : ℕ) (template : JobTemplate) (thread_id : ℕ) (s : Scheduler)
    (channels : List ℕ) (effect : Effect)
    → contains (keys s.sources) source_id ≡ true
    → contains (keys s.threads) thread_id ≡ true
    → SoundState s channels
    → Keeps s (enter_task accepted source_id template thread_id s channels effect)
unfolding enter_task Owned
enter_task-Keeps false source_id template thread_id s channels effect src thr h = record {
  same_sources = refl;
  same_threads = refl;
  same_count = refl;
  sound = h;
  gone_stays = λ key g. g;
}
enter_task-Keeps true source_id template thread_id s channels effect src thr h = record {
  same_sources = refl;
  same_threads = refl;
  same_count = refl;
  sound =
      Sound-insert (keys s.sources) (keys s.threads) s.tasks channels
        (record { source_id = source_id; template = template; thread_id = thread_id }) (src, thr) h;
  gone_stays = Gone-insert s.tasks _;
}

pub Keeps-from :
    (s next : Scheduler) {out : Outcome}
    → keys next.sources ≡ keys s.sources
    → keys next.threads ≡ keys s.threads
    → next.last_thread_count ≡ s.last_thread_count
    → next.tasks ≡ s.tasks
    → Keeps next out
    → Keeps s out
Keeps-from s next src thr cnt tsk k = record {
  same_sources = k.same_sources ∙ src;
  same_threads = k.same_threads ∙ thr;
  same_count = k.same_count ∙ cnt;
  sound = k.sound;
  gone_stays = λ key g. k.gone_stays key (subst (Gone key) (sym tsk) g);
}

-- A thread's entry may change.
pub put_thread :
    (s : Scheduler) (channels : List ℕ) (thread_id : ℕ) (entry : ThreadEntry)
    → SoundState s channels
    → SoundState (record s { threads = put s.threads thread_id entry }) channels
put_thread s channels thread_id entry h =
    subst (λ ks. Sound (keys s.sources) ks s.tasks channels)
      (sym (keys-put s.threads thread_id entry)) h

-- A source's entry may change.
pub change_source-Keeps :
    (f : SourceEntry → SourceEntry) (source_id : ℕ) (s : Scheduler) (channels : List ℕ)
    → SoundState s channels
    → Keeps s (silent (change_source f source_id s) channels)
unfolding change_source silent
change_source-Keeps f source_id s channels h = elim (Option-cases (get s.sources source_id)) [
  | inl none_there ↦ rw (change_source, none_there) (silent-Keeps s channels h)
  | inr (source, found) ↦
      rw (change_source, found)
        (let same = keys-put s.sources source_id (f source) in
          record {
            same_sources = same;
            same_threads = refl;
            same_count = refl;
            sound = subst (λ ks. Sound ks (keys s.threads) s.tasks channels) (sym same) h;
            gone_stays = λ key g. g;
          })
]

-- The check of the difficulty, where it does not panic, changes no more than the source's entry.
pub check_difficulty-change_source :
    (rates : Rates) (now source_id : ℕ) (template : JobTemplate) (s : Scheduler)
    {checked : Scheduler}
    → check_difficulty rates now source_id template s ≡ some checked
    → (f : SourceEntry → SourceEntry) × (change_source f source_id s ≡ checked)
unfolding check_difficulty change_source
check_difficulty-change_source rates now source_id template s e =
    elim (Option-cases (get s.sources source_id)) [
      | inl none_there ↦ (
        (λ source. source),
        rw (change_source, none_there) (some_is (rw (check_difficulty, none_there) at e)),
      )
      | inr (source, found) ↦
          let (too_high, told, is) =
            >>=-some (is_difficulty_too_high rates template (expected_hashrate s)) _
              (rw (check_difficulty, found) at e) in
          (check_alarm now too_high, rw (change_source, found) (some_is is))
    ]

pub check_difficulty-Keeps :
    (rates : Rates) (now source_id : ℕ) (template : JobTemplate) (s : Scheduler) (channels : List ℕ)
    {checked : Scheduler}
    → SoundState s channels
    → check_difficulty rates now source_id template s ≡ some checked
    → Keeps s (silent checked channels)
check_difficulty-Keeps rates now source_id template s channels h e =
    let (f, is) = check_difficulty-change_source rates now source_id template s e in
    subst (λ next. Keeps s (silent next channels)) is (change_source-Keeps f source_id s channels h)

pub remove_tasks_where-Keeps :
    (predicate : TaskEntry → Bool) (s : Scheduler) (channels : List ℕ)
    → SoundState s channels
    → let (next, left) = remove_tasks_where predicate s channels in Keeps s (silent next left)
unfolding silent remove_tasks_where
remove_tasks_where-Keeps predicate s channels h = record {
  same_sources = refl;
  same_threads = refl;
  same_count = refl;
  sound = (Sound-remove_tasks_where predicate s channels h).0;
  gone_stays = Gone-retain (λ entry. not (predicate entry)) s.tasks;
}

pub invalidate-Keeps :
    (mode : AssignMode) (source_id : ℕ) (s : Scheduler) (channels : List ℕ)
    → SoundState s channels
    → let (next, left) = invalidate mode source_id s channels in Keeps s (silent next left)
unfolding invalidate
invalidate-Keeps update source_id s channels h = silent-Keeps s channels h
invalidate-Keeps replace source_id s channels h =
    remove_tasks_where-Keeps (λ e. e.source_id == source_id) s channels h
