-- ===== src/Scheduler/Sound.antt =====
-- mujina-miner/src/scheduler.rs: how the tasks stand to the sources, the threads and the share
-- channels, and that the handlers keep it so.
use mujina.Common.{
  ℕ, ◌<◌, ◌≡◌, ◌∙◌, arith, Bool, true, false, not, List, [], ◌∷◌, ◌++◌, All, Bool-cases, inl, inr,
}
use mujina.Scheduler.Slots.{SlotMap, contains, keep, insert, retain, keys}
use mujina.Scheduler.Slots.Keys.{
  All-append, All-map, contains-insert, contains-insert_key, contains-keep, All-both, Distinct,
  insert-Distinct, retain-Distinct, All-filter_entries, contains-retain,
}
use mujina.Scheduler.State.{Scheduler, TaskEntry, remove_tasks_where}

-- A task's source and thread are among these.
unfoldable pub Owned : List ℕ → List ℕ → TaskEntry → Type 0
Owned sources threads task =
    (contains sources task.source_id ≡ true) × (contains threads task.thread_id ≡ true)

-- Every task has a key of its own that was issued and is of a source and a thread that are there, and every open
-- share channel is that of a task.
pub record Sound (sources threads : List ℕ) (tasks : SlotMap TaskEntry) (channels : List ℕ)
    : Type 0 where
  pub issued : All (λ e. e.0 < tasks.issued) tasks.entries
  pub distinct : Distinct (keys tasks)
  pub owned : All (λ e. Owned sources threads e.1) tasks.entries
  pub routed : All (λ key. contains (keys tasks) key ≡ true) channels

abbrev pub SoundState : Scheduler → List ℕ → Type 0
SoundState s channels = Sound (keys s.sources) (keys s.threads) s.tasks channels

-- More sources or threads do no harm.
pub Sound-more :
    {sources threads sources' threads' : List ℕ} {tasks : SlotMap TaskEntry} {channels : List ℕ}
    → ((k : ℕ) → contains sources k ≡ true → contains sources' k ≡ true)
    → ((k : ℕ) → contains threads k ≡ true → contains threads' k ≡ true)
    → Sound sources threads tasks channels
    → Sound sources' threads' tasks channels
unfolding Owned
Sound-more {tasks = tasks} f g h = record {
  issued = h.issued;
  distinct = h.distinct;
  owned = All-map _ _ tasks.entries (λ e o. (f e.1.source_id o.0, g e.1.thread_id o.1)) h.owned;
  routed = h.routed;
}

pub Sound-insert :
    (sources threads : List ℕ) (tasks : SlotMap TaskEntry) (channels : List ℕ) (task : TaskEntry)
    → Owned sources threads task
    → Sound sources threads tasks channels
    → Sound sources threads (insert tasks task).0 (channels ++ (insert tasks task).1 ∷ [])
unfolding insert
Sound-insert sources threads tasks channels task o h = record {
  issued =
      All-append _ tasks.entries ((tasks.issued, task) ∷ [])
        (All-map _ _ tasks.entries (λ e lt. omega arith) h.issued) (omega arith, tt);
  distinct = insert-Distinct tasks task h.issued h.distinct;
  owned = All-append _ tasks.entries ((tasks.issued, task) ∷ []) h.owned (o, tt);
  routed =
      All-append _ channels (tasks.issued ∷ [])
        (All-map _ _ channels (contains-insert tasks task) h.routed)
        (contains-insert_key tasks task, tt);
}

pub All-keep :
    (P : ℕ → Type 0) (p : ℕ → Bool) (ks : List ℕ)
    → All P ks
    → All (λ k. P k × (p k ≡ true)) (keep p ks)
unfolding keep
All-keep P p [] h = tt
All-keep P p (k ∷ rest) (q, h) = elim (Bool-cases (p k)) [
  | inl b ↦ rw b ((q, b), All-keep P p rest h)
  | inr b ↦ rw b (All-keep P p rest h)
]

-- Removing tasks leaves a sound state in which no task satisfies the predicate.
pub Sound-remove_tasks_where :
    (predicate : TaskEntry → Bool) (s : Scheduler) (channels : List ℕ)
    → SoundState s channels
    → let (next, left) = remove_tasks_where predicate s channels in
      SoundState next left × All (λ e. predicate e.1 ≡ false) next.tasks.entries
unfolding remove_tasks_where retain
Sound-remove_tasks_where predicate s channels h =
    let opposite : ℕ → TaskEntry → Bool = λ id entry. not (predicate entry) in
    let removed = keys (retain (λ id entry. predicate entry) s.tasks) in
    let kept = All-filter_entries _ opposite s.tasks.entries h.owned in
    (
      record {
        issued =
            All-map _ _ _ (λ e q. q.0) (All-filter_entries _ opposite s.tasks.entries h.issued);
        distinct = retain-Distinct opposite s.tasks h.distinct;
        owned = All-map _ _ _ (λ e q. q.0) kept;
        routed =
            All-map _ _ _ (λ k q. still k q.0 q.1)
              (All-keep _ (λ k. not (contains removed k)) channels h.routed);
      },
      All-map _ _ _ (λ e q. ground arith) kept,
    )
  where
    still :
        (k : ℕ)
        → contains (keys s.tasks) k ≡ true
        → not (contains (keys (retain (λ id entry. predicate entry) s.tasks)) k) ≡ true
        → contains (keys (retain (λ id entry. not (predicate entry)) s.tasks)) k ≡ true
    still k c n = let all = contains-retain predicate s.tasks k in ground arith

-- The tasks of threads without an event stream go, and so may those threads.
pub Sound-drop :
    (events : List ℕ) (s : Scheduler) (channels : List ℕ)
    → SoundState s channels
    → let (next, left) = remove_tasks_where (λ e. not (contains events e.thread_id)) s channels in
      Sound (keys s.sources) (keep (contains events) (keys s.threads)) next.tasks left
unfolding remove_tasks_where Owned
Sound-drop events s channels h =
    let (sound, alive) =
      Sound-remove_tasks_where (λ e. not (contains events e.thread_id)) s channels h in
    let both = All-both _ _ _ sound.owned alive in
    record {
      issued = sound.issued;
      distinct = sound.distinct;
      owned = All-map _ _ _ (λ e q. (q.0.0, there e.1.thread_id q.0.1 q.1)) both;
      routed = sound.routed;
    }
  where
    there :
        (k : ℕ)
        → contains (keys s.threads) k ≡ true
        → not (contains events k) ≡ false
        → contains (keep (contains events) (keys s.threads)) k ≡ true
    there k c n = contains-keep (contains events) (keys s.threads) k ∙ ground arith
