-- ===== src/Scheduler/Slices.antt =====
-- mujina-miner/src/scheduler.rs, `assign_job_to_threads`: how the extranonces of a job are shared out.
use mujina.Common.{
  ℕ, ◌+◌, ◌≤◌, ◌<◌, ◌≡◌, refl, sym, ap, ◌∙◌, subst, arith, Bool, true, false, List, [], ◌∷◌, ◌++◌,
  Option, none, some, ◌==◌, leb, ltb, if◌then◌else◌, All, map, Bool-cases, Option-cases, inl, inr,
  length,
}
use mujina.Extranonce.{ExtranonceRange, split, range_len}
use mujina.Extranonce.Split.{IsRange, SplitOk, Tiles, split-SplitOk}
use mujina.Estimator.{is_zero, sum}
use mujina.Job.{JobTemplate, MerkleRootTemplate, computed}
use mujina.Scheduler.Panic.{◌>>=◌, >>=-found}
use mujina.Scheduler.Slots.{contains, get, put, keys, values}
use mujina.Scheduler.Slots.Keys.{keys-put, All-map, contains-entries, get-contains}
use mujina.Scheduler.State.{
  Scheduler, SourceEntry, ThreadEntry, AssignMode, update, replace, Effect, configure, update_task,
  replace_task, command, telemetry, reply, Rates, clamp, compute_scheduler_target,
  measurement_interval, flood_cap_interval, eligible_of, eligible_thread_ids, remove_tasks_where,
  expected_hashrate, expected_rates, high_difficulty_threshold, is_difficulty_too_high,
}
use mujina.Scheduler.Keeps.{check_difficulty-change_source}
use mujina.Scheduler.Assign.{
  Outcome, silent, aimed_rate, make_task, enter_task, offer, and_then, assign_one, assign_slices,
  change_source, note_job, check_alarm, check_difficulty, invalidate, distribute, assign_kind,
  assign_job_to_threads,
}

-- The threads that are offered a task, each with the extranonces it is to search.
unfoldable pub offered : List Effect → List (ℕ × ExtranonceRange)
offered [] = []
offered (configure id ∷ rest) = offered rest
offered (update_task id task ∷ rest) = elim task.extranonce_range [
  | none ↦ offered rest
  | some range ↦ (id, range) ∷ offered rest
]
offered (replace_task id task ∷ rest) = elim task.extranonce_range [
  | none ↦ offered rest
  | some range ↦ (id, range) ∷ offered rest
]
offered (command id cmd ∷ rest) = offered rest
offered (telemetry sent ∷ rest) = offered rest
offered (reply ∷ rest) = offered rest

-- `zip`.
unfoldable pub zip : List ℕ → List ExtranonceRange → List (ℕ × ExtranonceRange)
zip [] slices = []
zip (id ∷ ids) [] = []
zip (id ∷ ids) (slice ∷ slices) = (id, slice) ∷ zip ids slices

-- The two share rates that a target is kept between, one share a second and ten, are in order: the
-- lower rate has no easier a target. Else the clamp panics.
abbrev pub Ordered : Rates → Type 0
Ordered rates =
    (rate : ℕ) → rates.to_target measurement_interval rate ≤ rates.to_target flood_cap_interval rate

target_found :
    (rates : Rates) (hashrate source_target : ℕ)
    → Ordered rates
    → (t : ℕ) × (compute_scheduler_target rates hashrate source_target ≡ some t)
unfolding compute_scheduler_target
target_found rates hashrate source_target h =
    let lo = rates.to_target measurement_interval hashrate in
    let hi = rates.to_target flood_cap_interval hashrate in
    let le : leb lo hi ≡ true = (let fits = h hashrate in ground arith) in
    elim (Bool-cases (is_zero hashrate)) [
      | inl b ↦ rw (compute_scheduler_target, b) (source_target, refl)
      | inr b ↦ rw (compute_scheduler_target, b, clamp, le) (_, refl)
    ]

offered-append : (xs ys : List Effect) → offered (xs ++ ys) ≡ offered xs ++ offered ys
unfolding offered
offered-append [] ys = refl
offered-append (configure id ∷ rest) ys = offered-append rest ys
offered-append (update_task id task ∷ rest) ys = elim (Option-cases task.extranonce_range) [
  | inl none_there ↦ rw none_there (offered-append rest ys)
  | inr (range, there) ↦ rw there (ap (◌∷◌ (id, range)) (offered-append rest ys))
]
offered-append (replace_task id task ∷ rest) ys = elim (Option-cases task.extranonce_range) [
  | inl none_there ↦ rw none_there (offered-append rest ys)
  | inr (range, there) ↦ rw there (ap (◌∷◌ (id, range)) (offered-append rest ys))
]
offered-append (command id cmd ∷ rest) ys = offered-append rest ys
offered-append (telemetry sent ∷ rest) ys = offered-append rest ys
offered-append (reply ∷ rest) ys = offered-append rest ys

entered-offered :
    (accepted : Bool) (mode : AssignMode) (source_id : ℕ) (template : JobTemplate) (id target : ℕ)
    (range : ExtranonceRange) (s : Scheduler) (channels : List ℕ)
    → let out =
        enter_task accepted source_id template id s channels
          (offer mode id (make_task template range target)) in
      (offered out.effects ≡ (id, range) ∷ []) × (keys out.scheduler.threads ≡ keys s.threads)
unfolding enter_task offer make_task offered
entered-offered true update source_id template id target range s channels = (refl, refl)
entered-offered true replace source_id template id target range s channels = (refl, refl)
entered-offered false update source_id template id target range s channels = (refl, refl)
entered-offered false replace source_id template id target range s channels = (refl, refl)

module _ (rates : Rates) (now : ℕ) (accepts : ℕ → ℕ → Bool) where
  assign_one-offered :
      (mode : AssignMode) (source_id : ℕ) (template : JobTemplate) (id : ℕ)
      (range : ExtranonceRange) (s : Scheduler) (channels : List ℕ)
      → Ordered rates
      → contains (keys s.threads) id ≡ true
      → (out : Outcome) × (assign_one rates now accepts mode source_id template id range s channels
          ≡ some out)
        × (offered out.effects ≡ (id, range) ∷ [])
        × (keys out.scheduler.threads ≡ keys s.threads)
  unfolding assign_one
  assign_one-offered mode source_id template id range s channels ordered there =
      let (entry, found) = get-contains s.threads id there in
      let (asked, hashrate) = aimed_rate now entry in
      let (target, aimed) = target_found rates hashrate template.share_target ordered in
      let next = record s { threads = put s.threads id asked } in
      let (offers, same) =
        entered-offered (accepts id source_id) mode source_id template id target range next
          channels in
      (
        enter_task (accepts id source_id) source_id template id next channels
            (offer mode id (make_task template range target)),
        >>=-found (get s.threads id) _ found
            ∙ >>=-found (compute_scheduler_target rates hashrate template.share_target) _ aimed,
        offers,
        same ∙ keys-put s.threads id asked,
      )

  assign_slices-offered :
      (mode : AssignMode) (source_id : ℕ) (template : JobTemplate) (ids : List ℕ)
      (slices : List ExtranonceRange) (s : Scheduler) (channels : List ℕ)
      → Ordered rates
      → All (λ id. contains (keys s.threads) id ≡ true) ids
      → (out : Outcome) × (assign_slices rates now accepts mode source_id template ids slices s
            channels
          ≡ some out)
        × (offered out.effects ≡ zip ids slices)
  unfolding assign_slices and_then zip silent offered
  assign_slices-offered mode source_id template [] slices s channels ordered all =
      (silent s channels, refl, refl)
  assign_slices-offered mode source_id template (id ∷ ids) [] s channels ordered all =
      (silent s channels, refl, refl)
  assign_slices-offered mode source_id template (id ∷ ids) (slice ∷ slices) s channels ordered
        (there, all) =
      let (first, made, one, same) =
        assign_one-offered mode source_id template id slice s channels ordered there in
      let (rest, ran, others) =
        assign_slices-offered mode source_id template ids slices first.scheduler
          first.share_channels ordered
          (All-map _ _ ids (λ k c. ap (λ ks. contains ks k) same ∙ c) all) in
      (
        record rest { effects = first.effects ++ rest.effects },
        >>=-found (assign_one rates now accepts mode source_id template id slice s channels) _ made
            ∙ >>=-found
                (assign_slices rates now accepts mode source_id template ids slices first.scheduler
                  first.share_channels)
                _ ran,
        offered-append first.effects rest.effects
            ∙ ap (λ xs. xs ++ offered rest.effects) one
            ∙ ap (◌∷◌ (id, slice)) others,
      )

zip_parts :
    (ids : List ℕ) (slices : List ExtranonceRange)
    → length slices ≡ length ids
    → (map (λ o. o.0) (zip ids slices) ≡ ids) × (map (λ o. o.1) (zip ids slices) ≡ slices)
unfolding zip
zip_parts [] [] e = (refl, refl)
zip_parts [] (slice ∷ slices) e = absurd (ground arith)
zip_parts (id ∷ ids) [] e = absurd (ground arith)
zip_parts (id ∷ ids) (slice ∷ slices) e =
    let (a, b) = zip_parts ids slices (ground arith) in (ap (◌∷◌ id) a, ap (◌∷◌ slice) b)

-- The eligible threads are among the threads.
eligible_threads :
    (ks : List ℕ) (entries : List (ℕ × ThreadEntry))
    → All (λ e. contains ks e.0 ≡ true) entries
    → All (λ id. contains ks id ≡ true) (eligible_of entries)
unfolding eligible_of
eligible_threads ks [] all = tt
eligible_threads ks ((id, entry) ∷ rest) (there, all) = elim (Option-cases entry.expected) [
  | inl unknown ↦ rw unknown (eligible_threads ks rest all)
  | inr (rate, known) ↦ rw known (there, eligible_threads ks rest all)
]

eligible_are_threads :
    (s : Scheduler) → All (λ id. contains (keys s.threads) id ≡ true) (eligible_thread_ids s)
unfolding eligible_thread_ids
eligible_are_threads s =
    eligible_threads (keys s.threads) s.threads.entries (contains-entries s.threads)

length-eligible_of :
    (entries : List (ℕ × ThreadEntry)) → length (eligible_of entries) ≤ length entries
unfolding eligible_of
length-eligible_of [] = omega arith
length-eligible_of ((id, entry) ∷ rest) =
    let le = length-eligible_of rest in
    elim (Option-cases entry.expected) [
      | inl unknown ↦ rw unknown (omega arith)
      | inr (rate, known) ↦ rw known (omega arith)
    ]

length-eligible_thread_ids :
    (s : Scheduler) → length (eligible_thread_ids s) ≤ length s.threads.entries
unfolding eligible_thread_ids
length-eligible_thread_ids s = length-eligible_of s.threads.entries

eligible_same :
    (s next : Scheduler)
    → next.threads ≡ s.threads
    → eligible_thread_ids next ≡ eligible_thread_ids s
unfolding eligible_thread_ids
eligible_same s next e = ap (λ threads. eligible_of threads.entries) e

expected_same :
    (s next : Scheduler) → next.threads ≡ s.threads → expected_hashrate next ≡ expected_hashrate s
unfolding expected_hashrate
expected_same s next e = ap (λ threads. sum (expected_rates (values threads))) e

split_found :
    (range : ExtranonceRange) (n : ℕ)
    → IsRange range
    → 0 < n
    → n ≤ range_len range
    → (slices : List ExtranonceRange) × (split range n ≡ some slices)
      × (length slices ≡ n)
      × Tiles range.width range.first (range.last + 1) slices
unfolding SplitOk
split_found range n is pos le = elim (Option-cases (split range n)) [
  | inl panics ↦
      let no : SplitOk range n none = subst (SplitOk range n) panics (split-SplitOk range n is) in
      absurd (ground arith)
  | inr (slices, made) ↦
      let (len, tiles, even) = subst (SplitOk range n) made (split-SplitOk range n is) in
      (slices, made, len, tiles)
]

pub change_source-threads :
    (f : SourceEntry → SourceEntry) (source_id : ℕ) (s : Scheduler)
    → (change_source f source_id s).threads ≡ s.threads
unfolding change_source
change_source-threads f source_id s = elim (Option-cases (get s.sources source_id)) [
  | inl none_there ↦ rw (change_source, none_there) refl
  | inr (source, found) ↦ rw (change_source, found) refl
]

check_difficulty-threads :
    (rates : Rates) (now source_id : ℕ) (template : JobTemplate) (s : Scheduler)
    {checked : Scheduler}
    → check_difficulty rates now source_id template s ≡ some checked
    → checked.threads ≡ s.threads
check_difficulty-threads rates now source_id template s e =
    let (f, is) = check_difficulty-change_source rates now source_id template s e in
    sym (ap (λ next. next.threads) is) ∙ change_source-threads f source_id s

-- The check of the difficulty does not panic where the time to a share is a duration.
difficulty_checked :
    (rates : Rates) (now source_id : ℕ) (template : JobTemplate) (s : Scheduler) {interval : ℕ}
    → rates.time_to_share template.share_target (expected_hashrate s) ≡ some interval
    → (checked : Scheduler) × (check_difficulty rates now source_id template s ≡ some checked)
unfolding check_difficulty is_difficulty_too_high
difficulty_checked rates now source_id template s {interval} timely =
    elim (Option-cases (get s.sources source_id)) [
      | inl none_there ↦ (s, rw (check_difficulty, none_there) refl)
      | inr (source, found) ↦
          let told : Bool → Scheduler =
            λ b. record s { sources = put s.sources source_id (check_alarm now b source) } in
          elim (Bool-cases (is_zero (expected_hashrate s))) [
            | inl idle ↦ (told false, rw (check_difficulty, found, idle) refl)
            | inr busy ↦ (
              told (ltb high_difficulty_threshold interval),
              rw (check_difficulty, found, busy, timely) refl,
            )
          ]
    ]

invalidate-threads :
    (mode : AssignMode) (source_id : ℕ) (s : Scheduler) (channels : List ℕ)
    → (invalidate mode source_id s channels).0.threads ≡ s.threads
unfolding invalidate remove_tasks_where
invalidate-threads update source_id s channels = refl
invalidate-threads replace source_id s channels = refl

-- What it is to hand a range out to these threads: the call does not panic, each of them is offered a
-- task in turn and no other thread is, and the ranges offered tile the whole.
unfoldable pub HandedOut : List ℕ → ExtranonceRange → Option Outcome → Type 0
unfolding offered
HandedOut ids range result =
    (out : Outcome) × (result ≡ some out)
    × (map (λ o. o.0) (offered out.effects) ≡ ids)
    × Tiles range.width range.first (range.last + 1) (map (λ o. o.1) (offered out.effects))

module _ (rates : Rates) (now : ℕ) (accepts : ℕ → ℕ → Bool) where
  distribute-HandedOut :
      (mode : AssignMode) (source_id : ℕ) (template : JobTemplate) (range : ExtranonceRange)
      (s : Scheduler) (channels : List ℕ)
      → Ordered rates
      → IsRange range
      → 0 < length (eligible_thread_ids s)
      → length (eligible_thread_ids s) ≤ range_len range
      → HandedOut
          (eligible_thread_ids s)
          range
          (distribute rates now accepts mode source_id template range s channels)
  unfolding distribute HandedOut
  distribute-HandedOut mode source_id template range s channels ordered is pos le =
      let ids = eligible_thread_ids s in
      let (slices, made, len, tiles) = split_found range (length ids) is pos le in
      let (out, ran, given) =
        assign_slices-offered rates now accepts mode source_id template ids slices s channels
          ordered (eligible_are_threads s) in
      let (whose, which) = zip_parts ids slices len in
      let some_there : length ids == 0 ≡ false = ground arith in
      let give : List ExtranonceRange → Option Outcome =
        λ slices. assign_slices rates now accepts mode source_id template ids slices s channels in
      (
        out,
        ap (λ b. if b then some (silent s channels) else split range (length ids) >>= give)
              some_there
            ∙ >>=-found (split range (length ids)) give made
            ∙ ran,
        ap (map (λ o. o.0)) given ∙ whose,
        subst (Tiles range.width range.first (range.last + 1))
            (sym (ap (map (λ o. o.1)) given ∙ which)) tiles,
      )

  assign_kind-HandedOut :
      (mode : AssignMode) (source_id : ℕ) (template : JobTemplate) (merkle : MerkleRootTemplate)
      (s : Scheduler) (channels : List ℕ) {interval : ℕ}
      → Ordered rates
      → rates.time_to_share template.share_target (expected_hashrate s) ≡ some interval
      → IsRange merkle.extranonce_range
      → 0 < length (eligible_thread_ids s)
      → length (eligible_thread_ids s) ≤ range_len merkle.extranonce_range
      → HandedOut
          (eligible_thread_ids s)
          merkle.extranonce_range
          (assign_kind rates now accepts mode source_id template (computed merkle) s channels)
  unfolding assign_kind
  assign_kind-HandedOut mode source_id template merkle s channels ordered timely is pos le =
      let noted = change_source (note_job template) source_id s in
      let kept = change_source-threads (note_job template) source_id s in
      let (checked, passed) =
        difficulty_checked rates now source_id template noted
          (ap (rates.time_to_share template.share_target) (expected_same s noted kept) ∙ timely) in
      let (left, open_channels) = invalidate mode source_id checked channels in
      let threads =
        invalidate-threads mode source_id checked channels
        ∙ check_difficulty-threads rates now source_id template noted passed
        ∙ kept in
      let same = eligible_same s left threads in
      let number = ap (λ ids. length ids) same in
      let bound = length-eligible_thread_ids s in
      let entries = ap (λ t. length t.entries) kept in
      let some_there : length noted.threads.entries == 0 ≡ false = ground arith in
      rw (assign_kind, some_there, passed)
        (subst
          (λ ids. HandedOut ids merkle.extranonce_range (
            distribute rates now accepts mode source_id template merkle.extranonce_range left
              open_channels))
          same
          (distribute-HandedOut mode source_id template merkle.extranonce_range left open_channels
            ordered is (omega arith) (omega arith)))

-- Let a job with a computed merkle root come while at least one thread is eligible and there are no
-- more of these than extranonces, with a range in order and within the counter. Let the target of one
-- share a second be no easier than that of ten, at every hash rate, and let the time to a share of the
-- job, at the hash rate expected of all threads, be one that a duration can hold. Whichever threads
-- then refuse, the call does not panic, offers each eligible thread one task and no other thread any,
-- and the ranges of these tasks follow each other from the first extranonce of the job to its last,
-- without gap or overlap.
pub assign_job_to_threads-HandedOut :
    (rates : Rates) (now : ℕ) (accepts : ℕ → ℕ → Bool) (mode : AssignMode) (source_id : ℕ)
    (template : JobTemplate) (merkle : MerkleRootTemplate) (s : Scheduler) (channels : List ℕ)
    (interval : ℕ)
    → template.merkle_root ≡ computed merkle
    → Ordered rates
    → rates.time_to_share template.share_target (expected_hashrate s) ≡ some interval
    → IsRange merkle.extranonce_range
    → 0 < length (eligible_thread_ids s)
    → length (eligible_thread_ids s) ≤ range_len merkle.extranonce_range
    → HandedOut
        (eligible_thread_ids s)
        merkle.extranonce_range
        (assign_job_to_threads rates now accepts mode source_id template s channels)
unfolding assign_job_to_threads
assign_job_to_threads-HandedOut rates now accepts mode source_id template merkle s channels interval
      e ordered timely is pos le =
    subst
      (λ kind.
        HandedOut (eligible_thread_ids s) merkle.extranonce_range
          (assign_kind rates now accepts mode source_id template kind s channels))
      (sym e)
      (assign_kind-HandedOut rates now accepts mode source_id template merkle s channels ordered
        timely is pos le)
