-- ===== src/Scheduler/Keeps/Assign.antt =====
-- mujina-miner/src/scheduler.rs: handing work to threads leaves a sound state.
use mujina.Common.{
  ℕ, ◌≡◌, refl, ap, ◌∙◌, subst, Bool, true, List, [], ◌∷◌, Option, none, some, ◌==◌, All, inl, inr,
  length,
}
use mujina.Extranonce.{ExtranonceRange, split}
use mujina.Job.{JobTemplate, MerkleRootKind, fixed, computed}
use mujina.Scheduler.Panic.{>>=-some, some_is, if_some}
use mujina.Scheduler.Slots.{contains, get, put, keys}
use mujina.Scheduler.Slots.Keys.{keys-put, contains-get, contains-entries, All-map}
use mujina.Scheduler.State.{
  Scheduler, SourceEntry, AssignMode, Rates, update_task, eligible_thread_ids,
  compute_scheduler_target,
}
use mujina.Scheduler.Assign.{
  Outcome, silent, change_source, invalidate, assign_one, assign_slices, distribute,
  assign_job_to_threads, note_job, check_difficulty, assign_cached_one, assign_cached_from,
  assign_cached_jobs_to_thread, aimed_rate, offer, make_task, assign_kind, assign_cached_of,
}
use mujina.Scheduler.Sound.{SoundState}
use mujina.Scheduler.Keeps.{
  Keeps, silent-Keeps, Keeps-trans, Keeps-from, and_then-Keeps, enter_task-Keeps, put_thread,
  change_source-Keeps, check_difficulty-Keeps, invalidate-Keeps,
}

module _ (rates : Rates) (now : ℕ) (accepts : ℕ → ℕ → Bool) where
  assign_one-Keeps :
      (mode : AssignMode) (source_id : ℕ) (template : JobTemplate) (thread_id : ℕ)
      (range : ExtranonceRange) (s : Scheduler) (channels : List ℕ) {out : Outcome}
      → contains (keys s.sources) source_id ≡ true
      → SoundState s channels
      → assign_one rates now accepts mode source_id template thread_id range s channels ≡ some out
      → Keeps s out
  unfolding assign_one
  assign_one-Keeps mode source_id template thread_id range s channels {out} src h e =
      let (entry, found, aims) = >>=-some (get s.threads thread_id) _ e in
      let asked = (aimed_rate now entry).0 in
      let rate = (aimed_rate now entry).1 in
      let (share_target, aimed, is) =
        >>=-some (compute_scheduler_target rates rate template.share_target) _ aims in
      let same = keys-put s.threads thread_id asked in
      let thr : contains (keys (put s.threads thread_id asked)) thread_id ≡ true =
        ap (λ ks. contains ks thread_id) same ∙ contains-get s.threads thread_id found in
      let next = record s { threads = put s.threads thread_id asked } in
      subst (Keeps s) (some_is is) (
        Keeps-from s next refl same refl refl (
          enter_task-Keeps (accepts thread_id source_id) source_id template thread_id next channels
            (offer mode thread_id (make_task template range share_target)) src thr
            (put_thread s channels thread_id asked h)))

  assign_slices-Keeps :
      (mode : AssignMode) (source_id : ℕ) (template : JobTemplate) (ids : List ℕ)
      (slices : List ExtranonceRange) (s : Scheduler) (channels : List ℕ) {out : Outcome}
      → contains (keys s.sources) source_id ≡ true
      → SoundState s channels
      → assign_slices rates now accepts mode source_id template ids slices s channels ≡ some out
      → Keeps s out
  unfolding assign_slices
  assign_slices-Keeps mode source_id template [] slices s channels src h e =
      subst (Keeps s) (some_is e) (silent-Keeps s channels h)
  assign_slices-Keeps mode source_id template (id ∷ ids) [] s channels src h e =
      subst (Keeps s) (some_is e) (silent-Keeps s channels h)
  assign_slices-Keeps mode source_id template (id ∷ ids) (range ∷ slices) s channels src h e =
      let (first, ran, rest) =
        >>=-some (assign_one rates now accepts mode source_id template id range s channels) _ e in
      let k = assign_one-Keeps mode source_id template id range s channels src h ran in
      and_then-Keeps first (assign_slices rates now accepts mode source_id template ids slices) k
        (λ next r.
          assign_slices-Keeps mode source_id template ids slices first.scheduler
            first.share_channels (ap (λ ks. contains ks source_id) k.same_sources ∙ src) k.sound r)
        rest

  pub distribute-Keeps :
      (mode : AssignMode) (source_id : ℕ) (template : JobTemplate) (range : ExtranonceRange)
      (s : Scheduler) (channels : List ℕ) {out : Outcome}
      → contains (keys s.sources) source_id ≡ true
      → SoundState s channels
      → distribute rates now accepts mode source_id template range s channels ≡ some out
      → Keeps s out
  unfolding distribute
  distribute-Keeps mode source_id template range s channels {out} src h e =
      let ids = eligible_thread_ids s in
      elim (if_some (length ids == 0) e) [
        | inl (b, is) ↦ subst (Keeps s) (some_is is) (silent-Keeps s channels h)
        | inr (b, is) ↦
            let (slices, cut, ran) = >>=-some (split range (length ids)) _ is in
            assign_slices-Keeps mode source_id template ids slices s channels src h ran
      ]

  assign_kind-Keeps :
      (mode : AssignMode) (source_id : ℕ) (template : JobTemplate) (kind : MerkleRootKind)
      (s : Scheduler) (channels : List ℕ) {out : Outcome}
      → contains (keys s.sources) source_id ≡ true
      → SoundState s channels
      → assign_kind rates now accepts mode source_id template kind s channels ≡ some out
      → Keeps s out
  unfolding assign_kind silent
  assign_kind-Keeps mode source_id template (fixed root) s channels src h e =
      subst (Keeps s) (some_is e) (silent-Keeps s channels h)
  assign_kind-Keeps mode source_id template (computed merkle) s channels src h e =
      let noted = change_source (note_job template) source_id s in
      let a = change_source-Keeps (note_job template) source_id s channels h in
      elim (if_some (length noted.threads.entries == 0) e) [
        | inl (none_there, is) ↦ subst (Keeps s) (some_is is) a
        | inr (some_there, is) ↦
            let (checked, passed, ran) =
              >>=-some (check_difficulty rates now source_id template noted) _ is in
            let b =
              Keeps-trans a (
                check_difficulty-Keeps rates now source_id template noted channels a.sound
                  passed) in
            let (left, open_channels) = invalidate mode source_id checked channels in
            let c = Keeps-trans b (invalidate-Keeps mode source_id checked channels b.sound) in
            Keeps-trans c (
              distribute-Keeps mode source_id template merkle.extranonce_range left open_channels
                (ap (λ ks. contains ks source_id) c.same_sources ∙ src) c.sound ran)
      ]

  pub assign_job_to_threads-Keeps :
      (mode : AssignMode) (source_id : ℕ) (template : JobTemplate) (s : Scheduler)
      (channels : List ℕ) {out : Outcome}
      → contains (keys s.sources) source_id ≡ true
      → SoundState s channels
      → assign_job_to_threads rates now accepts mode source_id template s channels ≡ some out
      → Keeps s out
  unfolding assign_job_to_threads
  assign_job_to_threads-Keeps mode source_id template s channels src h e =
      assign_kind-Keeps mode source_id template template.merkle_root s channels src h e

  assign_cached_one-Keeps :
      (thread_id hashrate source_id : ℕ) (template : JobTemplate) (kind : MerkleRootKind)
      (s : Scheduler) (channels : List ℕ) {out : Outcome}
      → contains (keys s.sources) source_id ≡ true
      → contains (keys s.threads) thread_id ≡ true
      → SoundState s channels
      → assign_cached_one rates now accepts thread_id hashrate source_id template kind s channels
        ≡ some out
      → Keeps s out
  unfolding assign_cached_one
  assign_cached_one-Keeps thread_id hashrate source_id template (fixed root) s channels src thr h
        e =
      subst (Keeps s) (some_is e) (silent-Keeps s channels h)
  assign_cached_one-Keeps thread_id hashrate source_id template (computed merkle) s channels src thr
        h e =
      let (share_target, aimed, is) =
        >>=-some (compute_scheduler_target rates hashrate template.share_target) _ e in
      subst (Keeps s) (some_is is) (
        enter_task-Keeps (accepts thread_id source_id) source_id template thread_id s channels
          (update_task thread_id (make_task template merkle.extranonce_range share_target)) src thr
          h)

  assign_cached_of-Keeps :
      (thread_id hashrate source_id : ℕ) (job : Option JobTemplate) (s : Scheduler)
      (channels : List ℕ) {out : Outcome}
      → contains (keys s.sources) source_id ≡ true
      → contains (keys s.threads) thread_id ≡ true
      → SoundState s channels
      → assign_cached_of rates now accepts thread_id hashrate source_id job s channels ≡ some out
      → Keeps s out
  unfolding assign_cached_of
  assign_cached_of-Keeps thread_id hashrate source_id none s channels src thr h e =
      subst (Keeps s) (some_is e) (silent-Keeps s channels h)
  assign_cached_of-Keeps thread_id hashrate source_id (some template) s channels src thr h e =
      assign_cached_one-Keeps thread_id hashrate source_id template template.merkle_root s channels
        src thr h e

  assign_cached_from-Keeps :
      (thread_id hashrate : ℕ) (entries : List (ℕ × SourceEntry)) (s : Scheduler)
      (channels : List ℕ) {out : Outcome}
      → All (λ e. contains (keys s.sources) e.0 ≡ true) entries
      → contains (keys s.threads) thread_id ≡ true
      → SoundState s channels
      → assign_cached_from rates now accepts thread_id hashrate entries s channels ≡ some out
      → Keeps s out
  unfolding assign_cached_from
  assign_cached_from-Keeps thread_id hashrate [] s channels all thr h e =
      subst (Keeps s) (some_is e) (silent-Keeps s channels h)
  assign_cached_from-Keeps thread_id hashrate ((id, source) ∷ rest) s channels (src, all) thr h e =
      let (first, ran, more) =
        >>=-some
          (assign_cached_of rates now accepts thread_id hashrate id source.last_job s channels) _
          e in
      let k =
        assign_cached_of-Keeps thread_id hashrate id source.last_job s channels src thr h ran in
      and_then-Keeps first (assign_cached_from rates now accepts thread_id hashrate rest) k
        (λ next r.
          assign_cached_from-Keeps thread_id hashrate rest first.scheduler first.share_channels
            (All-map _ _ rest (λ e c. ap (λ ks. contains ks e.0) k.same_sources ∙ c) all)
            (ap (λ ks. contains ks thread_id) k.same_threads ∙ thr) k.sound r)
        more

  pub assign_cached_jobs_to_thread-Keeps :
      (thread_id : ℕ) (s : Scheduler) (channels : List ℕ) {out : Outcome}
      → SoundState s channels
      → assign_cached_jobs_to_thread rates now accepts thread_id s channels ≡ some out
      → Keeps s out
  unfolding assign_cached_jobs_to_thread
  assign_cached_jobs_to_thread-Keeps thread_id s channels h e =
      let (entry, found, ran) = >>=-some (get s.threads thread_id) _ e in
      let asked = (aimed_rate now entry).0 in
      let same = keys-put s.threads thread_id asked in
      let next = record s { threads = put s.threads thread_id asked } in
      Keeps-from s next refl same refl refl (
        assign_cached_from-Keeps thread_id (aimed_rate now entry).1 s.sources.entries next channels
          (contains-entries s.sources)
          (ap (λ ks. contains ks thread_id) same ∙ contains-get s.threads thread_id found)
          (put_thread s channels thread_id asked h) ran)
