-- ===== src/Alarm/Run.antt =====
-- mujina-miner/src/types/debounced_alarm.rs: the statuses over a whole sequence of checks.
use mujina.Common.{ℕ, ◌-◌, ◌≤◌, ◌≡◌, refl, sym, ap, ◌∙◌, arith, Bool, true, false, leb}
use mujina.Common.{subst, ◌⊎◌, not, ◌&&◌, List, [], ◌∷◌, Bool-cases, inl, inr, Option, some, none}
use mujina.Alarm.{AlarmStatus, State, DebouncedAlarm, new, check_state, check}

-- The alarm and the statuses after checks at the given times with the given conditions.
unfoldable pub run : DebouncedAlarm → List (ℕ × Bool) → DebouncedAlarm × List AlarmStatus
unfolding check check_state
run alarm [] = (alarm, [])
run alarm ((now, condition) ∷ rest) =
    let (next, status) = check alarm now condition in
    let (last, statuses) = run next rest in (last, status ∷ statuses)

-- What the history of the checks so far says, apart from the alarm: the time since which the
-- condition has held at every check, if it held at the last one, and whether it was reported.
unfoldable pub held_since : Option ℕ → List (ℕ × Bool) → Option ℕ
held_since since [] = since
held_since since ((now, false) ∷ rest) = held_since none rest
held_since none ((now, true) ∷ rest) = held_since (some now) rest
held_since (some t) ((now, true) ∷ rest) = held_since (some t) rest

-- How the state stands to the history: idle if the condition did not hold at the last check, else
-- timing from the start of the time it has held, or fired.
Follows : Option ℕ → State → Type 0
Follows none State.idle = Unit {0}
Follows none (State.timing t) = ⊥
Follows none State.fired = ⊥
Follows (some t) State.idle = ⊥
Follows (some t) (State.timing since) = t ≡ since
Follows (some t) State.fired = Unit {0}

run-Follows :
    (debounce : ℕ) (since : Option ℕ) (state : State) (history : List (ℕ × Bool))
    → Follows since state
    → Follows
        (held_since since history)
        (run (record { debounce = debounce; state = state }) history).0.state
unfolding run held_since check_state Follows
run-Follows debounce since state [] f = f
run-Follows debounce none State.idle ((now, false) ∷ rest) f =
    run-Follows debounce none State.idle rest tt
run-Follows debounce none State.idle ((now, true) ∷ rest) f =
    run-Follows debounce (some now) (State.timing now) rest refl
run-Follows debounce none (State.timing t) ((now, c) ∷ rest) f = absurd f
run-Follows debounce none State.fired ((now, c) ∷ rest) f = absurd f
run-Follows debounce (some t) State.idle ((now, c) ∷ rest) f = absurd f
run-Follows debounce (some t) (State.timing since) ((now, false) ∷ rest) f =
    run-Follows debounce none State.idle rest tt
run-Follows debounce (some t) (State.timing since) ((now, true) ∷ rest) f =
    elim (Bool-cases (leb debounce (now - since))) [
      | inl h ↦ rw h (run-Follows debounce (some t) State.fired rest tt)
      | inr h ↦ rw h (run-Follows debounce (some t) (State.timing since) rest f)
    ]
run-Follows debounce (some t) State.fired ((now, false) ∷ rest) f =
    run-Follows debounce none State.idle rest tt
run-Follows debounce (some t) State.fired ((now, true) ∷ rest) f =
    run-Follows debounce (some t) State.fired rest tt

-- Whether the statuses may follow each other, from an alarm that has fired or not: one is triggered
-- only if it has not, active or resolved only if it has, and idle or pending only if it has not.
unfoldable pub alternates : Bool → List AlarmStatus → Bool
alternates fired [] = true
alternates fired (AlarmStatus.idle ∷ rest) = not fired && alternates false rest
alternates fired (AlarmStatus.pending ∷ rest) = not fired && alternates false rest
alternates fired (AlarmStatus.triggered ∷ rest) = not fired && alternates true rest
alternates fired (AlarmStatus.active ∷ rest) = fired && alternates true rest
alternates fired (AlarmStatus.resolved ∷ rest) = fired && alternates false rest

has_fired : State → Bool
has_fired State.idle = false
has_fired (State.timing t) = false
has_fired State.fired = true

run-alternates_from :
    (debounce : ℕ) (state : State) (checks : List (ℕ × Bool))
    → alternates (has_fired state) (run (record { debounce = debounce; state = state }) checks).1
      ≡ true
unfolding run check_state alternates has_fired
run-alternates_from debounce state [] = refl
run-alternates_from debounce State.idle ((now, false) ∷ rest) =
    run-alternates_from debounce State.idle rest
run-alternates_from debounce State.idle ((now, true) ∷ rest) =
    run-alternates_from debounce (State.timing now) rest
run-alternates_from debounce (State.timing t) ((now, false) ∷ rest) =
    run-alternates_from debounce State.idle rest
run-alternates_from debounce (State.timing t) ((now, true) ∷ rest) =
    elim (Bool-cases (leb debounce (now - t))) [
      | inl h ↦ rw h (run-alternates_from debounce State.fired rest)
      | inr h ↦ rw h (run-alternates_from debounce (State.timing t) rest)
    ]
run-alternates_from debounce State.fired ((now, false) ∷ rest) =
    run-alternates_from debounce State.idle rest
run-alternates_from debounce State.fired ((now, true) ∷ rest) =
    run-alternates_from debounce State.fired rest

-- Over any checks of a new alarm, it triggers at most once until it resolves: between two triggered
-- statuses stands a resolved one, and active and resolved come only after a triggered one.
pub run-alternates :
    (debounce : ℕ) (checks : List (ℕ × Bool))
    → alternates false (run (new debounce) checks).1 ≡ true
unfolding new has_fired
run-alternates debounce checks = run-alternates_from debounce State.idle checks

run-debounce :
    (alarm : DebouncedAlarm) (checks : List (ℕ × Bool))
    → (run alarm checks).0.debounce ≡ alarm.debounce
unfolding run
run-debounce alarm [] = refl
run-debounce alarm ((now, condition) ∷ rest) = run-debounce (check alarm now condition).0 rest

Sustained : ℕ → Option ℕ → ℕ → Bool → Type 0
Sustained debounce since now condition =
    (t : ℕ) × (since ≡ some t) × (condition ≡ true) × (debounce ≤ now - t)

triggered-Sustained :
    (debounce : ℕ) (since : Option ℕ) (state : State) (now : ℕ) (condition : Bool)
    → Follows since state
    → (check_state debounce state now condition).1 ≡ AlarmStatus.triggered
    → Sustained debounce since now condition
unfolding Follows check_state Sustained
triggered-Sustained debounce since State.idle now false f e = absurd (ground arith)
triggered-Sustained debounce since State.idle now true f e = absurd (ground arith)
triggered-Sustained debounce none (State.timing t) now condition f e = absurd f
triggered-Sustained debounce (some t) (State.timing u) now false f e = absurd (ground arith)
triggered-Sustained debounce (some t) (State.timing u) now true f e = (t, refl, refl, ground arith)
triggered-Sustained debounce since State.fired now false f e = absurd (ground arith)
triggered-Sustained debounce since State.fired now true f e = absurd (ground arith)

sustained_reported :
    (debounce : ℕ) (t : ℕ) (state : State) (now : ℕ)
    → Follows (some t) state
    → debounce ≤ now - t
    → ((check_state debounce state now true).1 ≡ AlarmStatus.triggered)
      ⊎ ((check_state debounce state now true).1 ≡ AlarmStatus.active)
unfolding Follows check_state
sustained_reported debounce t State.idle now f h = absurd f
sustained_reported debounce t (State.timing u) now f h = inl (ground arith)
sustained_reported debounce t State.fired now f h = inr refl

check_after :
    (debounce : ℕ) (history : List (ℕ × Bool)) (now : ℕ) (condition : Bool)
    → (check (run (new debounce) history).0 now condition).1
      ≡ (check_state debounce (run (new debounce) history).0.state now condition).1
unfolding check new
check_after debounce history now condition =
    ap (λ d. (check_state d (run (new debounce) history).0.state now condition).1)
      (run-debounce (new debounce) history)

-- A new alarm triggers, after any checks, only at a check whose condition is true, when it was true
-- at every check since a time that lies at least the debounce duration back.
pub check-triggered :
    (debounce : ℕ) (history : List (ℕ × Bool)) (now : ℕ) (condition : Bool)
    → (check (run (new debounce) history).0 now condition).1 ≡ AlarmStatus.triggered
    → (t : ℕ) × (held_since none history ≡ some t) × (condition ≡ true) × (debounce ≤ now - t)
unfolding new Sustained Follows
check-triggered debounce history now condition e =
    triggered-Sustained debounce (held_since none history) _ now condition
      (run-Follows debounce none State.idle history tt)
      (sym (check_after debounce history now condition) ∙ e)

-- If the condition has been true at every check since a time that lies at least the debounce
-- duration back, a check with a true condition reports it: the alarm triggers or is active.
pub check-reports :
    (debounce : ℕ) (history : List (ℕ × Bool)) (now t : ℕ)
    → held_since none history ≡ some t
    → debounce ≤ now - t
    → ((check (run (new debounce) history).0 now true).1 ≡ AlarmStatus.triggered)
      ⊎ ((check (run (new debounce) history).0 now true).1 ≡ AlarmStatus.active)
unfolding new Follows
check-reports debounce history now t held h = rw (check_after debounce history now true) (
    sustained_reported debounce t _ now
      (subst (λ o. Follows o (run (new debounce) history).0.state) held
        (run-Follows debounce none State.idle history tt))
      h)
