-- ===== src/Scheduler/Gate.antt =====
-- mujina-miner/src/scheduler.rs, `StartupGate`: the gate that holds back the first broadcast to the
-- sources until the threads present at the start have reported, and what it does over any events.
use mujina.Common.{ℕ, ◌+◌, ◌≡◌, refl, sym, ap, ◌∙◌, arith, Bool, true, false, not, ◌&&◌}
use mujina.Common.{◌⊎◌, inl, inr, List, [], ◌∷◌, leb, if◌then◌else◌, from_bool, ◌||◌}

pub record StartupGate : Type 0 where
  pub registered : ℕ
  pub reported : ℕ
  pub enumeration_complete : Bool
  pub open_ : Bool

unfoldable pub new : StartupGate
new = record { registered = 0; reported = 0; enumeration_complete = false; open_ = false }

unfoldable pub is_holding : StartupGate → Bool
is_holding gate = not gate.open_

unfoldable pub try_open : StartupGate → StartupGate
try_open gate =
    if gate.enumeration_complete && leb gate.registered gate.reported
    then record gate { open_ = true }
    else gate

unfoldable pub record_registered : StartupGate → StartupGate
record_registered gate =
    if not gate.open_ then record gate { registered = gate.registered + 1 } else gate

unfoldable pub record_reported : StartupGate → StartupGate
unfolding try_open
record_reported gate =
    if not gate.open_ then try_open (record gate { reported = gate.reported + 1 }) else gate

unfoldable pub record_enumeration_complete : StartupGate → StartupGate
unfolding try_open
record_enumeration_complete gate =
    if not gate.open_ then try_open (record gate { enumeration_complete = true }) else gate

unfoldable pub record_timeout : StartupGate → StartupGate
record_timeout gate = record gate { open_ = true }

pub data GateEvent : Type 0 where
  registers : GateEvent
  reports : GateEvent
  completes : GateEvent
  times_out : GateEvent

unfoldable pub step : StartupGate → GateEvent → StartupGate
unfolding record_registered record_reported record_enumeration_complete record_timeout
step gate registers = record_registered gate
step gate reports = record_reported gate
step gate completes = record_enumeration_complete gate
step gate times_out = record_timeout gate

unfoldable pub run : StartupGate → List GateEvent → StartupGate
unfolding step
run gate [] = gate
run gate (event ∷ rest) = run (step gate event) rest

-- The events of a history, counted and sought apart from the gate.
is_registers : GateEvent → Bool
is_registers registers = true
is_registers reports = false
is_registers completes = false
is_registers times_out = false

is_reports : GateEvent → Bool
is_reports registers = false
is_reports reports = true
is_reports completes = false
is_reports times_out = false

is_completes : GateEvent → Bool
is_completes registers = false
is_completes reports = false
is_completes completes = true
is_completes times_out = false

is_times_out : GateEvent → Bool
is_times_out registers = false
is_times_out reports = false
is_times_out completes = false
is_times_out times_out = true

unfoldable pub count : (GateEvent → Bool) → List GateEvent → ℕ
count p [] = 0
count p (event ∷ rest) = from_bool (p event) + count p rest

unfoldable pub any : (GateEvent → Bool) → List GateEvent → Bool
any p [] = false
any p (event ∷ rest) = p event || any p rest

-- Whether a history gives no cause to open: it has no timeout, and either the enumeration is not
-- complete or a thread that registered has not reported.
unfoldable pub waiting : List GateEvent → Bool
unfolding count any is_registers is_reports is_completes is_times_out
waiting events =
    not (any is_times_out events)
    && not (any is_completes events && leb (count is_registers events) (count is_reports events))

-- Whether that is so after each of the events, the ones seen before them in reverse order.
unfoldable pub waits : List GateEvent → List GateEvent → Bool
unfolding waiting
waits seen [] = waiting seen
waits seen (event ∷ rest) = waiting seen && waits (event ∷ seen) rest

opened : ℕ → ℕ → Bool → StartupGate
opened registered reported complete = record {
  registered = registered;
  reported = reported;
  enumeration_complete = complete;
  open_ = true;
}

opened_stays :
    (registered reported : ℕ) (complete : Bool) (events : List GateEvent)
    → (run (opened registered reported complete) events).open_ ≡ true
unfolding run step record_registered record_reported record_enumeration_complete record_timeout
    opened
opened_stays m n c [] = refl
opened_stays m n c (registers ∷ rest) = opened_stays m n c rest
opened_stays m n c (reports ∷ rest) = opened_stays m n c rest
opened_stays m n c (completes ∷ rest) = opened_stays m n c rest
opened_stays m n c (times_out ∷ rest) = opened_stays m n c rest

run_open :
    (gate : StartupGate) (events : List GateEvent)
    → gate.open_ ≡ true
    → (run gate events).open_ ≡ true
unfolding opened
run_open gate events h =
    ap (λ b. (run (record gate { open_ = b }) events).open_) h
    ∙ opened_stays gate.registered gate.reported gate.enumeration_complete events

waits_not : (seen events : List GateEvent) → waiting seen ≡ false → waits seen events ≡ false
unfolding waits
waits_not seen [] h = h
waits_not seen (event ∷ rest) h = rw h refl

-- A gate that is shut, with the counts of the events seen.
shut : List GateEvent → StartupGate
shut seen = record {
  registered = count is_registers seen;
  reported = count is_reports seen;
  enumeration_complete = any is_completes seen;
  open_ = false;
}

-- What a step makes of it is shut with the counts of one more event, or else open for a cause.
step-shut :
    (seen : List GateEvent) (event : GateEvent)
    → waiting seen ≡ true
    → ((step (shut seen) event ≡ shut (event ∷ seen)) × (waiting (event ∷ seen) ≡ true))
      ⊎ (((step (shut seen) event).open_ ≡ true) × (waiting (event ∷ seen) ≡ false))
unfolding shut waiting step record_registered record_reported record_enumeration_complete
    record_timeout try_open count any is_registers is_reports is_completes is_times_out
step-shut seen registers h = ground arith
step-shut seen reports h = ground arith
step-shut seen completes h = ground arith
step-shut seen times_out h = inr (refl, refl)

shut-is_holding : (seen : List GateEvent) → is_holding (shut seen) ≡ true
unfolding is_holding shut
shut-is_holding seen = refl

open-is_holding : (gate : StartupGate) → gate.open_ ≡ true → is_holding gate ≡ false
unfolding is_holding
open-is_holding gate h = ap not h

run-shut-waits :
    (seen events : List GateEvent)
    → waiting seen ≡ true
    → is_holding (run (shut seen) events) ≡ waits seen events
unfolding run waits
run-shut-waits seen [] h = shut-is_holding seen ∙ sym h
run-shut-waits seen (event ∷ rest) h = elim (step-shut seen event h) [
  | inl (same, w) ↦ rw (same, h) (run-shut-waits (event ∷ seen) rest w)
  | inr (opens, w) ↦
      rw (h, waits_not (event ∷ seen) rest w)
        (open-is_holding _ (run_open (step (shut seen) event) rest opens))
]

-- After any events, a new gate holds exactly if no timeout has come and at no point the enumeration
-- was complete with every registered thread having reported.
pub run-waits : (events : List GateEvent) → is_holding (run new events) ≡ waits [] events
unfolding new shut count any waiting
run-waits events = run-shut-waits [] events refl
