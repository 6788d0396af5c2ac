-- ===== src/Bm13xx/RegisterClient/Scan.antt =====
-- mujina-miner/src/asic/bm13xx/register_client.rs: what a read answers, from the replies alone.
use mujina.Common.{
  ◌≤◌, arith, sym, ap, subst, ◌∙◌, Option, none, some, ℕ, zero, suc, ◌≡◌, refl, List, [], ◌∷◌,
  if◌then◌else◌,
}
use mujina.Common.{Result, ok, err, Bool-cases, ◌⊎◌, inl, inr}
use mujina.Bm13xx.Register.{Register, RegisterAddress}
use mujina.Bm13xx.Response.{RegisterResponse}
use mujina.Bm13xx.Command.{RegisterCommand, read_register, Destination}
use mujina.Bm13xx.RegisterClient.{
  Event, arrived, elapsed, closed, RegisterClient, RegisterClientError, no_response,
  responses_closed, Waited, matched, timed_out, ended, matches, match_coming, match_queued,
  drain_stale, send, matching_response, read_attempts, read,
}

-- One pass over what the channel does, with the windows left after this one: the first matching reply
-- answers, and the channel's end does; past the last window there is no answer.
unfoldable pub scan :
    {E : Type 0} → ℕ → ℕ → RegisterAddress → List Event → Result (RegisterClientError E) Register
unfolding matches
scan windows chip register_address [] = err (no_response chip register_address 3)
scan windows chip register_address (closed ∷ rest) = err responses_closed
scan zero chip register_address (elapsed ∷ rest) = err (no_response chip register_address 3)
scan (suc windows) chip register_address (elapsed ∷ rest) = scan windows chip register_address rest
scan windows chip register_address (arrived response ∷ rest) =
    let later = scan windows chip register_address rest in
    if matches chip register_address response then ok response.register else later

-- What the rest of the conversation answers after a wait.
after_wait :
    {E : Type 0}
    → ℕ
    → ℕ
    → RegisterAddress
    → Waited
    → List Event
    → Result (RegisterClientError E) Register
unfolding scan
after_wait windows chip register_address (matched register) rest = ok register
after_wait windows chip register_address ended rest = err responses_closed
after_wait zero chip register_address timed_out rest = err (no_response chip register_address 3)
after_wait (suc windows) chip register_address timed_out rest =
    scan windows chip register_address rest

scan-match_coming :
    {E : Type 0} (windows chip : ℕ) (register_address : RegisterAddress) (coming : List Event)
    → scan {E = E} windows chip register_address coming
      ≡ after_wait windows chip register_address
          (match_coming chip register_address coming).0
          (match_coming chip register_address coming).1
unfolding scan match_coming after_wait
scan-match_coming zero chip a [] = refl
scan-match_coming (suc windows) chip a [] = refl
scan-match_coming windows chip a (closed ∷ rest) = refl
scan-match_coming zero chip a (elapsed ∷ rest) = refl
scan-match_coming (suc windows) chip a (elapsed ∷ rest) = refl
scan-match_coming windows chip a (arrived response ∷ rest) =
    let later = scan-match_coming windows chip a rest in
    elim (Bool-cases (matches chip a response)) [
      | inl is ↦ rw (scan, match_coming, is, after_wait) refl
      | inr isnt ↦ rw (scan, match_coming, isnt) later
    ]

Waited-cases :
    (waited : Waited)
    → ((register : Register) × (waited ≡ matched register))
      ⊎ (waited ≡ timed_out)
      ⊎ (waited ≡ ended)
Waited-cases (matched register) = inl (register, refl)
Waited-cases timed_out = inr (inl refl)
Waited-cases ended = inr (inr refl)

-- The commands when the same read is sent `k` more times.
unfoldable pub asked : ℕ → ℕ → RegisterAddress → List RegisterCommand → List RegisterCommand
asked zero chip a sent = sent
asked (suc k) chip a sent = asked k chip a (read_register (Destination.chip chip) a ∷ sent)

module _ {E : Type 0} where
  -- A client with an empty channel whose sends do not fail.
  unfoldable pub quiet : List Event → List RegisterCommand → RegisterClient E
  quiet coming sent = record { queued = []; coming = coming; failures = []; sent = sent }

  -- An attempt answers as one pass, if the attempts after it answer as what comes after a wait.
  attempted :
      (windows chip : ℕ) (a : RegisterAddress) (coming : List Event) (sent : List RegisterCommand)
      → (let rest = (match_coming chip a coming).1 in
          let asked = read_register (Destination.chip chip) a ∷ sent in
          (read_attempts windows chip a (quiet rest asked)).0
          ≡ after_wait windows chip a timed_out rest)
      → (read_attempts (suc windows) chip a (quiet coming sent)).0 ≡ scan windows chip a coming
  unfolding read_attempts send matching_response match_queued quiet after_wait
  attempted windows chip a coming sent late = elim (Waited-cases (match_coming chip a coming).0) [
    | inl (register, e) ↦ rw (scan-match_coming {E = E} windows chip a coming, e) refl
    | inr (inl e) ↦ rw (scan-match_coming {E = E} windows chip a coming, e) late
    | inr (inr e) ↦ rw (scan-match_coming {E = E} windows chip a coming, e) refl
  ]

  read_attempts-scan :
      (windows chip : ℕ) (a : RegisterAddress) (coming : List Event) (sent : List RegisterCommand)
      → (read_attempts (suc windows) chip a (quiet coming sent)).0 ≡ scan windows chip a coming
  unfolding after_wait read_attempts
  read_attempts-scan zero chip a coming sent = attempted zero chip a coming sent refl
  read_attempts-scan (suc windows) chip a coming sent =
      attempted (suc windows) chip a coming sent
        (read_attempts-scan windows chip a (match_coming chip a coming).1 _)

  unfoldable pub Asks : ℕ → ℕ → RegisterAddress → RegisterClient E → Type 0
  unfolding asked
  Asks left chip a client =
      (k : ℕ) × (k ≤ left)
      × ((read_attempts left chip a client).1.sent ≡ asked k chip a client.sent)

  -- An attempt whose command is sent asks once more than those after it.
  send-Asks :
      (left chip : ℕ) (a : RegisterAddress) (client : RegisterClient E)
      → (let sent = send (read_register (Destination.chip chip) a) client in
          (sent.0 ≡ ok tt)
          × (sent.1.sent ≡ read_register (Destination.chip chip) a ∷ client.sent)
          × Asks left chip a (matching_response chip a sent.1).1)
      → Asks (suc left) chip a client
  unfolding Asks asked read_attempts matching_response
  send-Asks left chip a client (made, more, (k, few, rest)) =
      let next = (send (read_register (Destination.chip chip) a) client).1 in
      elim (Waited-cases (matching_response chip a next).0) [
        | inl (register, e) ↦ (1, omega arith, rw (read_attempts, made, e) more)
        | inr (inl e) ↦
            (suc k, omega arith, rw (read_attempts, made, e) (rest ∙ ap (asked k chip a) more))
        | inr (inr e) ↦ (1, omega arith, rw (read_attempts, made, e) more)
      ]

  read_attempts-Asks :
      (left chip : ℕ) (a : RegisterAddress) (queued : List RegisterResponse) (coming : List Event)
      (failures : List (Option E)) (sent : List RegisterCommand)
      → Asks left chip a
          (record { queued = queued; coming = coming; failures = failures; sent = sent })
  unfolding Asks asked read_attempts send matching_response
  read_attempts-Asks zero chip a queued coming failures sent = (0, omega arith, refl)
  read_attempts-Asks (suc left) chip a queued coming [] sent =
      send-Asks left chip a
        (record { queued = queued; coming = coming; failures = []; sent = sent })
        (refl, refl, read_attempts-Asks left chip a _ _ [] _)
  read_attempts-Asks (suc left) chip a queued coming (none ∷ failures) sent =
      send-Asks left chip a
        (record { queued = queued; coming = coming; failures = none ∷ failures; sent = sent })
        (refl, refl, read_attempts-Asks left chip a _ _ failures _)
  read_attempts-Asks (suc left) chip a queued coming (some e ∷ failures) sent =
      (0, omega arith, refl)

  -- A read whose sends do not fail answers as one pass over what the channel does from then on, in
  -- three windows: replies that were in the channel before do not count. It sends the same command
  -- at most three times, and no other.
  pub read-scan :
      (chip : ℕ) (a : RegisterAddress) (client : RegisterClient E)
      → client.failures ≡ []
      → ((read chip a client).0 ≡ scan 2 chip a client.coming)
        × ((k : ℕ) × (k ≤ 3) × ((read chip a client).1.sent ≡ asked k chip a client.sent))
  unfolding read drain_stale quiet Asks
  read-scan chip a client h = (
    subst
        (λ f.
          (read_attempts 3 chip a (record client { queued = []; failures = f })).0
          ≡ scan 2 chip a client.coming)
        (sym h) (read_attempts-scan 2 chip a client.coming client.sent),
    read_attempts-Asks 3 chip a [] client.coming client.failures client.sent,
  )
