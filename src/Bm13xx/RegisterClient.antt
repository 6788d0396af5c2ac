-- ===== src/Bm13xx/RegisterClient.antt =====
-- mujina-miner/src/asic/bm13xx/register_client.rs: conversations with the chips' registers. The
-- state has the replies that are in the channel, what the channel does from now on, the errors of the
-- next sends, and the commands sent, the last one first. The error type of the sink is a parameter, and so is
-- the derived equality of registers.
pub mod Scan
use mujina.Common.{ℕ, zero, suc, Bool, ◌&&◌, List, [], ◌∷◌, ◌==◌, if◌then◌else◌, Option, some, none}
use mujina.Common.{Result, ok, err}
use mujina.Bm13xx.Register
use mujina.Bm13xx.Register.{Register, RegisterAddress, address_u8}
use mujina.Bm13xx.Command.{
  Destination, chip, broadcast, RegisterCommand, read_register, write_register,
}
use mujina.Bm13xx.Response.{RegisterResponse}

-- What a wait on the channel meets: a reply that arrives, the end of the wait, or the end of the
-- channel. When the list is over nothing arrives any more, so every wait ends.
pub data Event : Type 0 where
  arrived : RegisterResponse → Event
  elapsed : Event
  closed : Event

pub data RegisterClientError (E : Type 0) : Type 0 where
  send_failed : E → RegisterClientError E
  no_response :
      (chip_address : ℕ) (register_address : RegisterAddress) (attempts : ℕ) → RegisterClientError E
  responses_closed : RegisterClientError E
  readback_mismatch : (expected actual : Register) → RegisterClientError E

pub record RegisterClient (E : Type 0) : Type 0 where
  pub queued : List RegisterResponse
  pub coming : List Event
  pub failures : List (Option E)
  pub sent : List RegisterCommand

-- The end of a wait for one reply.
pub data Waited : Type 0 where
  matched : Register → Waited
  timed_out : Waited
  ended : Waited

unfoldable pub matches : ℕ → RegisterAddress → RegisterResponse → Bool
unfolding address_u8
matches chip_address register_address response =
    response.chip_address == chip_address
    && address_u8 (Register.address response.register) == address_u8 register_address

-- The loop of `matching_response` under its deadline, on what comes after the channel is empty.
unfoldable pub match_coming : ℕ → RegisterAddress → List Event → Waited × List Event
unfolding matches
match_coming chip_address register_address [] = (timed_out, [])
match_coming chip_address register_address (elapsed ∷ rest) = (timed_out, rest)
match_coming chip_address register_address (closed ∷ rest) = (ended, closed ∷ rest)
match_coming chip_address register_address (arrived response ∷ rest) =
    let later = match_coming chip_address register_address rest in
    if matches chip_address register_address response
    then (matched response.register, rest)
    else later

-- The loop on the replies in the channel, which `recv` takes first.
unfoldable pub match_queued :
    ℕ
    → RegisterAddress
    → List RegisterResponse
    → List Event
    → Waited × List RegisterResponse × List Event
unfolding matches match_coming
match_queued chip_address register_address [] coming =
    let (waited, rest) = match_coming chip_address register_address coming in (waited, [], rest)
match_queued chip_address register_address (response ∷ queued) coming =
    let later = match_queued chip_address register_address queued coming in
    if matches chip_address register_address response
    then (matched response.register, queued, coming)
    else later

-- The loop of `broadcast_read`: every wait has its own quiet window.
unfoldable pub collect_coming :
    RegisterAddress → List Event → Option (List RegisterResponse) × List Event
unfolding address_u8
collect_coming register_address [] = (some [], [])
collect_coming register_address (elapsed ∷ rest) = (some [], rest)
collect_coming register_address (closed ∷ rest) = (none, closed ∷ rest)
collect_coming register_address (arrived response ∷ rest) =
    let (replies, later) = collect_coming register_address rest in
    if address_u8 (Register.address response.register) == address_u8 register_address
    then (elim replies [ none ↦ none | some rs ↦ some (response ∷ rs) ], later)
    else (replies, later)

module _ {E : Type 0} where
  unfoldable pub drain_stale : RegisterClient E → RegisterClient E
  drain_stale client = record client { queued = [] }

  unfoldable pub send :
      RegisterCommand
      → RegisterClient E
      → Result {0, 0} (RegisterClientError E) Unit × RegisterClient E
  send command client = elim client.failures [
    | [] ↦ (ok tt, record client { sent = command ∷ client.sent })
    | none ∷ rest ↦ (ok tt, record client { sent = command ∷ client.sent; failures = rest })
    | some e ∷ rest ↦ (err (send_failed e), record client { failures = rest })
  ]

  unfoldable pub matching_response :
      ℕ → RegisterAddress → RegisterClient E → Waited × RegisterClient E
  unfolding match_queued
  matching_response chip_address register_address client =
      let (waited, queued, coming) =
        match_queued chip_address register_address client.queued client.coming in
      (waited, record client { queued = queued; coming = coming })

  unfoldable pub write :
      Destination
      → Register
      → RegisterClient E
      → Result {0, 0} (RegisterClientError E) Unit × RegisterClient E
  unfolding send
  write destination register client = send (write_register destination register) client

  -- The attempts that are left.
  unfoldable pub read_attempts :
      ℕ
      → ℕ
      → RegisterAddress
      → RegisterClient E
      → Result (RegisterClientError E) Register × RegisterClient E
  unfolding send matching_response
  read_attempts zero chip_address register_address client =
      (err (no_response chip_address register_address 3), client)
  read_attempts (suc left) chip_address register_address client =
      let (sent, asked) = send (read_register (chip chip_address) register_address) client in
      elim sent [
        | err e ↦ (err e, asked)
        | ok _ ↦
            let (waited, heard) = matching_response chip_address register_address asked in
            elim waited [
              | matched register ↦ (ok register, heard)
              | ended ↦ (err responses_closed, heard)
              | timed_out ↦ read_attempts left chip_address register_address heard
            ]
      ]

  unfoldable pub read :
      ℕ
      → RegisterAddress
      → RegisterClient E
      → Result (RegisterClientError E) Register × RegisterClient E
  unfolding drain_stale read_attempts
  read chip_address register_address client =
      read_attempts 3 chip_address register_address (drain_stale client)

  unfoldable pub broadcast_read :
      RegisterAddress
      → RegisterClient E
      → Result (RegisterClientError E) (List RegisterResponse) × RegisterClient E
  unfolding drain_stale send collect_coming
  broadcast_read register_address client =
      let (sent, asked) = send (read_register broadcast register_address) (drain_stale client) in
      elim sent [
        | err e ↦ (err e, asked)
        | ok _ ↦
            let (replies, coming) = collect_coming register_address asked.coming in
            let heard = record asked { coming = coming } in
            elim replies [ some rs ↦ (ok rs, heard) | none ↦ (err responses_closed, heard) ]
      ]

  unfoldable pub write_readback :
      (Register → Register → Bool)
      → ℕ
      → Register
      → RegisterClient E
      → Result {0, 0} (RegisterClientError E) Unit × RegisterClient E
  unfolding write read
  write_readback same chip_address register client =
      let (written, before) = write (chip chip_address) register client in
      elim written [
        | err e ↦ (err e, before)
        | ok _ ↦
            let (answer, after) = read chip_address (Register.address register) before in
            elim answer [
              | err e ↦ (err e, after)
              | ok actual ↦
                  if same actual register
                  then (ok tt, after)
                  else (err (readback_mismatch register actual), after)
            ]
      ]
