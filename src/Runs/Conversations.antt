-- ===== src/Runs/Conversations.antt =====
-- Conversations with the chips' registers, of mujina-miner/src/asic/bm13xx/register_client.rs.
use mujina.Common.{ℕ, false, ◌≡◌, ◌≤◌, refl, [], ◌∷◌, ok, err}
use mujina.Bm13xx.Register.{at_ticket_mask, ticket_mask, address}
use mujina.Bm13xx.Command.{Destination, read_register}
use mujina.Bm13xx.Response.{RegisterResponse}
use mujina.Bm13xx.RegisterClient.{
  RegisterClient, arrived, elapsed, read, broadcast_read, write_readback, readback_mismatch,
}
use mujina.Bm13xx.RegisterClient.Scan.{scan, asked, read-scan}

abbrev reply : ℕ → ℕ → RegisterResponse
reply chip_address mask = record {
  chip_address = chip_address;
  register = ticket_mask (record { mask = mask });
}

-- A stale reply, then one of another chip, a window that ends, and the reply.
abbrev retried : RegisterClient ℕ
retried = record {
  queued = reply 4 1 ∷ [];
  coming = arrived (reply 8 3) ∷ elapsed ∷ arrived (reply 4 255) ∷ [];
  failures = [];
  sent = [];
}

read-scan_example :
    ((read 4 at_ticket_mask retried).0 ≡ scan 2 4 at_ticket_mask retried.coming)
    × ((k : ℕ) × (k ≤ 3) × ((read 4 at_ticket_mask retried).1.sent ≡ asked k 4 at_ticket_mask []))
read-scan_example = read-scan 4 at_ticket_mask retried refl

read_twice : read 4 at_ticket_mask retried ≡ (
  ok (ticket_mask (record { mask = 255 })),
  record {
    queued = [];
    coming = [];
    failures = [];
    sent =
        read_register (Destination.chip 4) at_ticket_mask
        ∷ read_register (Destination.chip 4) at_ticket_mask
        ∷ [];
  },
)
unfolding read address
read_twice = refl

two_replies :
    (broadcast_read at_ticket_mask
      (record retried { coming = arrived (reply 0 7) ∷ arrived (reply 2 7) ∷ elapsed ∷ [] })).0
    ≡ ok (reply 0 7 ∷ reply 2 7 ∷ [])
unfolding broadcast_read address
two_replies = refl

not_taken :
    (write_readback (λ actual register. false) 4 (ticket_mask (record { mask = 15 })) retried).0
    ≡ err (
        readback_mismatch
          (ticket_mask (record { mask = 15 }))
          (ticket_mask (record { mask = 255 })))
unfolding write_readback address
not_taken = refl
