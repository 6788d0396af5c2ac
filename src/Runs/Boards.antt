-- ===== src/Runs/Boards.antt =====
-- The chips of a board, of mujina-miner/src/asic/bm13xx/chain.rs, and the job tracker of thread.rs.
use mujina.Common.{ℕ, ◌≡◌, refl, arith, List, [], ◌∷◌, some, none, ok, err, ltb, leb, length}
use mujina.Common.{◌-◌, ◌*◌, if◌then◌else◌, false}
use mujina.Bm13xx.Topology.{TopologySpec, domain_count, map_range, custom, domain_for}
use mujina.Bm13xx.Topology.Gapless.{custom-domain_for}
use mujina.Common.{◌<◌, true}
use mujina.Bm13xx.Chain.{Chip, Chain, from_topology, assign_addresses_with_interval, domain_chips}
use mujina.Bm13xx.Chain.Addresses.{
  addressed, assign_addresses_with_interval-addressed, assign_addresses_with_interval-distinct,
}
use mujina.Bm13xx.Chain.Domains.{positions, from_topology-domain_chips}
use mujina.Bm13xx.JobTracker.{get, insert}
use mujina.Bm13xx.JobTracker.History.{Call, after, latest, next_of, get-latest}

abbrev chip_at : ℕ → Chip
chip_at a = record { address = a; domain = 0 }

abbrev two_chips : ℕ → ℕ → Chain
two_chips a b = record { chips = chip_at a ∷ chip_at b ∷ []; domains = [] }

assigned : assign_addresses_with_interval 2 (two_chips 0 0) ≡ ok (two_chips 0 2)
unfolding assign_addresses_with_interval
assigned = refl

assign_addresses_with_interval-addressed_example :
    assign_addresses_with_interval 200 (two_chips 0 0) ≡ (
      if leb ((length (two_chips 0 0).chips - 1) * 200) 255
      then ok (record { chips = addressed 200 0 (two_chips 0 0).chips; domains = [] })
      else err (record { chip_count = 2; interval = 200 }))
assign_addresses_with_interval-addressed_example =
    assign_addresses_with_interval-addressed 200 (two_chips 0 0)

abbrev one : ℕ
one = 1

assign_addresses_with_interval-distinct_example : one ≡ 1
assign_addresses_with_interval-distinct_example =
    assign_addresses_with_interval-distinct 2 1 1 (two_chips 0 0) (two_chips 0 2) (chip_at 2)
      (chip_at 2) (omega arith) assigned refl refl refl

abbrev board : TopologySpec
board = record { chip_domains = 0 ∷ 0 ∷ 1 ∷ 1 ∷ []; needs_domain_config = false }

from_topology-domain_chips_example :
    domain_chips (from_topology board) 1
    ≡ (if ltb 1 (domain_count board) then some (positions 1 0 board.chip_domains) else none)
from_topology-domain_chips_example = from_topology-domain_chips board 1

chips_of_second_domain : domain_chips (from_topology board) 1 ≡ some (2 ∷ 3 ∷ [])
unfolding domain_chips from_topology domain_count map_range
chips_of_second_domain = refl

abbrev history : List (Call ℕ)
history = Call.inserted 8 ∷ Call.inserted 7 ∷ Call.cleared ∷ Call.inserted 6 ∷ []

get-latest_example :
    (get (after history) 2 ≡ latest 2 history) × ((insert 9 (after history)).1 ≡ next_of history)
get-latest_example = get-latest history 2 9

got : latest 2 history ≡ some 8
unfolding latest
got = refl

abbrev gapless : TopologySpec
gapless = record { chip_domains = 1 ∷ 0 ∷ []; needs_domain_config = true }

gapless_accepted : custom (1 ∷ 0 ∷ []) true ≡ ok gapless
unfolding custom
gapless_accepted = refl

gap_refused : custom (2 ∷ 0 ∷ []) true ≡ err (2 ∷ 0 ∷ [])
unfolding custom
gap_refused = refl

gapless_count : 1 < domain_count gapless
unfolding domain_count
gapless_count = omega arith

custom-domain_for_example : (i : ℕ) × (domain_for gapless i ≡ some 1)
custom-domain_for_example =
    custom-domain_for (1 ∷ 0 ∷ []) true gapless 1 gapless_accepted gapless_count
