-- ===== src/Bm13xx/Chain.antt =====
-- mujina-miner/src/asic/bm13xx/chain.rs: the chips of a board in the order of the serial chain, and
-- its voltage domains. A `ChipId` and a `DomainId` are indices. The statistics of a chip, which no
-- operation of the chain reads, are left out.
pub mod Addresses
pub mod Domains
use mujina.Common.{ℕ, zero, suc, ◌+◌, ◌-◌, ◌*◌, ◌%◌, ◌^◌, Bool, List, [], ◌∷◌, ◌++◌, length, set}
use mujina.Common.{Option, some, none, Result, ok, err, ltb, if◌then◌else◌, get_elem?, map}
use mujina.Bm13xx.Topology.{TopologySpec, map_range, domain_count}

pub record Chip : Type 0 where
  pub address : ℕ
  pub domain : ℕ

pub record Domain : Type 0 where
  pub id : ℕ
  pub chips : List ℕ

pub record Chain : Type 0 where
  pub chips : List Chip
  pub domains : List Domain

-- `spec.domain_for(ChipId(i))` for each `i` below the chip count reads the domains in turn.
unfoldable pub new_chips : List ℕ → List Chip
new_chips [] = []
new_chips (d ∷ ds) = record { address = 0; domain = d } ∷ new_chips ds

-- `domains[d].chips.push(i)`.
unfoldable pub push_chip : List Domain → ℕ → ℕ → List Domain
push_chip [] d i = []
push_chip (x ∷ xs) zero i = record x { chips = x.chips ++ (i ∷ []) } ∷ xs
push_chip (x ∷ xs) (suc d) i = x ∷ push_chip xs d i

-- `for (i, chip) in chips.iter().enumerate()`.
unfoldable pub push_chips : List Domain → ℕ → List Chip → List Domain
unfolding push_chip
push_chips domains i [] = domains
push_chips domains i (c ∷ cs) = push_chips (push_chip domains c.domain i) (suc i) cs

unfoldable pub from_topology : TopologySpec → Chain
unfolding new_chips push_chips
from_topology spec =
    let chips = new_chips spec.chip_domains in
    let domains = map_range 0 (domain_count spec) (λ i. record { id = i; chips = [] }) in
    record { chips = chips; domains = push_chips domains 0 chips }

pub record AddressOverflowError : Type 0 where
  pub chip_count : ℕ
  pub interval : ℕ

-- `for (i, chip) in self.chips.iter_mut().enumerate()`.
unfoldable pub number_chips : ℕ → ℕ → List Chip → List Chip
number_chips interval i [] = []
number_chips interval i (c ∷ cs) =
    record c { address = i * interval % 2 ^ 8 } ∷ number_chips interval (suc i) cs

unfoldable pub assign_addresses_with_interval : ℕ → Chain → Result AddressOverflowError Chain
unfolding number_chips
assign_addresses_with_interval interval chain = elim chain.chips [
  | [] ↦ ok chain
  | c ∷ cs ↦
      if ltb 0xFF ((length chain.chips - 1) * interval)
      then err (record { chip_count = length chain.chips; interval = interval })
      else ok (record chain { chips = number_chips interval 0 chain.chips })
]

unfoldable pub assign_addresses : Chain → Result AddressOverflowError Chain
assign_addresses = assign_addresses_with_interval 2

-- `none` is the panic of an index out of bounds, or of `expect`.
unfoldable pub domain_chips : Chain → ℕ → Option (List ℕ)
domain_chips chain d = elim (get_elem? chain.domains d) [ none ↦ none | some x ↦ some x.chips ]
