-- ===== src/Bm13xx/Topology.antt =====
-- mujina-miner/src/asic/bm13xx/topology.rs: which voltage domain each chip of a board belongs to.
-- A `DomainId` is its index.
pub mod Gapless
use mujina.Common.{ℕ, zero, suc, ◌+◌, ◌*◌, ◌/◌, Bool, true, false, List, [], ◌∷◌}
use mujina.Common.{Option, Result, ok, err, max, ◌==◌, ◌&&◌, ◌||◌, if◌then◌else◌, length}
use mujina.Common.{get_elem?, replicate}

pub record TopologySpec : Type 0 where
  pub chip_domains : List ℕ
  pub needs_domain_config : Bool

-- `(i..i + n).map(f).collect()`.
unfoldable pub map_range {ℓ} : {A : Type ℓ} → ℕ → ℕ → (ℕ → A) → List A
map_range i zero f = []
map_range i (suc n) f = f i ∷ map_range (suc i) n f

unfoldable pub uniform_domains : ℕ → ℕ → Bool → TopologySpec
uniform_domains domain_count chips_per_domain needs_domain_config = record {
  chip_domains = map_range 0 (domain_count * chips_per_domain) (λ i. i / chips_per_domain);
  needs_domain_config = needs_domain_config;
}

unfoldable pub individual_domains : ℕ → Bool → TopologySpec
individual_domains chip_count needs_domain_config = record {
  chip_domains = map_range 0 chip_count (λ i. i);
  needs_domain_config = needs_domain_config;
}

unfoldable pub single_domain : ℕ → TopologySpec
single_domain chip_count = record {
  chip_domains = replicate chip_count 0;
  needs_domain_config = false;
}

-- The greatest element, over a first one.
unfoldable pub maximum : ℕ → List ℕ → ℕ
maximum m [] = m
maximum m (x ∷ xs) = maximum (max m x) xs

unfoldable pub contains : List ℕ → ℕ → Bool
contains [] x = false
contains (y ∷ ys) x = (y == x) || contains ys x

-- Every number below `n` is in the list. The set of the list's elements, all at most the greatest,
-- is then that of `0..=max`.
unfoldable pub contains_below : ℕ → List ℕ → Bool
unfolding contains
contains_below zero xs = true
contains_below (suc n) xs = contains xs n && contains_below n xs

-- The error carries the domains that were found, in the order given; the source has them in the
-- order of a hash set.
unfoldable pub custom : List ℕ → Bool → Result (List ℕ) TopologySpec
unfolding maximum contains_below
custom [] needs = ok (record { chip_domains = []; needs_domain_config = needs })
custom (d ∷ ds) needs =
    if contains_below (suc (maximum d ds)) (d ∷ ds)
    then ok (record { chip_domains = d ∷ ds; needs_domain_config = needs })
    else err (d ∷ ds)

unfoldable pub expected_chip_count : TopologySpec → ℕ
expected_chip_count spec = length spec.chip_domains

-- `max().map(|m| m + 1).unwrap_or(0)`.
unfoldable pub count_domains : List ℕ → ℕ
unfolding maximum
count_domains [] = 0
count_domains (d ∷ ds) = maximum d ds + 1

unfoldable pub domain_count : TopologySpec → ℕ
unfolding count_domains
domain_count spec = count_domains spec.chip_domains

-- `none` is the panic of an index out of bounds.
unfoldable pub domain_for : TopologySpec → ℕ → Option ℕ
domain_for spec i = get_elem? spec.chip_domains i
