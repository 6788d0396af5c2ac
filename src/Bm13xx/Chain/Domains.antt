-- ===== src/Bm13xx/Chain/Domains.antt =====
-- mujina-miner/src/asic/bm13xx/chain.rs: the domains that `from_topology` builds.
use mujina.Common.{ℕ, zero, suc, ◌+◌, ◌≡◌, refl, sym, ap, ◌∙◌, arith}
use mujina.Common.{List, [], ◌∷◌, ◌++◌, Option, some, none, ltb, ◌==◌}
use mujina.Common.{if◌then◌else◌, get_elem?, Bool-cases, inl, inr, append_assoc, append-nil}
use mujina.Bm13xx.Topology.{TopologySpec, map_range, domain_count}
use mujina.Bm13xx.Chain.{Domain, new_chips, push_chip, push_chips, from_topology}
use mujina.Bm13xx.Chain.{domain_chips}

-- The indices, counted from `i`, at which the list has `d`, in order.
unfoldable pub positions : ℕ → ℕ → List ℕ → List ℕ
positions d i [] = []
positions d i (x ∷ xs) = let rest = positions d (suc i) xs in if x == d then i ∷ rest else rest

get_elem?-map_range :
    {A : Type 0} (f : ℕ → A) (i n k : ℕ)
    → get_elem? (map_range i n f) k ≡ (if ltb k n then some (f (i + k)) else none)
unfolding map_range
get_elem?-map_range f i zero k = ground arith
get_elem?-map_range f i (suc n) zero = ground arith
get_elem?-map_range f i (suc n) (suc k) = ground (arith, get_elem?-map_range f (suc i) n k)

-- What the pushes leave in one domain.
with_chips : Domain → List ℕ → Domain
with_chips x is = record x { chips = x.chips ++ is }

pushed : Option Domain → List ℕ → Option Domain
unfolding with_chips
pushed none is = none
pushed (some x) is = some (with_chips x is)

get_elem?-push_chip :
    (domains : List Domain) (e i d : ℕ)
    → get_elem? (push_chip domains e i) d
      ≡ (if e == d then pushed (get_elem? domains d) (i ∷ []) else get_elem? domains d)
unfolding push_chip pushed with_chips
get_elem?-push_chip [] e i d = ground arith
get_elem?-push_chip (x ∷ xs) zero i zero = refl
get_elem?-push_chip (x ∷ xs) zero i (suc d) = ground arith
get_elem?-push_chip (x ∷ xs) (suc e) i zero = ground arith
get_elem?-push_chip (x ∷ xs) (suc e) i (suc d) = ground (arith, get_elem?-push_chip xs e i d)

pushed-pushed : (o : Option Domain) (is js : List ℕ) → pushed (pushed o is) js ≡ pushed o (is ++ js)
unfolding pushed with_chips
pushed-pushed none is js = refl
pushed-pushed (some x) is js =
    ap (λ chips. some (record x { chips = chips })) (append_assoc x.chips is js)

pushed-nil : (o : Option Domain) → pushed o [] ≡ o
unfolding pushed with_chips
pushed-nil none = refl
pushed-nil (some x) = ap (λ chips. some (record x { chips = chips })) (append-nil x.chips)

get_elem?-push_chips :
    (domains : List Domain) (i d : ℕ) (ds : List ℕ)
    → get_elem? (push_chips domains i (new_chips ds)) d
      ≡ pushed (get_elem? domains d) (positions d i ds)
unfolding push_chips new_chips positions
get_elem?-push_chips domains i d [] = sym (pushed-nil (get_elem? domains d))
get_elem?-push_chips domains i d (e ∷ ds) =
    get_elem?-push_chips (push_chip domains e i) (suc i) d ds
    ∙ ap (λ o. pushed o (positions d (suc i) ds)) (get_elem?-push_chip domains e i d)
    ∙ (elim (Bool-cases (e == d)) [
      | inl h ↦ rw (h, pushed-pushed (get_elem? domains d) (i ∷ []) (positions d (suc i) ds)) refl
      | inr h ↦ rw h refl
    ])

-- The chain of a topology lists, for each domain below the domain count, exactly the chips that the
-- topology gives to it, each once and in the order of the serial chain; there is no other domain.
pub from_topology-domain_chips :
    (spec : TopologySpec) (d : ℕ)
    → domain_chips (from_topology spec) d
      ≡ (if ltb d (domain_count spec) then some (positions d 0 spec.chip_domains) else none)
unfolding from_topology domain_chips pushed with_chips
from_topology-domain_chips spec d =
    let empty : ℕ → Domain = λ i. record { id = i; chips = [] } in
    let at : Option Domain → Option (List ℕ) =
      λ o. elim o [ none ↦ none | some x ↦ some x.chips ] in
    let pushes =
      get_elem?-push_chips (map_range 0 (domain_count spec) empty) 0 d spec.chip_domains in
    ap at pushes
    ∙ ap (λ o. at (pushed o (positions d 0 spec.chip_domains)))
        (get_elem?-map_range empty 0 (domain_count spec) d)
    ∙ (elim (Bool-cases (ltb d (domain_count spec))) [ inl h ↦ rw h refl | inr h ↦ rw h refl ])
