-- ===== src/Bm13xx/Topology/Gapless.antt =====
-- mujina-miner/src/asic/bm13xx/topology.rs: the domain lists that `custom` accepts.
use mujina.Common.{
  ℕ, zero, suc, ◌<◌, ◌≡◌, refl, ap, sym, subst, arith, Bool, true, false, List, [], ◌∷◌,
}
use mujina.Common.{some, ok, err, ◌==◌, if◌then◌else◌, get_elem?}
use mujina.Common.{Bool-cases, inl, inr, ==_iff}
use mujina.Bm13xx.Topology.{
  TopologySpec, maximum, contains, contains_below, custom, domain_count, count_domains, domain_for,
}

contains_below-contains :
    (n d : ℕ) (xs : List ℕ) → contains_below n xs ≡ true → d < n → contains xs d ≡ true
unfolding contains_below
contains_below-contains zero d xs h lt = absurd (omega arith)
contains_below-contains (suc n) d xs h lt =
    ground (arith, contains_below-contains n d xs, ap (contains xs))

contains-get_elem? :
    (xs : List ℕ) (d : ℕ) → contains xs d ≡ true → (i : ℕ) × (get_elem? xs i ≡ some d)
unfolding contains
contains-get_elem? [] d h = absurd (ground arith)
contains-get_elem? (x ∷ xs) d h = elim (Bool-cases (x == d)) [
  | inl e ↦ (0, ap some ((==_iff x d).0 e))
  | inr e ↦ let (i, f) = contains-get_elem? xs d (ground arith) in (suc i, f)
]

accepted :
    (b : Bool) (e : List ℕ) (a c : TopologySpec)
    → (if b then ok a else err e) ≡ ok c
    → (b ≡ true) × (a ≡ c)
accepted true e a c h = (refl, ground arith)
accepted false e a c h = absurd (ground arith)

-- A custom topology that is accepted gives a chip to every domain below its domain count.
pub custom-domain_for :
    (ds : List ℕ) (needs : Bool) (spec : TopologySpec) (d : ℕ)
    → custom ds needs ≡ ok spec
    → d < domain_count spec
    → (i : ℕ) × (domain_for spec i ≡ some d)
unfolding custom domain_count domain_for count_domains
custom-domain_for [] needs spec d e lt =
    let (passed, same) =
      accepted true [] (record { chip_domains = []; needs_domain_config = needs }) spec e in
    absurd (omega (arith, subst (λ s. d < domain_count s) (sym same) lt))
custom-domain_for (x ∷ xs) needs spec d e lt =
    let (below, same) =
      accepted (contains_below (suc (maximum x xs)) (x ∷ xs)) (x ∷ xs)
        (record { chip_domains = x ∷ xs; needs_domain_config = needs }) spec e in
    let bound : d < suc (maximum x xs) =
      omega (arith, subst (λ s. d < domain_count s) (sym same) lt) in
    let listed = contains_below-contains (suc (maximum x xs)) d (x ∷ xs) below bound in
    subst (λ s. (i : ℕ) × (domain_for s i ≡ some d)) same (contains-get_elem? (x ∷ xs) d listed)
