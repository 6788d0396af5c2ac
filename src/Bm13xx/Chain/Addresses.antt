-- ===== src/Bm13xx/Chain/Addresses.antt =====
-- mujina-miner/src/asic/bm13xx/chain.rs: the addresses that `assign_addresses_with_interval` gives.
use mujina.Common.{ℕ, zero, suc, ◌+◌, ◌-◌, ◌*◌, ◌^◌, ◌≤◌, ◌<◌, ◌≡◌, refl, subst, arith, Bool}
use mujina.Common.{
  sym, ap, ◌∙◌, true, false, List, [], ◌∷◌, length, Option, some, none, ok, err, ltb, leb,
}
use mujina.Common.{if◌then◌else◌, get_elem?, Bool-cases, inl, inr}
use native.Mathlib.Nat.{mul-le-mul_right, mod-eq_of_lt, eq_of_mul-eq-mul_right}
use mujina.Bm13xx.Chain.{Chip, Domain, Chain, AddressOverflowError, number_chips}
use mujina.Bm13xx.Chain.{assign_addresses_with_interval}

-- What the code promises of one interval: addresses that are the multiples of it, in the order of
-- the chain, with all else as it was, if the last multiple fits a byte; else the error.
unfoldable pub with_address : ℕ → ℕ → Chip → Chip
with_address interval i chip = record { address = i * interval; domain = chip.domain }

unfoldable pub addressed : ℕ → ℕ → List Chip → List Chip
unfolding with_address
addressed interval i [] = []
addressed interval i (c ∷ cs) = with_address interval i c ∷ addressed interval (suc i) cs

number_chips-addressed :
    (interval i : ℕ) (cs : List Chip)
    → ((k : ℕ) → k < length cs → (i + k) * interval < 2 ^ 8)
    → number_chips interval i cs ≡ addressed interval i cs
unfolding number_chips addressed with_address
number_chips-addressed interval i [] h = refl
number_chips-addressed interval i (c ∷ cs) h =
    let first : i * interval < 256 =
      subst (λ n. n * interval < 256) (omega arith) (h zero (omega arith)) in
    let later : (k : ℕ) → k < length cs → (suc i + k) * interval < 256 =
      λ k l. subst (λ n. n * interval < 256) (omega arith) (h (suc k) (omega arith)) in
    rw (mod-eq_of_lt first, number_chips-addressed interval (suc i) cs later) refl

fits : (interval n k : ℕ) → (n - 1) * interval ≤ 255 → k < n → (0 + k) * interval < 2 ^ 8
fits interval n k h l =
    let step : k * interval ≤ (n - 1) * interval = mul-le-mul_right interval (omega arith) in
    omega (arith, step)

assign_cases :
    (interval : ℕ) (cs : List Chip) (ds : List Domain)
    → assign_addresses_with_interval interval (record { chips = cs; domains = ds }) ≡ (
        if leb ((length cs - 1) * interval) 255
        then ok (record { chips = addressed interval 0 cs; domains = ds })
        else err (record { chip_count = length cs; interval = interval }))
unfolding assign_addresses_with_interval addressed with_address
assign_cases interval [] ds = ground arith
assign_cases interval (c ∷ cs) ds = elim (Bool-cases (leb ((length (c ∷ cs) - 1) * interval) 255)) [
  | inl h ↦
      let fit = fits interval (length (c ∷ cs)) in
      let bound : (length (c ∷ cs) - 1) * interval ≤ 255 = ground arith in
      let below : ltb 255 ((length (c ∷ cs) - 1) * interval) ≡ false = ground arith in
      let numbered = number_chips-addressed interval 0 (c ∷ cs) (λ k l. fit k bound l) in
      rw (h, below, numbered) refl
  | inr h ↦
      let above : ltb 255 ((length (c ∷ cs) - 1) * interval) ≡ true = ground arith in
      rw (h, above) refl
]

-- Every chip's address is the multiple of the interval at its place in the chain, without wrapping,
-- and nothing else of the chain changes, if the last multiple fits a byte; else the call returns the
-- overflow error, with the chip count and the interval.
pub assign_addresses_with_interval-addressed :
    (interval : ℕ) (chain : Chain)
    → assign_addresses_with_interval interval chain ≡ (
        if leb ((length chain.chips - 1) * interval) 255
        then ok (record chain { chips = addressed interval 0 chain.chips })
        else err (record { chip_count = length chain.chips; interval = interval }))
unfolding assign_addresses_with_interval addressed with_address
assign_addresses_with_interval-addressed interval chain =
    assign_cases interval chain.chips chain.domains

address_or_zero : Option Chip → ℕ
address_or_zero none = 0
address_or_zero (some c) = c.address

get_elem?-addressed :
    (interval i k : ℕ) (cs : List Chip) (c : Chip)
    → get_elem? (addressed interval i cs) k ≡ some c
    → c.address ≡ (i + k) * interval
unfolding addressed with_address address_or_zero
get_elem?-addressed interval i k [] c e = ground arith
get_elem?-addressed interval i zero (x ∷ xs) c e =
    let same : i * interval ≡ c.address = ap address_or_zero e in
    subst (λ n. c.address ≡ n * interval) (omega arith) (sym same)
get_elem?-addressed interval i (suc k) (x ∷ xs) c e =
    subst (λ n. c.address ≡ n * interval) (omega arith)
      (get_elem?-addressed interval (suc i) k xs c e)

chain_of :
    (b : Bool) (chain chain' : Chain) (e : AddressOverflowError)
    → (if b then ok chain else err e) ≡ ok chain'
    → chain ≡ chain'
chain_of true chain chain' e h = ground arith
chain_of false chain chain' e h = ground arith

address_is_multiple :
    (interval i : ℕ) (chain chain' : Chain) (c : Chip)
    → assign_addresses_with_interval interval chain ≡ ok chain'
    → get_elem? chain'.chips i ≡ some c
    → c.address ≡ i * interval
address_is_multiple interval i chain chain' c run e =
    let same =
      chain_of (leb ((length chain.chips - 1) * interval) 255) _ chain' _
        (sym (assign_addresses_with_interval-addressed interval chain) ∙ run) in
    subst (λ n. c.address ≡ n * interval) (omega arith)
      (get_elem?-addressed interval 0 i chain.chips c
        (ap (λ (x : Chain). get_elem? x.chips i) same ∙ e))

-- If the call assigns addresses at an interval that is not zero, no two chips of the chain have the
-- same address.
pub assign_addresses_with_interval-distinct :
    (interval i j : ℕ) (chain chain' : Chain) (c d : Chip)
    → 0 < interval
    → assign_addresses_with_interval interval chain ≡ ok chain'
    → get_elem? chain'.chips i ≡ some c
    → get_elem? chain'.chips j ≡ some d
    → c.address ≡ d.address
    → i ≡ j
assign_addresses_with_interval-distinct interval i j chain chain' c d pos run ei ej same =
    let a = address_is_multiple interval i chain chain' c run ei in
    let b = address_is_multiple interval j chain chain' d run ej in
    let products : i * interval ≡ j * interval = sym a ∙ same ∙ b in
    eq_of_mul-eq-mul_right interval pos i j products
