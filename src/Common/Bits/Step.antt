-- ===== src/Common/Bits/Step.antt =====
-- The native operations are `bitwise`, a recursion on binary digits with fuel. Without the fuel:
-- the lowest digit of the result, and the half of the result.
use Prim.Native.Nat.{ℕ, zero, suc, ◌+◌, ◌-◌, ◌*◌, ◌/◌, ◌%◌, ◌≤◌, min, max, digits, bitwise}
use Prim.Native.Nat.{
  bit_and, bit_or, bit_xor, bit_and-bitwise, bit_or-bitwise, bit_xor-bitwise, differ,
}
use mathlib.Core.Path.{◌≡◌, refl, ap, ◌∙◌}
use native.Mathlib.Omega.{arith}

module _ (rest : ℕ → ℕ) (op : ℕ → ℕ → ℕ) where
  -- Fuel beyond the first number changes nothing: one unit of it, and any amount.
  spare_unit : (n a b : ℕ) → a ≤ n → digits rest op (suc n) a b ≡ digits rest op n a b
  spare_unit zero zero b h = refl
  spare_unit (suc n) zero b h = refl
  spare_unit zero (suc a) b h = absurd (omega arith)
  spare_unit (suc n) (suc a) b h = rw (spare_unit n (suc a / 2) (b / 2) (omega arith)) refl

  spare_fuel : (k a b : ℕ) → digits rest op (k + a) a b ≡ digits rest op a a b
  spare_fuel zero a b = ap (λ n. digits rest op n a b) (omega arith)
  spare_fuel (suc k) a b =
      let fuel : suc k + a ≡ suc (k + a) = omega arith in
      ap (λ n. digits rest op n a b) fuel ∙ spare_unit (k + a) a b (omega arith) ∙ spare_fuel k a b

  half_fuel : (a b : ℕ) → digits rest op a (suc a / 2) b ≡ bitwise rest op (suc a / 2) b
  half_fuel a b =
      ap (λ n. digits rest op n (suc a / 2) b) (omega arith)
      ∙ spare_fuel (a - suc a / 2) (suc a / 2) b

  lowest_digit :
      (a b : ℕ)
      → bitwise rest op (suc a) b ≡ op (suc a % 2) (b % 2) + 2 * bitwise rest op (suc a / 2) (b / 2)
  lowest_digit a b = omega (arith, half_fuel a (b / 2))

pub bit_xor_step : (a b : ℕ) → bit_xor a b ≡ differ (a % 2) (b % 2) + 2 * bit_xor (a / 2) (b / 2)
bit_xor_step zero b = simp bit_xor-bitwise (ground arith)
bit_xor_step (suc a) b = simp bit_xor-bitwise (lowest_digit (λ y. y) differ a b)

pub bit_and_step : (a b : ℕ) → bit_and a b ≡ min (a % 2) (b % 2) + 2 * bit_and (a / 2) (b / 2)
bit_and_step zero b = simp bit_and-bitwise (omega arith)
bit_and_step (suc a) b = simp bit_and-bitwise (lowest_digit (λ y. 0) min a b)

pub bit_or_step : (a b : ℕ) → bit_or a b ≡ max (a % 2) (b % 2) + 2 * bit_or (a / 2) (b / 2)
bit_or_step zero b = simp bit_or-bitwise (omega arith)
bit_or_step (suc a) b = simp bit_or-bitwise (lowest_digit (λ y. y) max a b)

-- Induction on the binary digits of a number.
digit_induction {ℓ} :
    (P : ℕ → Type ℓ) → P 0 → ((a : ℕ) → P (suc a / 2) → P (suc a)) → (fuel a : ℕ) → a ≤ fuel → P a
digit_induction P base step fuel zero h = base
digit_induction P base step zero (suc a) h = absurd (omega arith)
digit_induction P base step (suc fuel) (suc a) h =
    step a (digit_induction P base step fuel (suc a / 2) (omega arith))

pub by_digits {ℓ} : (P : ℕ → Type ℓ) → P 0 → ((a : ℕ) → P (suc a / 2) → P (suc a)) → (a : ℕ) → P a
by_digits P base step a = digit_induction P base step a a (omega arith)
