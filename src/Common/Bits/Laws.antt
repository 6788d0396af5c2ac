-- ===== src/Common/Bits/Laws.antt =====
-- `&` and `|` as a lattice of masks.
use Prim.Native.Nat.{ℕ, suc, ◌+◌, ◌/◌, ◌%◌, ◌≤◌, min, max}
use Prim.Native.Nat.{bit_and, bit_or, bit_and-bitwise, bit_or-bitwise}
use mathlib.Core.Path.{◌≡◌, refl, sym, ◌∙◌}
use native.Mathlib.Omega.{arith}
use mujina.Common.Bits.Step.{bit_and_step, bit_or_step, by_digits}

pub bit_and-half : (a b : ℕ) → bit_and a b / 2 ≡ bit_and (a / 2) (b / 2)
bit_and-half a b = omega (arith, bit_and_step a b)

pub bit_or-half : (a b : ℕ) → bit_or a b / 2 ≡ bit_or (a / 2) (b / 2)
bit_or-half a b = omega (arith, bit_or_step a b)

pub bit_and-digit : (a b : ℕ) → bit_and a b % 2 ≡ min (a % 2) (b % 2)
bit_and-digit a b = omega (arith, bit_and_step a b)

pub bit_or-digit : (a b : ℕ) → bit_or a b % 2 ≡ max (a % 2) (b % 2)
bit_or-digit a b = omega (arith, bit_or_step a b)

pub zero-bit_and : (b : ℕ) → bit_and 0 b ≡ 0
zero-bit_and b = bit_and-bitwise 0 b

pub zero-bit_or : (b : ℕ) → bit_or 0 b ≡ b
zero-bit_or b = bit_or-bitwise 0 b

pub bit_and-zero : (a : ℕ) → bit_and a 0 ≡ 0
bit_and-zero =
    by_digits (λ a. bit_and a 0 ≡ 0) (zero-bit_and 0)
      λ a ih. ground (arith, bit_and_step (suc a) 0, ih)

pub bit_or-zero : (a : ℕ) → bit_or a 0 ≡ a
bit_or-zero =
    by_digits (λ a. bit_or a 0 ≡ a) (zero-bit_or 0)
      λ a ih. ground (arith, bit_or_step (suc a) 0, ih)

pub bit_and_comm : (a b : ℕ) → bit_and a b ≡ bit_and b a
bit_and_comm =
    by_digits (λ a. (b : ℕ) → bit_and a b ≡ bit_and b a)
      (λ b. ground (arith, zero-bit_and b, bit_and-zero b))
      λ a ih b. ground (arith, bit_and_step (suc a) b, bit_and_step b (suc a), ih (b / 2))

pub bit_or_comm : (a b : ℕ) → bit_or a b ≡ bit_or b a
bit_or_comm =
    by_digits (λ a. (b : ℕ) → bit_or a b ≡ bit_or b a)
      (λ b. ground (arith, zero-bit_or b, bit_or-zero b))
      λ a ih b. ground (arith, bit_or_step (suc a) b, bit_or_step b (suc a), ih (b / 2))

pub bit_and_self : (a : ℕ) → bit_and a a ≡ a
bit_and_self =
    by_digits (λ a. bit_and a a ≡ a) (zero-bit_and 0)
      λ a ih. ground (arith, bit_and_step (suc a) (suc a), ih)

pub bit_and_assoc : (a b c : ℕ) → bit_and (bit_and a b) c ≡ bit_and a (bit_and b c)
bit_and_assoc =
    by_digits (λ a. (b c : ℕ) → bit_and (bit_and a b) c ≡ bit_and a (bit_and b c))
      (λ b c. ground (arith, zero-bit_and b, zero-bit_and c, zero-bit_and (bit_and b c)))
      λ a ih b c. ground (
        arith,
        bit_and_step (bit_and (suc a) b) c,
        bit_and_step (suc a) (bit_and b c),
        bit_and-half (suc a) b,
        bit_and-half b c,
        bit_and-digit (suc a) b,
        bit_and-digit b c,
        ih (b / 2) (c / 2),
      )

pub bit_or_assoc : (a b c : ℕ) → bit_or (bit_or a b) c ≡ bit_or a (bit_or b c)
bit_or_assoc =
    by_digits (λ a. (b c : ℕ) → bit_or (bit_or a b) c ≡ bit_or a (bit_or b c))
      (λ b c. ground (arith, zero-bit_or b, zero-bit_or (bit_or b c)))
      λ a ih b c. ground (
        arith,
        bit_or_step (bit_or (suc a) b) c,
        bit_or_step (suc a) (bit_or b c),
        bit_or-half (suc a) b,
        bit_or-half b c,
        bit_or-digit (suc a) b,
        bit_or-digit b c,
        ih (b / 2) (c / 2),
      )

-- `&` distributes over `|`.
pub bit_or-bit_and : (a b c : ℕ) → bit_and (bit_or a b) c ≡ bit_or (bit_and a c) (bit_and b c)
bit_or-bit_and =
    by_digits (λ a. (b c : ℕ) → bit_and (bit_or a b) c ≡ bit_or (bit_and a c) (bit_and b c))
      (λ b c. ground (arith, zero-bit_or b, zero-bit_and c, zero-bit_or (bit_and b c)))
      λ a ih b c. ground (
        arith,
        bit_and_step (bit_or (suc a) b) c,
        bit_or_step (bit_and (suc a) c) (bit_and b c),
        bit_or-half (suc a) b,
        bit_or-digit (suc a) b,
        bit_and-half (suc a) c,
        bit_and-digit (suc a) c,
        bit_and-half b c,
        bit_and-digit b c,
        ih (b / 2) (c / 2),
      )

-- Two masks of one word join.
pub bit_and-join : (w a b : ℕ) → bit_or (bit_and w a) (bit_and w b) ≡ bit_and w (bit_or a b)
bit_and-join w a b =
    ground
      (arith, bit_or-bit_and a b w, bit_and_comm w a, bit_and_comm w b, bit_and_comm w (bit_or a b))

pub bit_or-sum : (a b : ℕ) → bit_or a b + bit_and a b ≡ a + b
bit_or-sum =
    by_digits (λ a. (b : ℕ) → bit_or a b + bit_and a b ≡ a + b)
      (λ b. ground (arith, zero-bit_or b, zero-bit_and b))
      λ a ih b. ground (arith, bit_or_step (suc a) b, bit_and_step (suc a) b, ih (b / 2))

-- `bit_or` is 0 on zeros only.
pub bit_or_eq_zero : (a b : ℕ) → bit_or a b ≡ 0 → (a ≡ 0) × (b ≡ 0)
bit_or_eq_zero =
    by_digits (λ a. (b : ℕ) → bit_or a b ≡ 0 → (a ≡ 0) × (b ≡ 0))
      (λ b e. (refl, sym (zero-bit_or b) ∙ e))
      λ a ih b e. ground (arith, bit_or_step (suc a) b, ih (b / 2))

-- A number under a mask is at most the mask.
pub bit_and-le_right : (a b : ℕ) → bit_and a b ≤ b
bit_and-le_right =
    by_digits (λ a. (b : ℕ) → bit_and a b ≤ b) (λ b. ground (arith, zero-bit_and b))
      λ a ih b. ground (arith, bit_and_step (suc a) b, ih (b / 2))
