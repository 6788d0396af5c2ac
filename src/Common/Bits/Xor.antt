-- ===== src/Common/Bits/Xor.antt =====
-- `^`: a number is recovered from an exclusive or by the other one.
use Prim.Native.Nat.{ℕ, zero, suc, ◌+◌, ◌/◌, ◌%◌, ◌^◌, ◌<◌, bit_xor, bit_xor-bitwise, differ}
use mathlib.Core.Path.{◌≡◌, refl, sym, ap, ◌∙◌}
use native.Mathlib.Nat.{pow-suc}
use native.Mathlib.Omega.{arith}
use mujina.Common.Bits.Step.{bit_xor_step, by_digits}

zero-bit_xor : (b : ℕ) → bit_xor 0 b ≡ b
zero-bit_xor b = bit_xor-bitwise 0 b

differ_bits : (x y : ℕ) → x < 2 → y < 2 → differ x y ≡ (x + y) % 2
differ_bits zero y p q = omega arith
differ_bits (suc zero) zero p q = refl
differ_bits (suc zero) (suc zero) p q = refl
differ_bits (suc zero) (suc (suc y)) p q = absurd (omega arith)
differ_bits (suc (suc x)) y p q = absurd (omega arith)

differ_digits : (a b : ℕ) → differ (a % 2) (b % 2) ≡ (a + b) % 2
differ_digits a b = omega (arith, differ_bits (a % 2) (b % 2))

pub bit_xor-half : (a b : ℕ) → bit_xor a b / 2 ≡ bit_xor (a / 2) (b / 2)
bit_xor-half a b = omega (arith, bit_xor_step a b, differ_digits a b)

pub bit_xor-digit : (a b : ℕ) → bit_xor a b % 2 ≡ (a + b) % 2
bit_xor-digit a b = omega (arith, bit_xor_step a b, differ_digits a b)

bit_xor-zero : (a : ℕ) → bit_xor a 0 ≡ a
bit_xor-zero =
    by_digits (λ a. bit_xor a 0 ≡ a) (zero-bit_xor 0)
      λ a ih. ground (arith, bit_xor_step (suc a) 0, differ_digits (suc a) 0, ih)

pub bit_xor_comm : (a b : ℕ) → bit_xor a b ≡ bit_xor b a
bit_xor_comm =
    by_digits (λ a. (b : ℕ) → bit_xor a b ≡ bit_xor b a)
      (λ b. zero-bit_xor b ∙ sym (bit_xor-zero b))
      λ a ih b. ground (
        arith,
        bit_xor_step (suc a) b,
        bit_xor_step b (suc a),
        differ_digits (suc a) b,
        differ_digits b (suc a),
        ih (b / 2),
      )

-- A second exclusive or undoes the first.
pub bit_xor_undo : (a b : ℕ) → bit_xor (bit_xor a b) b ≡ a
bit_xor_undo =
    by_digits (λ a. (b : ℕ) → bit_xor (bit_xor a b) b ≡ a)
      (by_digits (λ b. bit_xor (bit_xor 0 b) b ≡ 0) (rw (zero-bit_xor 0) (zero-bit_xor 0))
        λ b ih. ground (
          arith,
          zero-bit_xor (suc b),
          zero-bit_xor (suc b / 2),
          bit_xor_step (suc b) (suc b),
          differ_digits (suc b) (suc b),
          ih,
        ))
      λ a ih b. ground (
        arith,
        bit_xor_step (bit_xor (suc a) b) b,
        differ_digits (bit_xor (suc a) b) b,
        bit_xor-half (suc a) b,
        bit_xor-digit (suc a) b,
        ih (b / 2),
      )

pub bit_xor_injective : (a b c : ℕ) → bit_xor a c ≡ bit_xor b c → a ≡ b
bit_xor_injective a b c h = sym (bit_xor_undo a c) ∙ ap (λ t. bit_xor t c) h ∙ bit_xor_undo b c

-- Two numbers of `k` bits give one of `k` bits.
pub bit_xor-lt : (k a b : ℕ) → a < 2 ^ k → b < 2 ^ k → bit_xor a b < 2 ^ k
bit_xor-lt zero a b p q = ground (arith, zero-bit_xor 0)
bit_xor-lt (suc k) a b p q =
    ground (arith, pow-suc 2 k, bit_xor_step a b, differ_digits a b, bit_xor-lt k (a / 2) (b / 2))
