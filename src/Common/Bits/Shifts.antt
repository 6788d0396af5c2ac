-- ===== src/Common/Bits/Shifts.antt =====
-- `&` and `|` under shifts: `x << k` is `x * 2 ^ k`, `x >> k` is `x / 2 ^ k`.
use Prim.Native.Nat.{ℕ, zero, suc, ◌+◌, ◌-◌, ◌*◌, ◌/◌, ◌%◌, ◌^◌, ◌<◌, bit_and, bit_or}
use mathlib.Core.Path.{◌≡◌, sym, ap, ◌∙◌}
use native.Mathlib.Nat.{pow-suc, one-le-pow, mul-div_cancel}
use native.Mathlib.Omega.{arith}
use mujina.Common.Bits.Step.{bit_and_step, bit_or_step}
use mujina.Common.Bits.Laws.{bit_and-zero, bit_or-sum}

mul-two_pow-suc : (a k : ℕ) → a * 2 ^ suc k ≡ 2 * (a * 2 ^ k)
mul-two_pow-suc a k = omega (arith, ap (λ (t : ℕ). a * t) (pow-suc 2 k))

pub bit_and-shift : (k a b : ℕ) → bit_and (a * 2 ^ k) (b * 2 ^ k) ≡ bit_and a b * 2 ^ k
bit_and-shift zero a b = ground arith
bit_and-shift (suc k) a b = ground (
  arith,
  bit_and_step (a * 2 ^ suc k) (b * 2 ^ suc k),
  mul-two_pow-suc a k,
  mul-two_pow-suc b k,
  mul-two_pow-suc (bit_and a b) k,
  bit_and-shift k a b,
)

pub bit_or-shift : (k a b : ℕ) → bit_or (a * 2 ^ k) (b * 2 ^ k) ≡ bit_or a b * 2 ^ k
bit_or-shift zero a b = ground arith
bit_or-shift (suc k) a b = ground (
  arith,
  bit_or_step (a * 2 ^ suc k) (b * 2 ^ suc k),
  mul-two_pow-suc a k,
  mul-two_pow-suc b k,
  mul-two_pow-suc (bit_or a b) k,
  bit_or-shift k a b,
)

-- A shifted field takes nothing from the bits below it.
pub bit_and_above : (k a r : ℕ) → r < 2 ^ k → bit_and (a * 2 ^ k) r ≡ 0
bit_and_above zero a r h = ground (arith, bit_and-zero a)
bit_and_above (suc k) a r h = ground (
  arith,
  bit_and_step (a * 2 ^ suc k) r,
  mul-two_pow-suc a k,
  pow-suc 2 k,
  bit_and_above k a (r / 2),
)

-- `(a << k) | r` is a sum where `r` fits `k` bits.
pub bit_or_fields : (k a r : ℕ) → r < 2 ^ k → bit_or (a * 2 ^ k) r ≡ a * 2 ^ k + r
bit_or_fields k a r h = omega (arith, bit_or-sum (a * 2 ^ k) r, bit_and_above k a r h)

bit_and_low_fields : (k q r : ℕ) → r < 2 ^ k → bit_and (q * 2 ^ k + r) (2 ^ k - 1) ≡ r
bit_and_low_fields zero q r h = ground (arith, bit_and-zero (q * 2 ^ 0 + r))
bit_and_low_fields (suc k) q r h = ground (
  arith,
  bit_and_step (q * 2 ^ suc k + r) (2 ^ suc k - 1),
  mul-two_pow-suc q k,
  pow-suc 2 k,
  bit_and_low_fields k q (r / 2),
)

-- A mask of `k` low bits is the remainder by `2 ^ k`.
pub bit_and_low : (k a : ℕ) → bit_and a (2 ^ k - 1) ≡ a % 2 ^ k
bit_and_low k a = ground (arith, one-le-pow k 2, bit_and_low_fields k (a / 2 ^ k) (a % 2 ^ k))

bit_and_shr_fields :
    (k q r m : ℕ) → r < 2 ^ k → bit_and (q * 2 ^ k + r) (m * 2 ^ k) ≡ bit_and q m * 2 ^ k
bit_and_shr_fields zero q r m h = ground arith
bit_and_shr_fields (suc k) q r m h = ground (
  arith,
  bit_and_step (q * 2 ^ suc k + r) (m * 2 ^ suc k),
  mul-two_pow-suc q k,
  mul-two_pow-suc m k,
  mul-two_pow-suc (bit_and q m) k,
  pow-suc 2 k,
  bit_and_shr_fields k q (r / 2) m,
)

-- To mask after a shift is to mask in place.
pub bit_and_shr : (k v m : ℕ) → bit_and (v / 2 ^ k) m * 2 ^ k ≡ bit_and v (m * 2 ^ k)
bit_and_shr k v m = ground (arith, one-le-pow k 2, bit_and_shr_fields k (v / 2 ^ k) (v % 2 ^ k) m)

-- A field read by shift and mask, from what the mask leaves of it in place.
pub extract : (k m f v : ℕ) → bit_and v (m * 2 ^ k) ≡ f * 2 ^ k → bit_and (v / 2 ^ k) m ≡ f
extract k m f v h =
    let positive = one-le-pow k 2 (omega arith) in
    sym (mul-div_cancel _ positive)
    ∙ ap (λ t. t / 2 ^ k) (bit_and_shr k v m ∙ h)
    ∙ mul-div_cancel f positive

-- Two numbers of `k` bits give one of `k` bits.
pub bit_or-lt : (k a b : ℕ) → a < 2 ^ k → b < 2 ^ k → bit_or a b < 2 ^ k
bit_or-lt zero a b p q = ground (arith, bit_or-sum 0 0)
bit_or-lt (suc k) a b p q =
    ground (arith, pow-suc 2 k, bit_or_step a b, bit_or-lt k (a / 2) (b / 2))
