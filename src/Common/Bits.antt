-- ===== src/Common/Bits.antt =====
-- `&`, `|` and `^` on numbers of any width: one equation for the lowest digit each, and the laws
-- that follow from these by induction on the digits.
mod Step
mod Laws
mod Shifts
mod Xor
pub use Laws.*
pub use Shifts.*
pub use Xor.*
