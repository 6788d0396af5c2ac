-- ===== src/Extranonce.antt =====
-- mujina-miner/src/job_source/extranonce.rs: the bytes of one extranonce slot, ranges of them, and
-- the iterator over a range. The addition that a debug build checks for overflow is the wrapping one
-- of a release build; formatting is left out.
pub mod Split
pub mod Iterate
pub mod Bytes
use mujina.Common.{
  ℕ, zero, suc, ◌+◌, ◌-◌, ◌*◌, ◌/◌, ◌%◌, ◌^◌, min, Bool, true, false, not, List, [], ◌∷◌,
}
use mujina.Common.{◌++◌, Option, none, some, Result, ok, err, ◌>>=◌, ltb, leb, ◌==◌, ◌&&◌, ◌||◌}
use mujina.Common.{if◌then◌else◌, from_bool, length, take, drop, replicate}

pub record Extranonce : Type 0 where
  pub counter : ℕ
  pub width : ℕ

pub record ExtranonceRange : Type 0 where
  pub first : ℕ
  pub last : ℕ
  pub width : ℕ

pub record ExtranonceIter : Type 0 where
  pub next_counter : Option ℕ
  pub last : ℕ
  pub width : ℕ

pub data ExtranonceError : Type 0 where
  invalid_width : ℕ → ExtranonceError
  beyond_counter : ExtranonceError

unfoldable pub check_width : ℕ → Result ExtranonceError ℕ
check_width width =
    if leb 1 width && leb width 32 then ok (width % 2 ^ 8) else err (invalid_width width)

unfoldable pub max_counter : ℕ → ℕ
max_counter width = if leb 64 (width * 8) then 2 ^ 64 - 1 else 2 ^ (width * 8) - 1

-- `padding.iter().any(|&b| b != 0)`.
unfoldable pub any_nonzero : List ℕ → Bool
any_nonzero [] = false
any_nonzero (b ∷ bs) = not (b == 0) || any_nonzero bs

-- `u64::from_be_bytes` and `to_be_bytes`: the value of bytes after those read into `acc`, and the
-- last `k` bytes of a word.
unfoldable pub be_value : ℕ → List ℕ → ℕ
be_value acc [] = acc
be_value acc (b ∷ bs) = be_value (acc * 2 ^ 8 + b) bs

unfoldable pub be_digits : ℕ → ℕ → List ℕ
be_digits zero w = []
be_digits (suc k) w = w / (2 ^ 8) ^ k % 2 ^ 8 ∷ be_digits k w

unfoldable pub from_bytes : List ℕ → Result ExtranonceError Extranonce
unfolding check_width any_nonzero be_value
from_bytes bs = check_width (length bs) >>= λ width.
    let padding = take (length bs - 8) bs in
    let tail = drop (length bs - 8) bs in
    if any_nonzero padding
    then err beyond_counter
    else ok (record { counter = be_value 0 (replicate (8 - length tail) 0 ++ tail); width = width })

unfoldable pub bytes : Extranonce → List ℕ
unfolding be_digits
bytes ext =
    let counter_bytes = min ext.width 8 in
    let padding = ext.width - counter_bytes in
    replicate padding 0 ++ drop (8 - counter_bytes) (be_digits 8 ext.counter)

unfoldable pub full : ℕ → Result ExtranonceError ExtranonceRange
unfolding check_width max_counter
full width = check_width width >>= λ w. ok (record { first = 0; last = max_counter w; width = w })

unfoldable pub starting_at : Extranonce → ExtranonceRange
unfolding max_counter
starting_at first = record {
  first = first.counter;
  last = max_counter first.width;
  width = first.width;
}

-- `len`, a `u128`.
unfoldable pub range_len : ExtranonceRange → ℕ
range_len range = range.last - range.first + 1

-- `for i in 0..parts`, from `i` on with `k` parts to go.
unfoldable pub split_parts : ℕ → ℕ → ℕ → ℕ → ℕ → ℕ → List ExtranonceRange
split_parts width base extra zero i first = []
split_parts width base extra (suc k) i first =
    let span = (base + from_bool (ltb i extra) - 1) % 2 ^ 64 in
    let last = (first + span) % 2 ^ 64 in
    record { first = first; last = last; width = width }
    ∷ split_parts width base extra k (suc i) ((last + 1) % 2 ^ 64)

unfoldable pub split : ExtranonceRange → ℕ → Option (List ExtranonceRange)
unfolding range_len split_parts
split range n =
    if (n == 0) || ltb (range_len range) n
    then none
    else some (split_parts range.width (range_len range / n) (range_len range % n) n 0 range.first)

unfoldable pub iter : ExtranonceRange → ExtranonceIter
iter range = record { next_counter = some range.first; last = range.last; width = range.width }

unfoldable pub start : ExtranonceRange → Extranonce
start range = record { counter = range.first; width = range.width }

unfoldable pub extranonce : ExtranonceIter → ℕ → Extranonce
extranonce it counter = record { counter = counter; width = it.width }

unfoldable pub remaining : ExtranonceIter → ℕ
remaining it = elim it.next_counter [ none ↦ 0 | some first ↦ it.last - first + 1 ]

-- `usize::try_from(self.remaining())`, of a 64-bit `usize`.
unfoldable pub size_hint : ExtranonceIter → ℕ × Option ℕ
unfolding remaining
size_hint it =
    if ltb (remaining it) (2 ^ 64) then (remaining it, some (remaining it)) else (2 ^ 64 - 1, none)

-- A panic is `none`.
unfoldable pub count : ExtranonceIter → Option ℕ
unfolding remaining
count it = if ltb (remaining it) (2 ^ 64) then some (remaining it) else none

unfoldable pub last : ExtranonceIter → Option Extranonce
unfolding extranonce
last it = elim it.next_counter [ none ↦ none | some _ ↦ some (extranonce it it.last) ]

-- The methods that advance the iterator return it, too.
unfoldable pub next : ExtranonceIter → ExtranonceIter × Option Extranonce
unfolding extranonce
next it = elim it.next_counter [
  | none ↦ (it, none)
  | some counter ↦ (
    record it { next_counter = if ltb counter it.last then some (counter + 1) else none },
    some (extranonce it counter),
  )
]

-- `checked_add` of the next counter and `n as u64`.
unfoldable pub nth : ExtranonceIter → ℕ → ExtranonceIter × Option Extranonce
unfolding next
nth it n = elim it.next_counter [
  | none ↦ (it, none)
  | some counter ↦
      if ltb (counter + n) (2 ^ 64) && leb (counter + n) it.last
      then next (record it { next_counter = some (counter + n) })
      else (record it { next_counter = none }, none)
]

unfoldable pub next_back : ExtranonceIter → ExtranonceIter × Option Extranonce
unfolding extranonce
next_back it = elim it.next_counter [
  | none ↦ (it, none)
  | some first ↦ (
    if it.last == first
        then record it { next_counter = none }
        else record it { last = it.last - 1 },
    some (extranonce it it.last),
  )
]

-- `checked_sub` of the last counter and `n as u64`.
unfoldable pub nth_back : ExtranonceIter → ℕ → ExtranonceIter × Option Extranonce
unfolding next_back
nth_back it n = elim it.next_counter [
  | none ↦ (it, none)
  | some first ↦
      if leb n it.last && leb first (it.last - n)
      then next_back (record it { last = it.last - n })
      else (record it { next_counter = none }, none)
]
