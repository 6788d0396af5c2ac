-- ===== src/Extranonce/Iterate.antt =====
-- mujina-miner/src/job_source/extranonce.rs: the order in which the iterator gives the extranonces.
mod Ends
use mujina.Common.{
  ℕ, zero, suc, ◌+◌, ◌-◌, ◌^◌, ◌≤◌, ◌<◌, ◌≡◌, refl, sym, ap, ◌∙◌, arith, List, [], ◌∷◌,
}
use mujina.Common.{
  Option, some, none, length, get_elem?, take, drop, min, ltb, leb, ◌==◌, ◌&&◌, Bool-cases,
}
use mujina.Common.{if◌then◌else◌, inl, inr, true, false}
use mujina.Extranonce.{Extranonce, ExtranonceIter, extranonce, next, nth, next_back, nth_back}

-- `n` counters from `lo` on.
unfoldable pub upto : ℕ → ℕ → List ℕ
upto lo zero = []
upto lo (suc n) = lo ∷ upto (suc lo) n

-- The counters that the iterator has still to give.
unfoldable pub left : ExtranonceIter → List ℕ
unfolding upto
left it = elim it.next_counter [ none ↦ [] | some c ↦ upto c (suc it.last - c) ]

-- The states of the code: the next counter is not beyond the last one, which is in a counter's range.
unfoldable pub IsIter : ExtranonceIter → Type 0
IsIter it = (it.last < 2 ^ 64) × elim it.next_counter [ none ↦ Unit {0} | some c ↦ c ≤ it.last ]

unfoldable pub give : ExtranonceIter → Option ℕ → Option Extranonce
unfolding extranonce
give it none = none
give it (some c) = some (extranonce it c)

length-upto : (lo n : ℕ) → length (upto lo n) ≡ n
unfolding upto
length-upto lo zero = refl
length-upto lo (suc n) = ap suc (length-upto (suc lo) n)

get_elem?-upto : (lo n k : ℕ) → get_elem? (upto lo n) k ≡ (if ltb k n then some (lo + k) else none)
unfolding upto
get_elem?-upto lo zero k = ground arith
get_elem?-upto lo (suc n) zero = ground arith
get_elem?-upto lo (suc n) (suc k) = ground (arith, get_elem?-upto (suc lo) n k)

drop-upto : (lo n k : ℕ) → drop k (upto lo n) ≡ upto (lo + k) (n - k)
unfolding upto
drop-upto lo n zero = ground arith
drop-upto lo zero (suc k) = ground arith
drop-upto lo (suc n) (suc k) = ground (arith, drop-upto (suc lo) n k)

take-upto : (lo n k : ℕ) → take k (upto lo n) ≡ upto lo (min k n)
unfolding upto
take-upto lo n zero = ground arith
take-upto lo zero (suc k) = ground arith
take-upto lo (suc n) (suc k) = ground (arith, take-upto (suc lo) n k)

-- An iterator by its parts, since the proofs split on them.
iterator : Option ℕ → ℕ → ℕ → ExtranonceIter
iterator c last width = record { next_counter = c; last = last; width = width }

nil_eq : (lo n : ℕ) → n ≡ 0 → upto lo n ≡ []
unfolding upto
nil_eq lo n e = rw e refl

nth-some :
    (c last width n : ℕ)
    → last < 2 ^ 64
    → c ≤ last
    → (left (nth (iterator (some c) last width) n).0
        ≡ drop (suc n) (left (iterator (some c) last width)))
      × ((nth (iterator (some c) last width) n).1
          ≡ give (iterator (some c) last width) (get_elem? (left (iterator (some c) last width)) n))
unfolding iterator left nth next give extranonce
nth-some c last width n bound le =
    rw (drop-upto c (suc last - c) (suc n), get_elem?-upto c (suc last - c) n)
      (elim (Bool-cases (leb (c + n) last)) [
        | inr h ↦
            let few : ltb n (suc last - c) ≡ false = ground arith in
            let none_left : (ltb (c + n) (2 ^ 64) && leb (c + n) last) ≡ false = ground arith in
            rw (few, none_left)
              (sym (nil_eq (c + suc n) (suc last - c - suc n) (ground arith)), refl)
        | inl h ↦
            let fits : ltb (c + n) (2 ^ 64) ≡ true = ground arith in
            let many : ltb n (suc last - c) ≡ true = ground arith in
            elim (Bool-cases (ltb (c + n) last)) [
              | inl l ↦
                  rw (h, fits, many, l)
                    (
                      ap (upto ((c + n) + 1)) (omega arith)
                          ∙ ap (λ m. upto m (suc last - c - suc n)) (omega arith),
                      refl,
                    )
              | inr l ↦
                  rw (h, fits, many, l)
                    (sym (nil_eq (c + suc n) (suc last - c - suc n) (ground arith)), refl)
            ]
      ])

nth_back-some :
    (c last width n : ℕ)
    → last < 2 ^ 64
    → c ≤ last
    → (left (nth_back (iterator (some c) last width) n).0
        ≡ take (suc last - c - suc n) (left (iterator (some c) last width)))
      × ((nth_back (iterator (some c) last width) n).1 ≡ (
          if ltb n (suc last - c)
          then give
              (iterator (some c) last width)
              (get_elem? (left (iterator (some c) last width)) (suc last - c - suc n))
          else none))
unfolding iterator left nth_back next_back give extranonce
nth_back-some c last width n bound le =
    rw
      (
        take-upto c (suc last - c) (suc last - c - suc n),
        get_elem?-upto c (suc last - c) (suc last - c - suc n),
      )
      (elim (Bool-cases (leb (c + n) last)) [
        | inr h ↦
            let few : ltb n (suc last - c) ≡ false = ground arith in
            let none_left : (leb n last && leb c (last - n)) ≡ false = ground arith in
            rw (few, none_left)
              (sym (nil_eq c (min (suc last - c - suc n) (suc last - c)) (ground arith)), refl)
        | inl h ↦
            let low : leb n last ≡ true = ground arith in
            let fits : leb c (last - n) ≡ true = ground arith in
            let many : ltb n (suc last - c) ≡ true = ground arith in
            let inside : ltb (suc last - c - suc n) (suc last - c) ≡ true = ground arith in
            let place : c + (suc last - c - suc n) ≡ last - n = ground arith in
            elim (Bool-cases (last - n == c)) [
              | inl e ↦
                  rw (low, fits, many, inside, e, place)
                    (
                      sym (nil_eq c (min (suc last - c - suc n) (suc last - c)) (ground arith)),
                      refl,
                    )
              | inr e ↦ rw (low, fits, many, inside, e, place) (ap (upto c) (ground arith), refl)
            ]
      ])

nth_parts :
    (next : Option ℕ) (last width n : ℕ)
    → IsIter (iterator next last width)
    → (left (nth (iterator next last width) n).0 ≡ drop (suc n) (left (iterator next last width)))
      × ((nth (iterator next last width) n).1
          ≡ give (iterator next last width) (get_elem? (left (iterator next last width)) n))
unfolding left nth IsIter give iterator
nth_parts none last width n (bound, le) = (refl, refl)
nth_parts (some c) last width n (bound, le) = nth-some c last width n bound le

nth_back_parts :
    (next : Option ℕ) (last width n : ℕ)
    → IsIter (iterator next last width)
    → (left (nth_back (iterator next last width) n).0
        ≡ take (length (left (iterator next last width)) - suc n) (left (iterator next last width)))
      × ((nth_back (iterator next last width) n).1 ≡ (
          if ltb n (length (left (iterator next last width)))
          then give (iterator next last width) (
              get_elem?
                (left (iterator next last width))
                (length (left (iterator next last width)) - suc n))
          else none))
unfolding left nth_back IsIter give iterator
nth_back_parts none last width n (bound, le) = (ground arith, ground arith)
nth_back_parts (some c) last width n (bound, le) =
    rw (length-upto c (suc last - c)) (nth_back-some c last width n bound le)

next_is_nth :
    (next_counter : Option ℕ) (last width : ℕ)
    → IsIter (iterator next_counter last width)
    → next (iterator next_counter last width) ≡ nth (iterator next_counter last width) 0
unfolding next nth IsIter iterator
next_is_nth none last width ok = refl
next_is_nth (some c) last width (bound, le) =
    let fits : ltb (c + 0) (2 ^ 64) ≡ true = ground arith in
    let inside : leb (c + 0) last ≡ true = ground arith in
    let same : c + 0 ≡ c = omega arith in rw (fits, inside, same) refl

-- On an iterator whose next counter, if any, is not beyond its last one, `nth(n)` gives the
-- extranonce at place `n` of those left, if there is one, and leaves those behind it; `next` is
-- `nth(0)`.
pub nth-left :
    (it : ExtranonceIter) (n : ℕ)
    → IsIter it
    → (left (nth it n).0 ≡ drop (suc n) (left it))
      × ((nth it n).1 ≡ give it (get_elem? (left it) n))
      × (next it ≡ nth it 0)
unfolding iterator
nth-left it n ok =
    let (rest, value) = nth_parts it.next_counter it.last it.width n ok in
    (rest, value, next_is_nth it.next_counter it.last it.width ok)

-- On an iterator whose next counter, if any, is not beyond its last one, `nth_back(n)` gives the extranonce at place `n` from the end of those left, if there is one, and
-- leaves those before it.
pub nth_back-left :
    (it : ExtranonceIter) (n : ℕ)
    → IsIter it
    → (left (nth_back it n).0 ≡ take (length (left it) - suc n) (left it))
      × ((nth_back it n).1 ≡ (
          if ltb n (length (left it))
          then give it (get_elem? (left it) (length (left it) - suc n))
          else none))
unfolding iterator
nth_back-left it n ok = nth_back_parts it.next_counter it.last it.width n ok
