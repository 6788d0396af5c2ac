-- ===== src/Extranonce/Iterate/Ends.antt =====
-- mujina-miner/src/job_source/extranonce.rs: the count and the last of what the iterator has to give.
use mujina.Common.{
  ℕ, suc, ◌+◌, ◌-◌, ◌^◌, ◌≡◌, refl, ap, arith, Option, some, none, length, get_elem?, ltb,
  if◌then◌else◌, true,
}
use mujina.Extranonce.{ExtranonceIter, remaining, count, last, extranonce}
use mujina.Extranonce.Iterate.{left, IsIter, give, length-upto, get_elem?-upto, iterator}

ends_parts :
    (c : Option ℕ) (final width : ℕ)
    → IsIter (iterator c final width)
    → let it = iterator c final width in
      (remaining it ≡ length (left it))
      × (last it ≡ give it (get_elem? (left it) (length (left it) - 1)))
unfolding remaining left IsIter last give iterator extranonce
ends_parts none final width is = (refl, refl)
ends_parts (some c) final width (bound, le) =
    let inside : ltb (suc final - c - 1) (suc final - c) ≡ true = ground arith in
    let same : c + (suc final - c - 1) ≡ final = omega arith in
    let number = length-upto c (suc final - c) in
    (
      omega (arith, number),
      rw (number, get_elem?-upto c (suc final - c) (suc final - c - 1), inside, same) refl,
    )

-- The iterator counts those left, unless they are more than a `usize` holds, and its last one is the
-- last of them.
ends-left :
    (it : ExtranonceIter)
    → IsIter it
    → (count it ≡ (if ltb (length (left it)) (2 ^ 64) then some (length (left it)) else none))
      × (last it ≡ give it (get_elem? (left it) (length (left it) - 1)))
unfolding iterator count
ends-left it is =
    let (number, final) = ends_parts it.next_counter it.last it.width is in
    (ap (λ n. if ltb n (2 ^ 64) then some n else none) number, final)
