-- ===== src/Bm13xx/JobTracker/History.antt =====
-- mujina-miner/src/asic/bm13xx/thread.rs, `ChipJobTracker`: what the slots hold after any calls.
use mujina.Common.{ℕ, zero, suc, ◌+◌, ◌%◌, ◌<◌, ◌≡◌, refl, ap, ◌∙◌, arith, List, [], ◌∷◌}
use mujina.Common.{
  Option-cases, Bool-cases, inl, inr, Option, some, none, length, get_elem?, set, replicate, ◌==◌,
  if◌then◌else◌,
}
use mujina.Bm13xx.JobTracker.{ChipJobTracker, new, insert, get, clear}

length-set : {A : Type 0} (xs : List A) (i : ℕ) (v : A) → length (set xs i v) ≡ length xs
length-set [] i v = refl
length-set (x ∷ xs) zero v = refl
length-set (x ∷ xs) (suc i) v = ap suc (length-set xs i v)

get_elem?-set :
    {A : Type 0} (xs : List A) (i k : ℕ) (v : A)
    → i < length xs
    → get_elem? (set xs i v) k ≡ (if i == k then some v else get_elem? xs k)
get_elem?-set [] i k v h = absurd (omega arith)
get_elem?-set (x ∷ xs) zero zero v h = ground arith
get_elem?-set (x ∷ xs) zero (suc k) v h = ground arith
get_elem?-set (x ∷ xs) (suc i) zero v h = ground arith
get_elem?-set (x ∷ xs) (suc i) (suc k) v h =
    let rest = get_elem?-set xs i k v (omega arith) in ground (arith, rest)

-- A call that changes the tracker.
pub data Call (Task : Type 0) : Type 0 where
  inserted : Task → Call Task
  cleared : Call Task

module _ {Task : Type 0} where
  unfoldable pub apply : Call Task → ChipJobTracker Task → ChipJobTracker Task
  apply (Call.inserted task) tracker = (insert task tracker).0
  apply Call.cleared tracker = clear tracker

  -- The calls, the last one first.
  unfoldable pub after : List (Call Task) → ChipJobTracker Task
  unfolding apply
  after [] = new
  after (c ∷ cs) = apply c (after cs)

  -- What the promise is, from the calls alone: ids go round the sixteen in turn, a clear does not
  -- start them over, and an id stands for the last task that got it since the last clear.
  unfoldable pub next_of : List (Call Task) → ℕ
  next_of [] = 0
  next_of (Call.inserted task ∷ cs) = (next_of cs + 1) % 16
  next_of (Call.cleared ∷ cs) = next_of cs

  unfoldable pub latest : ℕ → List (Call Task) → Option Task
  unfolding next_of
  latest id [] = none
  latest id (Call.inserted task ∷ cs) =
      let rest = latest id cs in if next_of cs == id then some task else rest
  latest id (Call.cleared ∷ cs) = none

  slot : Option (Option Task) → Option Task
  slot none = none
  slot (some o) = o

  empty_slot : (n k : ℕ) → slot (get_elem? (replicate n none) k) ≡ none
  unfolding slot
  empty_slot zero k = refl
  empty_slot (suc n) zero = refl
  empty_slot (suc n) (suc k) = empty_slot n k

  get-slot :
      (tracker : ChipJobTracker Task) (id : ℕ) → get tracker id ≡ slot (get_elem? tracker.tasks id)
  unfolding get slot
  get-slot tracker id = elim (Option-cases (get_elem? tracker.tasks id)) [
    | inl e ↦ rw (e, get, slot) refl
    | inr (o, e) ↦ rw (e, get, slot) refl
  ]

  pub after-next_id :
      (cs : List (Call Task))
      → (length (after cs).tasks ≡ 16) × ((after cs).next_id ≡ next_of cs) × (next_of cs < 16)
  unfolding after next_of apply new insert clear
  after-next_id [] = (refl, refl, omega arith)
  after-next_id (Call.inserted task ∷ cs) =
      let (len, id, lt) = after-next_id cs in
      (
        length-set (after cs).tasks (after cs).next_id (some task) ∙ len,
        rw (len, id) refl,
        omega arith,
      )
  after-next_id (Call.cleared ∷ cs) = let (len, id, lt) = after-next_id cs in (refl, id, lt)

  slots : (cs : List (Call Task)) (id : ℕ) → slot (get_elem? (after cs).tasks id) ≡ latest id cs
  unfolding after apply new insert clear latest slot
  slots [] id = empty_slot 16 id
  slots (Call.inserted task ∷ cs) id =
      let (len, next, lt) = after-next_id cs in
      let stored = get_elem?-set (after cs).tasks (after cs).next_id id (some task) (omega arith) in
      rw (stored, next)
        (elim (Bool-cases (next_of cs == id)) [ inl h ↦ rw h refl | inr h ↦ rw h (slots cs id) ])
  slots (Call.cleared ∷ cs) id = empty_slot 16 id

  -- After any calls, `get` returns for an id the task that was inserted last under it since the last
  -- `clear`, and the next `insert` returns the id after the last one, round the sixteen.
  pub get-latest :
      (cs : List (Call Task)) (id : ℕ) (task : Task)
      → (get (after cs) id ≡ latest id cs) × ((insert task (after cs)).1 ≡ next_of cs)
  unfolding insert
  get-latest cs id task =
      let (len, next, lt) = after-next_id cs in (get-slot (after cs) id ∙ slots cs id, next)
