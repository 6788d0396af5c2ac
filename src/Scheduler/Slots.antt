-- ===== src/Scheduler/Slots.antt =====
-- The slot maps of mujina-miner/src/scheduler.rs, of the slotmap crate: values under keys that the
-- map hands out, never the same one twice. A key is the number of the insertion that made it, and
-- the values are visited in the order of insertion; the crate leaves the order open.
pub mod Keys
use mujina.Common.{
  ℕ, ◌+◌, ◌<◌, ◌≡◌, refl, arith, Bool, true, false, ◌||◌, List, [], ◌∷◌, ◌++◌, Option, none, some,
  ◌==◌, if◌then◌else◌, All, map,
}

pub record SlotMap (V : Type 0) : Type 0 where
  pub issued : ℕ
  pub entries : List (ℕ × V)

-- Whether a key is among these.
unfoldable pub contains : List ℕ → ℕ → Bool
contains [] key = false
contains (k ∷ rest) key = (k == key) || contains rest key

-- The keys that satisfy the test.
unfoldable pub keep : (ℕ → Bool) → List ℕ → List ℕ
keep p [] = []
keep p (k ∷ rest) = let kept = keep p rest in if p k then k ∷ kept else kept

module _ {V : Type 0} where
  unfoldable pub empty : SlotMap V
  empty = record { issued = 0; entries = [] }

  unfoldable pub insert : SlotMap V → V → SlotMap V × ℕ
  insert m v =
      (record { issued = m.issued + 1; entries = m.entries ++ (m.issued, v) ∷ [] }, m.issued)

  unfoldable pub find : List (ℕ × V) → ℕ → Option V
  find [] key = none
  find ((k, v) ∷ rest) key = let found = find rest key in if k == key then some v else found

  unfoldable pub get : SlotMap V → ℕ → Option V
  unfolding find
  get m key = find m.entries key

  -- A write through `get_mut`, at a key that is present.
  unfoldable pub put_in : List (ℕ × V) → ℕ → V → List (ℕ × V)
  put_in [] key v = []
  put_in ((k, u) ∷ rest) key v =
      let written = put_in rest key v in if k == key then (k, v) ∷ written else (k, u) ∷ written

  unfoldable pub put : SlotMap V → ℕ → V → SlotMap V
  unfolding put_in
  put m key v = record m { entries = put_in m.entries key v }

  unfoldable pub filter_entries : (ℕ → V → Bool) → List (ℕ × V) → List (ℕ × V)
  filter_entries p [] = []
  filter_entries p ((k, v) ∷ rest) =
      let kept = filter_entries p rest in if p k v then (k, v) ∷ kept else kept

  unfoldable pub retain : (ℕ → V → Bool) → SlotMap V → SlotMap V
  unfolding filter_entries
  retain p m = record m { entries = filter_entries p m.entries }

  -- `values_mut`, with what is written to each.
  unfoldable pub each : (V → V) → SlotMap V → SlotMap V
  each f m = record m { entries = map (λ e. (e.0, f e.1)) m.entries }

  unfoldable pub keys : SlotMap V → List ℕ
  keys m = map (λ e. e.0) m.entries

  unfoldable pub values : SlotMap V → List V
  values m = map (λ e. e.1) m.entries
