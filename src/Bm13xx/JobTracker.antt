-- ===== src/Bm13xx/JobTracker.antt =====
-- mujina-miner/src/asic/bm13xx/thread.rs, `ChipJobTracker`: the tasks sent to the chips, in sixteen
-- slots. The tracker only stores and hands back tasks, so their type is a parameter.
pub mod History
use mujina.Common.{ℕ, ◌+◌, ◌%◌, List, Option, some, none, length, get_elem?, set, replicate}

pub record ChipJobTracker (Task : Type 0) : Type 0 where
  pub tasks : List (Option Task)
  pub next_id : ℕ

module _ {Task : Type 0} where
  unfoldable pub new : ChipJobTracker Task
  new = record { tasks = replicate 16 none; next_id = 0 }

  -- The tracker after the call, and the id it returns.
  unfoldable pub insert : Task → ChipJobTracker Task → ChipJobTracker Task × ℕ
  insert task tracker = (
    record {
      tasks = set tracker.tasks tracker.next_id (some task);
      next_id = (tracker.next_id + 1) % length tracker.tasks;
    },
    tracker.next_id,
  )

  unfoldable pub get : ChipJobTracker Task → ℕ → Option Task
  get tracker chip_job_id = elim (get_elem? tracker.tasks chip_job_id) [
    | none ↦ none
    | some slot ↦ slot
  ]

  unfoldable pub clear : ChipJobTracker Task → ChipJobTracker Task
  clear tracker = record tracker { tasks = replicate 16 none }
