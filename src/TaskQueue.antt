-- ===== src/TaskQueue.antt =====
-- The queue between threads, base/TaskQueue.h, and the thread that has one,
-- base/RunnableAloneTaskList.h. The lock makes every call one step; a call that has to wait for another
-- thread answers `none`.
mod Tests
pub mod LastFirst
use hudp.Common.{ℕ, ◌+◌, Option, none, some, List, [], ◌∷◌, ◌++◌, ltb, length, if◌then◌else◌}

-- `INT_MAX`.
abbrev pub int_max : ℕ
int_max = 2147483647

pub record TaskQueue {ℓ} (A : Type ℓ) : Type ℓ where
  pub list_size : ℕ
  pub block_queue : List A

module _ {ℓ} {A : Type ℓ} where
  -- The constructor; 0 stands for every size that is not above 0.
  abbrev pub new_task_queue : ℕ → TaskQueue A
  new_task_queue size = record {
    list_size = if ltb 0 size then size else int_max;
    block_queue = [];
  }

  -- `Push` and `PushFront`.
  unfoldable pub push : A → TaskQueue A → Option (TaskQueue A)
  push element q =
      if ltb (length q.block_queue) q.list_size
      then some (record q { block_queue = q.block_queue ++ (element ∷ []) })
      else none

  unfoldable pub push_front : A → TaskQueue A → Option (TaskQueue A)
  push_front element q =
      if ltb (length q.block_queue) q.list_size
      then some (record q { block_queue = element ∷ q.block_queue })
      else none

  -- `back()` and `pop_back()` of `std::list`.
  unfoldable pub pop_back : List A → Option (List A × A)
  pop_back [] = none
  pop_back (x ∷ xs) = elim (pop_back xs) [
    | none ↦ some ([], x)
    | some (rest, back) ↦ some (x ∷ rest, back)
  ]

  unfoldable pub pop : TaskQueue A → Option (TaskQueue A × A)
  unfolding pop_back
  pop q = elim (pop_back q.block_queue) [
    | none ↦ none
    | some (rest, back) ↦ some (record q { block_queue = rest }, back)
  ]

  abbrev pub clear : TaskQueue A → TaskQueue A
  clear q = record q { block_queue = [] }

  abbrev pub size : TaskQueue A → ℕ
  size q = length q.block_queue
