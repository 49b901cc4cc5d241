-- ===== src/TaskQueue/Tests.antt =====
-- The queue of base/TaskQueue.h at concrete contents.
use hudp.Common.{ℕ, ◌≡◌, refl, [], ◌∷◌, some, none}
use hudp.TaskQueue.{TaskQueue, new_task_queue, push, push_front, pop, pop_back}

abbrev two : TaskQueue ℕ
two = record { list_size = 2; block_queue = 3 ∷ 4 ∷ [] }

-- A full queue makes `Push` wait, and an empty one `Pop`.
full_waits : push 5 two ≡ none
unfolding push
full_waits = refl

empty_waits : pop {A = ℕ} (new_task_queue 0) ≡ none
unfolding pop pop_back
empty_waits = refl

last_pushed : pop two ≡ some (record { list_size = 2; block_queue = 3 ∷ [] }, 4)
unfolding pop pop_back
last_pushed = refl

abbrev three : TaskQueue ℕ
three = record { list_size = 3; block_queue = 3 ∷ 4 ∷ [] }

in_front : push_front 5 three ≡ some (record three { block_queue = 5 ∷ 3 ∷ 4 ∷ [] })
unfolding push_front
in_front = refl
