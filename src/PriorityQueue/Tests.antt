-- ===== src/PriorityQueue/Tests.antt =====
-- Runs of common/PriorityQueue.cpp, and the theorems at concrete queues.
use hudp.Common.{ℕ, ◌+◌, ◌≡◌, ◌≤◌, ◌<◌, ◌≢◌, refl, [], ◌∷◌, ◌++◌, none, some, arith}
use hudp.Message.{Store}
use hudp.PriorityQueue.{PriorityQueue, empty_queue, push_back, pop, size}
use hudp.PriorityQueue.Conservation.{Took, pop-Took_and_size}
use hudp.PriorityQueue.Liveness.{after_pops, low_served}
use hudp.PriorityQueue.Levels.{upper_msg, control_msg, push_back-ignores_header}

abbrev busy : PriorityQueue
busy = record empty_queue {
  low = 40 ∷ 41 ∷ [];
  normal = 30 ∷ [];
  high = 20 ∷ 21 ∷ [];
  highest = 10 ∷ 11 ∷ 12 ∷ [];
}

-- Two messages of the highest level, then one of the next.
first_pops :
    ((pop busy).1 ≡ some 10)
    × ((pop (after_pops 1 busy)).1 ≡ some 11)
    × ((pop (after_pops 2 busy)).1 ≡ some 20)
    × ((pop (after_pops 3 busy)).1 ≡ some 12)
unfolding pop
first_pops = (refl, refl, refl, refl)

pop-Took_and_size_example :
    ((pop busy).1 ≡ some 10 → Took 10 busy (pop busy).0)
    × (0 < size busy → ((pop busy).1 ≢ none) × (size (pop busy).0 + 1 ≡ size busy))
    × (size busy ≡ 0 → ((pop busy).1 ≡ none) × (size (pop busy).0 ≡ 0))
pop-Took_and_size_example = pop-Took_and_size busy 10

low_served_example : (k : ℕ) × (k ≤ 26) × ((pop (after_pops k busy)).1 ≡ some 40)
low_served_example = low_served busy 40 (41 ∷ []) (omega arith) refl

-- Two messages with the highest priority in their headers.
abbrev store : Store
store p = upper_msg 0x81

header_is_not_read :
    (store 7 ≡ upper_msg 0x81 → push_back store 7 busy ≡ record busy { low = busy.low ++ (7 ∷ []) })
    × (store 7 ≡ control_msg 0x81 → push_back store 7 busy ≡ busy)
header_is_not_read = push_back-ignores_header store 7 0x81 busy
