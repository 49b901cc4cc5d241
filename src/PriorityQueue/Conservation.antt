-- ===== src/PriorityQueue/Conservation.antt =====
-- What `Pop` of common/PriorityQueue.cpp takes out is what was in the queue.
use hudp.Common.{◌+◌, ◌<◌, ◌≡◌, ◌≢◌, ◌⊎◌, none, some, ◌∷◌, arith}
use hudp.Message.{Ptr}
use hudp.PriorityQueue.{PriorityQueue, pop, size}

-- The levels of `r` are those of `q` without `msg`, which was the oldest of one level.
abbrev pub Took : Ptr → PriorityQueue → PriorityQueue → Type 0
Took msg q r =
    ((q.low ≡ msg ∷ r.low) × (q.normal ≡ r.normal) × (q.high ≡ r.high) × (q.highest ≡ r.highest))
    ⊎ (q.low ≡ r.low) × (q.normal ≡ msg ∷ r.normal) × (q.high ≡ r.high) × (q.highest ≡ r.highest)
    ⊎ (q.low ≡ r.low) × (q.normal ≡ r.normal) × (q.high ≡ msg ∷ r.high) × (q.highest ≡ r.highest)
    ⊎ (q.low ≡ r.low) × (q.normal ≡ r.normal) × (q.high ≡ r.high) × (q.highest ≡ msg ∷ r.highest)

-- A message that `Pop` returns was the oldest of one level, and that level loses it; the other
-- three levels keep their messages and their order.
pop-Took : (q : PriorityQueue) (msg : Ptr) → (pop q).1 ≡ some msg → Took msg q (pop q).0
unfolding pop
pop-Took q msg h = ground arith

-- `Pop` returns null exactly on a queue of size 0, whatever its counts are; when it returns a
-- message the size goes down by one, and otherwise the size stays 0.
pub pop-size :
    (q : PriorityQueue)
    → (0 < size q → ((pop q).1 ≢ none) × (size (pop q).0 + 1 ≡ size q))
      × (size q ≡ 0 → ((pop q).1 ≡ none) × (size (pop q).0 ≡ 0))
unfolding pop size
pop-size q = ground arith

-- Whatever its counts are, `Pop` returns null exactly on a queue of size 0, which stays empty. On
-- any other queue the size goes down by one: the message that is returned was the oldest of one
-- level, which loses it, and the other three levels keep their messages and their order.
pub pop-Took_and_size :
    (q : PriorityQueue) (msg : Ptr)
    → ((pop q).1 ≡ some msg → Took msg q (pop q).0)
      × (0 < size q → ((pop q).1 ≢ none) × (size (pop q).0 + 1 ≡ size q))
      × (size q ≡ 0 → ((pop q).1 ≡ none) × (size (pop q).0 ≡ 0))
pop-Took_and_size q msg = let counted = pop-size q in (pop-Took q msg, counted.0, counted.1)
