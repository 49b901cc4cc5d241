-- ===== src/PriorityQueue/Liveness.antt =====
-- No level of common/PriorityQueue.cpp starves.
use hudp.Common.{ℕ, zero, suc, ◌+◌, ◌*◌, ◌≤◌, ◌<◌, ◌≡◌, ◌⊎◌, inl, inr, some, List, ◌∷◌, arith}
use hudp.Message.{Ptr}
use hudp.PriorityQueue.{PriorityQueue, pop}

-- The counts never pass `__pri_surplus`.
pub record IsValid (q : PriorityQueue) : Type 0 where
  pub normal_in : q.pri_normal_count ≤ 2
  pub high_in : q.pri_high_count ≤ 2
  pub highest_in : q.pri_highest_count ≤ 2

pub pop-IsValid : (q : PriorityQueue) → IsValid q → IsValid (pop q).0
unfolding pop
pop-IsValid q v = ground arith

-- How many messages may still go before one of the lowest level.
abbrev credit : PriorityQueue → ℕ
credit q = 9 * q.pri_normal_count + 3 * q.pri_high_count + q.pri_highest_count

pop-low :
    (q : PriorityQueue) (msg : Ptr) (rest : List Ptr)
    → IsValid q
    → q.low ≡ msg ∷ rest
    → ((pop q).1 ≡ some msg) ⊎ ((pop q).0.low ≡ msg ∷ rest) × (credit (pop q).0 < credit q)
unfolding pop
pop-low q msg rest v h = ground arith

-- The queue after `k` calls of `Pop`.
abbrev pub after_pops : ℕ → PriorityQueue → PriorityQueue
after_pops zero q = q
after_pops (suc k) q = after_pops k (pop q).0

served :
    (n : ℕ) (q : PriorityQueue) (msg : Ptr) (rest : List Ptr)
    → credit q ≤ n
    → IsValid q
    → q.low ≡ msg ∷ rest
    → (k : ℕ) × (k ≤ n) × ((pop (after_pops k q)).1 ≡ some msg)
served zero q msg rest c v h = elim (pop-low q msg rest v h) [
  | inl now ↦ (0, omega arith, now)
  | inr later ↦ absurd (omega (arith, later.1))
]
served (suc n) q msg rest c v h = elim (pop-low q msg rest v h) [
  | inl now ↦ (0, omega arith, now)
  | inr later ↦
      let (k, small, found) =
        served n (pop q).0 msg rest (omega (arith, later.1)) (pop-IsValid q v) later.0 in
      (suc k, omega arith, found)
]

-- The oldest message of the lowest level is returned after at most 26 other messages, however
-- full the three levels above it are.
pub low_served :
    (q : PriorityQueue) (msg : Ptr) (rest : List Ptr)
    → IsValid q
    → q.low ≡ msg ∷ rest
    → (k : ℕ) × (k ≤ 26) × ((pop (after_pops k q)).1 ≡ some msg)
low_served q msg rest v h = served 26 q msg rest (omega (arith, v)) v h
