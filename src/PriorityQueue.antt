-- ===== src/PriorityQueue.antt =====
-- The four-level priority queue of common/PriorityQueue.h and common/PriorityQueue.cpp. The
-- array `_queue_arr` is a field for each level, oldest message first. A queue holds pointers; the
-- store of messages is read where `PushBack` reads a flag.
mod Tests
pub mod Conservation
pub mod Liveness
pub mod Levels
use hudp.Common.{
  ℕ, ◌+◌, ◌-◌, Bool, true, false, Option, none, some, List, [], ◌∷◌, ◌++◌, ltb, if◌then◌else◌, has,
  length, u16,
}
use hudp.Config.{pri_surplus, hpf_low_pri, hpf_nromal_pri, hpf_high_pri, hpf_highest_pri}
use hudp.Message.{Msg, Ptr, Store}

pub record PriorityQueue : Type 0 where
  pub low : List Ptr
  pub normal : List Ptr
  pub high : List Ptr
  pub highest : List Ptr
  pub pri_normal_count : ℕ
  pub pri_high_count : ℕ
  pub pri_highest_count : ℕ

-- The constructor.
abbrev pub empty_queue : PriorityQueue
empty_queue = record {
  low = [];
  normal = [];
  high = [];
  highest = [];
  pri_normal_count = pri_surplus;
  pri_high_count = pri_surplus;
  pri_highest_count = pri_surplus;
}

-- The flag is `GetFlag()`, the message's own flags and not those of its header.
unfoldable pub push_back : Store → Ptr → PriorityQueue → PriorityQueue
push_back store msg q =
    let flag = u16 (store msg).flag in
    if has flag hpf_low_pri
    then record q { low = q.low ++ (msg ∷ []) }
    else if has flag hpf_nromal_pri
    then record q { normal = q.normal ++ (msg ∷ []) }
    else if has flag hpf_high_pri
    then record q { high = q.high ++ (msg ∷ []) }
    else if has flag hpf_highest_pri
    then record q { highest = q.highest ++ (msg ∷ []) }
    else q

-- The three guarded blocks of `Pop`, in their order; each goes on to the next by `otherwise`.
unfoldable pub pop_highest :
    PriorityQueue → PriorityQueue × Option Ptr → List Ptr → PriorityQueue × Option Ptr
pop_highest q otherwise [] = otherwise
pop_highest q otherwise (msg ∷ rest) =
    if ltb 0 q.pri_highest_count
    then (record q { highest = rest; pri_highest_count = q.pri_highest_count - 1 }, some msg)
    else otherwise

unfoldable pub pop_high :
    PriorityQueue → PriorityQueue × Option Ptr → List Ptr → PriorityQueue × Option Ptr
pop_high q otherwise [] = otherwise
pop_high q otherwise (msg ∷ rest) =
    if ltb 0 q.pri_high_count
    then (
      record q {
        high = rest;
        pri_highest_count = pri_surplus;
        pri_high_count = q.pri_high_count - 1;
      },
      some msg,
    )
    else otherwise

unfoldable pub pop_normal :
    PriorityQueue → PriorityQueue × Option Ptr → List Ptr → PriorityQueue × Option Ptr
pop_normal q otherwise [] = otherwise
pop_normal q otherwise (msg ∷ rest) =
    if ltb 0 q.pri_normal_count
    then (
      record q {
        normal = rest;
        pri_high_count = pri_surplus;
        pri_highest_count = pri_surplus;
        pri_normal_count = q.pri_normal_count - 1;
      },
      some msg,
    )
    else otherwise

unfoldable pub pop_upper : PriorityQueue → PriorityQueue × Option Ptr → PriorityQueue × Option Ptr
unfolding pop_highest pop_high pop_normal
pop_upper q otherwise =
    pop_highest q (pop_high q (pop_normal q otherwise q.normal) q.high) q.highest

-- The assignments after the three blocks.
unfoldable pub reset_counts : PriorityQueue → PriorityQueue
reset_counts q = record q {
  pri_normal_count = pri_surplus;
  pri_high_count = pri_surplus;
  pri_highest_count = pri_surplus;
}

-- `Pop` below the first three blocks, on the queue with its counts reset.
unfoldable pub pop_low : PriorityQueue → List Ptr → PriorityQueue × Option Ptr
unfolding pop_upper
pop_low q [] = pop_upper q (q, none)
pop_low q (msg ∷ rest) = (record q { low = rest }, some msg)

unfoldable pub pop : PriorityQueue → PriorityQueue × Option Ptr
unfolding pop_upper pop_low reset_counts
pop q = pop_upper q (pop_low (reset_counts q) q.low)

unfoldable pub size : PriorityQueue → ℕ
size q = length q.highest + length q.high + length q.normal + length q.low

unfoldable pub clear : PriorityQueue → PriorityQueue
clear q = record q { low = []; normal = []; high = []; highest = [] }
