-- ===== src/OrderList.antt =====
-- The receive lists of common/OrderListImpl.h and common/OrderListImpl.cpp. `Insert` returns the
-- new list, the messages that it hands to `ToRecv`, in that order, and its return code. The lists
-- hold pointers; ids are read from the store of messages.
mod Tests
pub mod Drain
pub mod InOrder
pub mod Stream
pub mod Stale
pub mod Reliable
pub mod Orderly
use hudp.Common.{
  ℕ, zero, suc, ◌+◌, ◌-◌, ◌/◌, ◌%◌, Bool, ◌&&◌, ◌||◌, Option, none, some, List, [], ◌∷◌, ◌++◌, ltb,
  leb, ◌==◌, if◌then◌else◌, u16, get_or, set, replicate,
}
use hudp.Config.{max_compare_num, max_id, msx_cache_msg_num, msg_discard_limit}
use hudp.Message.{Ptr, Store}

-- `GetId()` of the message that a pointer leads to.
abbrev pub id_of : Store → Ptr → ℕ
id_of store msg = (store msg).head.id

-- `id & (__msx_cache_msg_num - 1)`; the size is a power of two.
abbrev pub hash_func : ℕ → ℕ
hash_func id = id % msx_cache_msg_num

-- `std::abs(a - b)`.
abbrev pub abs_diff : ℕ → ℕ → ℕ
abs_diff a b = if ltb a b then b - a else a - b

-- The guard of `Insert` in the two orderly lists.
abbrev pub too_far : ℕ → ℕ → Bool
too_far expect_id id =
    ltb max_compare_num (abs_diff id expect_id)
    || (ltb (max_id - max_compare_num / 2) expect_id && ltb id (max_compare_num / 2))

-- The code that the guard returns, from the count of discarded messages.
abbrev pub discard_code : ℕ → ℕ
discard_code count = if leb msg_discard_limit count then 2 else 0

pub record ReliableOrderlyList : Type 0 where
  pub discard_msg_count : ℕ
  pub expect_id : ℕ
  pub order_list : List (Option Ptr)

-- The constructor. `_recv_list` is filled and emptied within one `Insert`, and is the list of
-- messages that `insert` returns.
abbrev pub new_reliable_orderly : ℕ → ReliableOrderlyList
new_reliable_orderly start_id = record {
  discard_msg_count = 0;
  expect_id = start_id;
  order_list = replicate msx_cache_msg_num none;
}

unfoldable pub clear : ReliableOrderlyList → ReliableOrderlyList
clear l = record l { order_list = replicate msx_cache_msg_num none }

-- `index++; if (index >= __msx_cache_msg_num) index = 0;`
abbrev pub next_index : ℕ → ℕ
next_index index = if leb msx_cache_msg_num (index + 1) then 0 else index + 1

-- `while (_order_list[index])`, on fuel.
unfoldable pub drain : ℕ → List (Option Ptr) → ℕ → ℕ → List Ptr → List (Option Ptr) × ℕ × List Ptr
drain zero slots expect_id index recv_list = (slots, expect_id, recv_list)
drain (suc fuel) slots expect_id index recv_list = elim (get_or slots index none) [
  | none ↦ (slots, expect_id, recv_list)
  | some msg ↦
      drain fuel (set slots index none) (u16 (expect_id + 1)) (next_index index)
        (recv_list ++ (msg ∷ []))
]

-- More rounds than there are slots.
abbrev pub drain_fuel : ℕ
drain_fuel = 257

unfoldable pub insert : Store → Ptr → ReliableOrderlyList → ReliableOrderlyList × List Ptr × ℕ
insert store msg l =
    let id = id_of store msg in
    let index = hash_func id in
    let count = u16 (l.discard_msg_count + 1) in
    let (slots, expect_id, recv_list) =
      drain drain_fuel (set l.order_list index (some msg)) l.expect_id index [] in
    if too_far l.expect_id id
    then (record l { discard_msg_count = count }, [], discard_code count)
    else if id == l.expect_id
    then (record l { order_list = slots; expect_id = expect_id }, recv_list, 0)
    else elim (get_or l.order_list index none) [
      | some _ ↦ (l, [], 1)
      | none ↦ (record l { order_list = set l.order_list index (some msg) }, [], 0)
    ]

pub record ReliableList : Type 0 where
  pub order_list : List ℕ
  pub expect_id : ℕ

abbrev pub new_reliable : ℕ → ReliableList
new_reliable start_id = record { order_list = replicate msx_cache_msg_num 0; expect_id = start_id }

unfoldable pub insert_reliable : Store → Ptr → ReliableList → ReliableList × List Ptr × ℕ
insert_reliable store msg l =
    let id = id_of store msg in
    let index = hash_func id in
    if get_or l.order_list index 0 == id
    then (l, [], 1)
    else (record l { order_list = set l.order_list index id; expect_id = id }, msg ∷ [], 0)

pub record OrderlyList : Type 0 where
  pub discard_msg_count : ℕ
  pub expect_id : ℕ

abbrev pub new_orderly : ℕ → OrderlyList
new_orderly start_id = record { discard_msg_count = 0; expect_id = start_id }

unfoldable pub insert_orderly : Store → Ptr → OrderlyList → OrderlyList × List Ptr × ℕ
insert_orderly store msg l =
    let id = id_of store msg in
    let count = u16 (l.discard_msg_count + 1) in
    if too_far l.expect_id id
    then (record l { discard_msg_count = count }, [], discard_code count)
    else if ltb id l.expect_id
    then (l, [], 0)
    else (record l { expect_id = id }, msg ∷ [], 0)
