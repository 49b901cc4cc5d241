-- ===== src/OrderList/Tests.antt =====
-- Runs of the receive lists of common/OrderListImpl.cpp, after utest/Ut_OrderList.cpp, and the
-- theorems at concrete messages.
use hudp.Common.{
  ◌+◌, ◌≡◌, ◌≢◌, refl, List, [], ◌∷◌, none, some, map, u16, ids_from, length, arith, set, replicate,
}
use hudp.Message.{Ptr, Store, new_msg}
use hudp.Message.MsgHead.{empty_head}
use hudp.OrderList.{
  id_of, ReliableOrderlyList, new_reliable_orderly, new_reliable, new_orderly, insert, drain,
  insert_reliable, insert_orderly,
}
use hudp.OrderList.InOrder.{IsOrdered, insert-IsOrdered}
use hudp.OrderList.Stream.{receive, receive-in_order, new-IsWellFormed}
use hudp.OrderList.Stale.{insert_stale}
use hudp.OrderList.Reliable.{after, latest, insert_reliable-refuses}
use hudp.OrderList.Orderly
use hudp.OrderList.Orderly.{insert_orderly-window, receive-IsRising, IsRising}

-- The pointer to a message is its id.
abbrev store : Store
store p = record new_msg { head = record empty_head { id = p } }

abbrev arrivals : List Ptr
arrivals = 1 ∷ 2 ∷ 5 ∷ 4 ∷ 3 ∷ []

ordered_run : (receive store arrivals (new_reliable_orderly 1)).1 ≡ 1 ∷ 2 ∷ 3 ∷ 4 ∷ 5 ∷ []
unfolding receive insert drain
ordered_run = refl

orderly_run : (Orderly.receive store arrivals (new_orderly 1)).1 ≡ 1 ∷ 2 ∷ 5 ∷ []
unfolding Orderly.receive insert_orderly
orderly_run = refl

insert-IsOrdered_example :
    IsOrdered store (new_reliable_orderly 1) (insert store 1 (new_reliable_orderly 1))
insert-IsOrdered_example =
    insert-IsOrdered store 1 (new_reliable_orderly 1) (new-IsWellFormed store 1 (omega arith))
      (omega arith) (omega arith)

-- The message after the last id arrives too early, and again when it is its turn.
abbrev round_the_end : List Ptr
round_the_end = 0 ∷ 65535 ∷ 0 ∷ []

receive-in_order_example :
    let (l', outs) = receive store round_the_end (new_reliable_orderly 65535) in
    (map (id_of store) outs ≡ ids_from 65535 (length outs))
    × (l'.expect_id ≡ u16 (65535 + length outs))
unfolding insert drain
receive-in_order_example =
    receive-in_order store round_the_end (new_reliable_orderly 65535)
      (new-IsWellFormed store 65535 (omega arith)) (omega arith)

handed_on : (receive store round_the_end (new_reliable_orderly 65535)).1 ≡ 65535 ∷ 0 ∷ []
unfolding receive insert drain
handed_on = refl

-- The list has handed on all ids below 5, and later all below 258; 3 arrives again at 5.
abbrev at_five : ReliableOrderlyList
at_five = new_reliable_orderly 5

abbrev at_258 : ReliableOrderlyList
at_258 = record (new_reliable_orderly 258) { order_list = set (replicate 256 none) 3 (some 3) }

stale_handed_on :
    ((insert store 3 at_five).1 ≡ [])
    × ((insert store 3 at_five).2 ≡ 0)
    × ((rest : List Ptr) × ((insert store 258 at_258).1 ≡ 258 ∷ 3 ∷ rest))
unfolding insert
stale_handed_on =
    insert_stale store 3 258 at_five at_258 refl (omega arith) (omega arith) (omega arith) refl refl
      refl refl refl

insert_reliable-refuses_example :
    let (l, out, code) = insert_reliable store 0 (after store (4 ∷ 7 ∷ []) (new_reliable 7)) in
    (latest store 0 (4 ∷ 7 ∷ []) ≡ 0 → (out ≡ []) × (code ≡ 1))
    × (latest store 0 (4 ∷ 7 ∷ []) ≢ 0 → (out ≡ 0 ∷ []) × (code ≡ 0))
insert_reliable-refuses_example = insert_reliable-refuses store 0 (4 ∷ 7 ∷ []) 7

receive-IsRising_example : IsRising store 1 (Orderly.receive store arrivals (new_orderly 1)).1
receive-IsRising_example = receive-IsRising store arrivals (new_orderly 1)
