-- ===== src/OrderList/Stale.antt =====
-- A message that arrives again after the reliable and orderly list of common/OrderListImpl.cpp
-- has handed it on.
use hudp.Common.{
  ℕ, zero, suc, ◌+◌, ◌%◌, ◌≤◌, ◌<◌, ◌≡◌, sym, ◌∙◌, Option, none, some, List, [], ◌∷◌, ◌++◌, arith,
  length, get_or, set, get_or-set_self, get_or-set_ne, u16, append-nil, append_assoc, Option-cases,
  inl, inr,
}
use hudp.Message.{Ptr, Store}
use hudp.OrderList.{id_of, drain, drain_fuel, next_index, ReliableOrderlyList, insert}

drain-append :
    (fuel : ℕ) (slots : List (Option Ptr)) (expect index : ℕ) (before : List Ptr)
    → (rest : List Ptr) × ((drain fuel slots expect index before).2 ≡ before ++ rest)
unfolding drain
drain-append zero slots expect index before = ([], sym (append-nil before))
drain-append (suc fuel) slots expect index before = elim (Option-cases (get_or slots index none)) [
  | inl e ↦ ([], rw (e, drain) (sym (append-nil before)))
  | inr (msg, e) ↦
      let (rest, h) =
        drain-append fuel (set slots index none) (u16 (expect + 1)) (next_index index)
          (before ++ (msg ∷ [])) in
      (msg ∷ rest, rw (e, drain) (h ∙ append_assoc before (msg ∷ []) rest))
]

drain_two :
    (fuel : ℕ) (slots : List (Option Ptr)) (expect index : ℕ) (a b : Ptr)
    → get_or slots index none ≡ some a
    → get_or (set slots index none) (next_index index) none ≡ some b
    → (rest : List Ptr) × ((drain (suc (suc fuel)) slots expect index []).2 ≡ a ∷ b ∷ rest)
unfolding drain
drain_two fuel slots expect index a b ha hb =
    let (rest, h) =
      drain-append fuel (set (set slots index none) (next_index index) none)
        (u16 (u16 (expect + 1) + 1)) (next_index (next_index index)) (a ∷ b ∷ []) in
    (rest, rw (ha, drain) (rw (hb, drain) h))

-- A repeated message whose id lies behind the expected one by at most a hundred, and whose slot is
-- free, is taken for a new one: the return code is 0 and it stays in the cache. If the slot is
-- still so filled when the list expects the id just before the next one with that hash, the
-- message with the expected id is handed on with the old message directly behind it.
pub insert_stale :
    (store : Store) (msg expected : Ptr) (l later : ReliableOrderlyList)
    → length l.order_list ≡ 256
    → l.expect_id ≤ 65535
    → id_of store msg < l.expect_id
    → l.expect_id ≤ id_of store msg + 100
    → get_or l.order_list (id_of store msg % 256) none ≡ none
    → length later.order_list ≡ 256
    → get_or later.order_list (id_of store msg % 256) none
      ≡ get_or (insert store msg l).0.order_list (id_of store msg % 256) none
    → later.expect_id ≡ id_of store msg + 255
    → id_of store expected ≡ later.expect_id
    → ((insert store msg l).1 ≡ [])
      × ((insert store msg l).2 ≡ 0)
      × ((rest : List Ptr) × ((insert store expected later).1 ≡ expected ∷ msg ∷ rest))
unfolding insert
insert_stale store msg expected l later full word behind near free full' same far now =
    (ground arith, ground arith, (two.0, ground (arith, two.1)))
  where
    id : ℕ
    id = id_of store msg

    index : ℕ
    index = id_of store expected % 256

    slots : List (Option Ptr)
    slots = set later.order_list index (some expected)

    kept : get_or (insert store msg l).0.order_list (id % 256) none ≡ some msg
    kept = ground (arith, get_or-set_self l.order_list (id % 256) (some msg) none (omega arith))

    at_next : get_or (set slots index none) (id % 256) none ≡ some msg
    at_next =
        get_or-set_ne slots index (id % 256) none none (omega arith)
        ∙ (get_or-set_ne later.order_list index (id % 256) (some expected) none (omega arith)
            ∙ (same ∙ kept))

    step : next_index index ≡ id % 256
    step = ground arith

    two :
        (rest : List Ptr) × ((drain drain_fuel slots later.expect_id index []).2
          ≡ expected ∷ msg ∷ rest)
    two =
        drain_two 255 slots later.expect_id index expected msg
          (get_or-set_self later.order_list index (some expected) none (omega arith))
          (rw step at_next)
