-- ===== src/OrderList/Reliable.antt =====
-- Which messages the reliable list of common/OrderListImpl.cpp takes for repeated.
use hudp.Common.{
  ℕ, zero, suc, ◌%◌, ◌≡◌, ◌≢◌, refl, List, [], ◌∷◌, arith, length, get_or, replicate, ◌==◌,
  if◌then◌else◌, length-set, get_or-set_self, get_or-set_ne,
}
use native.Mathlib.Decide.{ℕ_discrete}
use hudp.Message.{Ptr, Store}
use hudp.OrderList.{id_of, hash_func, ReliableList, new_reliable, insert_reliable}

-- The list after some arrivals, the latest one first.
abbrev pub after : Store → List Ptr → ReliableList → ReliableList
after store [] l = l
after store (msg ∷ earlier) l = (insert_reliable store msg (after store earlier l)).0

-- The id of the latest arrival whose hash is `index`; 0 if there was none.
abbrev pub latest : Store → ℕ → List Ptr → ℕ
latest store index [] = 0
latest store index (msg ∷ earlier) =
    if hash_func (id_of store msg) == index then id_of store msg else latest store index earlier

get_or-replicate : (n i : ℕ) → get_or (replicate {A = ℕ} n 0) i 0 ≡ 0
get_or-replicate zero i = refl
get_or-replicate (suc n) zero = refl
get_or-replicate (suc n) (suc i) = get_or-replicate n i

length-after :
    (store : Store) (msgs : List Ptr) (start : ℕ)
    → length (after store msgs (new_reliable start)).order_list ≡ 256
unfolding insert_reliable
length-after store [] start = refl
length-after store (msg ∷ earlier) start =
    let l = after store earlier (new_reliable start) in
    let id = id_of store msg in
    ground (arith, length-after store earlier start, length-set l.order_list (id % 256) id)

slot-latest :
    (store : Store) (msgs : List Ptr) (start index : ℕ)
    → get_or (after store msgs (new_reliable start)).order_list index 0 ≡ latest store index msgs
unfolding insert_reliable
slot-latest store [] start index = get_or-replicate 256 index
slot-latest store (msg ∷ earlier) start index =
    let l = after store earlier (new_reliable start) in
    let id = id_of store msg in
    elim (ℕ_discrete (id % 256) index) [
      | yes same ↦ ground (
        arith,
        slot-latest store earlier start index,
        length-after store earlier start,
        get_or-set_self l.order_list (id % 256) id 0
            (omega (arith, length-after store earlier start)),
      )
      | no other ↦ ground (
        arith,
        slot-latest store earlier start index,
        get_or-set_ne l.order_list (id % 256) index id 0 other,
      )
    ]

-- After any arrivals at a new list, `Insert` refuses a message with code 1, and hands nothing on,
-- exactly if its id is that of the latest arrival with the same hash, or if its id is 0 and no
-- message with that hash has arrived (or the latest one had id 0); any other message is handed on
-- at once with code 0. So the very first message of a connection is taken for a repeated one if
-- its id is 0.
pub insert_reliable-refuses :
    (store : Store) (msg : Ptr) (arrivals : List Ptr) (start : ℕ)
    → let (l, out, code) = insert_reliable store msg (after store arrivals (new_reliable start)) in
      let id = id_of store msg in
      (latest store (hash_func id) arrivals ≡ id → (out ≡ []) × (code ≡ 1))
      × (latest store (hash_func id) arrivals ≢ id → (out ≡ msg ∷ []) × (code ≡ 0))
unfolding insert_reliable
insert_reliable-refuses store msg arrivals start =
    ground (arith, slot-latest store arrivals start (hash_func (id_of store msg)))
