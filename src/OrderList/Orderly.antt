-- ===== src/OrderList/Orderly.antt =====
-- What the orderly list of common/OrderListImpl.cpp lets through.
use hudp.Common.{ℕ, ◌+◌, ◌≤◌, ◌<◌, ◌≡◌, ◌⊎◌, inl, inr, Bool-cases, ltb, List, [], ◌∷◌, ◌++◌, arith}
use hudp.Message.{Ptr, Store}
use hudp.OrderList.{id_of, OrderlyList, insert_orderly, too_far}

-- A message is handed on exactly if its id is the expected one or lies ahead of it by at most a
-- hundred, with no wrap at the end of the range; its id is then the expected one. Any other
-- message is dropped and leaves the expected id alone. So when the 16-bit counter of the sender
-- has wrapped, none of its messages with a small id is handed on.
pub insert_orderly-window :
    (store : Store) (msg : Ptr) (l : OrderlyList)
    → let id = id_of store msg in
      let (l', out, code) = insert_orderly store msg l in
      (l.expect_id ≤ id × (id ≤ l.expect_id + 100)
        → (out ≡ msg ∷ []) × (l'.expect_id ≡ id) × (code ≡ 0))
      × ((id < l.expect_id) ⊎ (l.expect_id + 100 < id) → (out ≡ []) × (l'.expect_id ≡ l.expect_id))
unfolding insert_orderly
insert_orderly-window store msg l = ground arith

-- The list after the arrivals of `msgs`, and all that it has handed on.
unfoldable pub receive : Store → List Ptr → OrderlyList → OrderlyList × List Ptr
receive store [] l = (l, [])
receive store (msg ∷ msgs) l =
    let (l', out, code) = insert_orderly store msg l in
    let (l'', outs) = receive store msgs l' in (l'', out ++ outs)

-- The ids of the messages do not fall, and start at `low` or above.
abbrev pub IsRising : Store → ℕ → List Ptr → Type 0
IsRising store low [] = Unit
IsRising store low (msg ∷ msgs) = (low ≤ id_of store msg) × IsRising store (id_of store msg) msgs

-- Whatever arrives, the ids of the messages handed on never fall, and none lies behind the id that
-- was expected at the start.
pub receive-IsRising :
    (store : Store) (msgs : List Ptr) (l : OrderlyList)
    → IsRising store l.expect_id (receive store msgs l).1
unfolding receive insert_orderly
receive-IsRising store [] l = tt
receive-IsRising store (msg ∷ msgs) l =
    let id = id_of store msg in
    elim (Bool-cases (too_far l.expect_id id)) [
      | inl far ↦ rw far (receive-IsRising store msgs _)
      | inr near ↦ elim (Bool-cases (ltb id l.expect_id)) [
        | inl behind ↦ rw (near, behind) (receive-IsRising store msgs l)
        | inr ahead ↦ rw (near, ahead) (ground arith, receive-IsRising store msgs _)
      ]
    ]
