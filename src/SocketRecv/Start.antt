-- ===== src/SocketRecv/Start.antt =====
-- The first message of a stream, net/SocketImpl.cpp: `AddToRecvList` starts the reliable and
-- orderly list at the id of whatever message arrives first.
use hudp.Common.{
  ℕ, zero, suc, ◌+◌, ◌%◌, ◌≤◌, ◌<◌, ◌≡◌, refl, ap, sym, subst, Option, none, some, [], ◌∷◌, arith,
  u16, set, replicate, length-replicate, get_or-set_self, false,
}
use hudp.Message.{Ptr, Store}
use hudp.OrderList.{
  id_of, too_far, drain, next_index, ReliableOrderlyList, new_reliable_orderly, insert,
}
use hudp.OrderList.Stream.{get_or-replicate}
use hudp.SocketImpl.{Socket, wi_reliable_orderly}
use hudp.SocketRecv.{to_recv, to_recv_each, insert_to_list}

set_back :
    (n i : ℕ) (p : Ptr)
    → set (set (replicate {A = Option Ptr} n none) i (some p)) i none ≡ replicate n none
set_back zero i p = refl
set_back (suc n) zero p = refl
set_back (suc n) (suc i) p = ap (λ l. none ∷ l) (set_back n i p)

-- An empty list that expects an id.
abbrev waiting : ℕ → ReliableOrderlyList
waiting id = new_reliable_orderly id

drain_one :
    (fuel expect index : ℕ) (p : Ptr)
    → index < 256
    → drain (suc (suc fuel)) (set (replicate 256 none) index (some p)) expect index []
      ≡ (replicate 256 none, u16 (expect + 1), p ∷ [])
unfolding drain
drain_one fuel expect index p h =
    rw
      (get_or-set_self (replicate 256 none) index (some p) none
        (omega (arith, length-replicate {A = Option Ptr} 256 none)))
      (rw (set_back 256 index p) (
        rw (get_or-replicate 256 (next_index index))
          (ap (λ l. (l, u16 (expect + 1), p ∷ [])) (set_back 256 index p))))

too_far_self : (id : ℕ) → too_far id id ≡ false
too_far_self id = ground arith

pub insert-first :
    (store : Store) (p : Ptr)
    → insert store p (waiting (id_of store p)) ≡ (waiting (u16 (id_of store p + 1)), p ∷ [], 0)
unfolding insert
insert-first store p =
    let id = id_of store p in
    ground (arith, too_far_self id, drain_one 255 id (id % 256) p (omega arith))

insert-late :
    (store : Store) (p : Ptr) (expect : ℕ)
    → id_of store p < expect
    → expect ≤ id_of store p + 100
    → ((insert store p (waiting expect)).1 ≡ []) × ((insert store p (waiting expect)).2 ≡ 0)
unfolding insert
insert-late store p expect lt near =
    let e = get_or-replicate 256 (id_of store p % 256) in (ground (arith, e), ground (arith, e))

-- The socket with another reliable and orderly list.
abbrev with_list : Option ReliableOrderlyList → Socket → Socket
with_list l s = record s { recv_reliable_orderly = l }

to_recv-list :
    (store : Store) (p : Ptr) (s : Socket) (l : Option ReliableOrderlyList)
    → ((to_recv store p (with_list l s)).recv_reliable_orderly ≡ l)
      × ((to_recv store p (with_list l s)).outputs ≡ (to_recv store p s).outputs)
unfolding to_recv
to_recv-list store p s l = (ground arith, ground arith)

insert_to_list-first :
    (store : Store) (p : Ptr) (s : Socket)
    → insert_to_list wi_reliable_orderly store p (with_list none s)
      ≡ (to_recv store p (with_list (some (waiting (u16 (id_of store p + 1)))) s), 0)
unfolding insert_to_list to_recv_each
insert_to_list-first store p s = rw (insert-first store p) refl

insert_to_list-behind :
    (store : Store) (p : Ptr) (s : Socket) (expect : ℕ)
    → s.recv_reliable_orderly ≡ some (waiting expect)
    → id_of store p < expect
    → expect ≤ id_of store p + 100
    → let q = insert_to_list wi_reliable_orderly store p s in (q.0.outputs ≡ s.outputs) × (q.1 ≡ 0)
unfolding insert_to_list to_recv_each
insert_to_list-behind store p s expect h lt near =
    let (none_out, code) = insert-late store p expect lt near in
    rw h (
      ap
          (λ ms.
            (to_recv_each store ms
              (with_list (some (insert store p (waiting expect)).0) s)).outputs)
          none_out,
      code,
    )

-- The first message of the reliable and orderly stream to arrive, with an id below 65535, is handed on
-- at once, whether or not it is the first that was sent. If the next to arrive has an id of up to 99
-- below it, so that it was sent before, the call that inserts it hands nothing on and returns the
-- code of a message that is received.
pub insert_to_list-late :
    (store : Store) (first late : Ptr) (s : Socket)
    → s.recv_reliable_orderly ≡ none
    → id_of store first < 65535
    → id_of store late < id_of store first
    → id_of store first ≤ id_of store late + 99
    → let r = insert_to_list wi_reliable_orderly store first s in
      let q = insert_to_list wi_reliable_orderly store late r.0 in
      (r.0.outputs ≡ (to_recv store first s).outputs) × (q.0.outputs ≡ r.0.outputs) × (q.1 ≡ 0)
insert_to_list-late store first late s new word before near =
    subst
      (λ l.
        let r = insert_to_list wi_reliable_orderly store first (with_list l s) in
        let q = insert_to_list wi_reliable_orderly store late r.0 in
        (r.0.outputs ≡ (to_recv store first s).outputs) × (q.0.outputs ≡ r.0.outputs) × (q.1 ≡ 0))
      (sym new)
      (let l = some (waiting (u16 (id_of store first + 1))) in
        let (same, outputs) = to_recv-list store first s l in
        let (silent, code) =
          insert_to_list-behind store late (to_recv store first (with_list l s))
            (u16 (id_of store first + 1)) same (omega arith) (omega arith) in
        rw (insert_to_list-first store first s) (outputs, silent, code))
