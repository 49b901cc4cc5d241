-- ===== src/MsgPool/Clean.antt =====
-- What the pool of hudp/MsgPoolFactory.cpp hands out.
use hudp.Common.{
  ℕ, ◌/◌, ◌≤◌, ◌≡◌, ◌≢◌, inl, inr, refl, sym, subst, ltb→lt, true, false, [], ◌∷◌, ◌++◌, zero, suc,
  ltb, ◌==◌, Bool-cases, length, length-append, length-drop, drop, arith,
}
use hudp.Message.{Msg, Ptr, Store, new_msg, clear}
use hudp.Message.MsgHead
use hudp.Message.MsgHead.{empty_head}
use hudp.Pacing.{update}
use hudp.Timer.{Timer, remove_timer}
use hudp.MsgPool.{Pool, create_msg, reduce_free, delete_msg, shared_ptr_deleter}

-- A message as the constructor makes it, but for the time in its head and the two list links.
abbrev pub IsNew : Msg → Type 0
IsNew m = m ≡ record new_msg {
  head = record empty_head { send_time = m.head.send_time };
  next = m.next;
  prev = m.prev;
}

-- Every free message is like a new one, and none of them is the one that is asked about.
abbrev pub AllNew : Store → Pool → Type 0
AllNew store [] = Unit
AllNew store (p ∷ free) = IsNew (store p) × AllNew store free

abbrev pub IsUsed : Ptr → Pool → Type 0
IsUsed msg [] = Unit
IsUsed msg (p ∷ free) = (p ≢ msg) × IsUsed msg free

clear-IsNew : (m : Msg) → IsNew (clear m)
unfolding clear MsgHead.clear
clear-IsNew m = refl

update_self : (msg : Ptr) (f : Msg → Msg) (store : Store) → update msg f store msg ≡ f (store msg)
update_self msg f store = let e : (msg == msg) ≡ true = ground arith in rw e refl

-- A write to a message that is in use.
update-AllNew :
    (msg : Ptr) (f : Msg → Msg) (store : Store) (free : Pool)
    → IsUsed msg free
    → AllNew store free
    → AllNew (update msg f store) free
update-AllNew msg f store [] u h = tt
update-AllNew msg f store (p ∷ free) (ne, u) (this, h) =
    let e : (p == msg) ≡ false = ground (arith, ne) in
    (rw e this, update-AllNew msg f store free u h)

remove_timer-AllNew :
    (msg : Ptr) (store : Store) (timer : Timer) (free : Pool)
    → IsUsed msg free
    → AllNew store free
    → AllNew (remove_timer msg store timer).1 free
unfolding remove_timer
remove_timer-AllNew msg store timer free u h =
    update-AllNew msg (λ m. record m { time_id = 0 }) store free u h

append-AllNew :
    (store : Store) (free : Pool) (msg : Ptr)
    → AllNew store free
    → IsNew (store msg)
    → AllNew store (free ++ (msg ∷ []))
append-AllNew store [] msg h n = (n, tt)
append-AllNew store (p ∷ free) msg (this, h) n = (this, append-AllNew store free msg h n)

drop-AllNew : (n : ℕ) (store : Store) (free : Pool) → AllNew store free → AllNew store (drop n free)
drop-AllNew zero store free h = h
drop-AllNew (suc n) store [] h = tt
drop-AllNew (suc n) store (p ∷ free) (this, h) = drop-AllNew n store free h

reduce_free-AllNew :
    (store : Store) (free : Pool)
    → length free ≤ 51
    → AllNew store free
    → AllNew store (reduce_free free) × (length (reduce_free free) ≤ 50)
unfolding reduce_free
reduce_free-AllNew store free l h = elim (Bool-cases (ltb 50 (length free))) [
  | inl e ↦ rw e (
    drop-AllNew (length free / 2) store free h,
    omega (arith, length-drop (length free / 2) free, l, ltb→lt 50 (length free) e),
  )
  | inr e ↦ rw e (h, ground (arith, e))
]

-- The pool and the messages after some calls. What is in use may be written to at will.
pub data Reached : Store → Pool → Type 0 where
  made : (store : Store) → Reached store []
  created :
      {store : Store} {free : Pool} (fresh : Ptr)
      → IsUsed fresh free
      → Reached store free
      → Reached (create_msg fresh store free).1 (create_msg fresh store free).2
  written :
      {store : Store} {free : Pool} (msg : Ptr) (f : Msg → Msg)
      → IsUsed msg free
      → Reached store free
      → Reached (update msg f store) free
  deleted :
      {store : Store} {free : Pool} (msg : Ptr) (timer : Timer)
      → IsUsed msg free
      → Reached store free
      → Reached
          (shared_ptr_deleter msg store timer free).0
          (shared_ptr_deleter msg store timer free).2

delete_msg-AllNew :
    (msg : Ptr) (store : Store) (free : Pool)
    → IsUsed msg free
    → AllNew store free
    → length free ≤ 50
    → let (store', free') = delete_msg msg store free in AllNew store' free' × (length free' ≤ 50)
unfolding delete_msg
delete_msg-AllNew msg store free u h l =
    let cleared = update msg clear store in
    reduce_free-AllNew cleared (free ++ (msg ∷ []))
      (omega (arith, length-append free (msg ∷ []), l))
      (append-AllNew cleared free msg (update-AllNew msg clear store free u h)
        (subst IsNew (sym (update_self msg clear store)) (clear-IsNew (store msg))))

Reached-AllNew :
    {store : Store} {free : Pool} → Reached store free → AllNew store free × (length free ≤ 50)
unfolding create_msg shared_ptr_deleter
Reached-AllNew (made store) = (tt, omega arith)
Reached-AllNew (created {store} {free} fresh u r) = after free (Reached-AllNew r)
  where
    after :
        (free : Pool)
        → AllNew store free × (length free ≤ 50)
        → let (msg, store', free') = create_msg fresh store free in
          AllNew store' free' × (length free' ≤ 50)
    after [] h = h
    after (p ∷ free) ((this, h), l) = (h, omega (arith, l))
Reached-AllNew (written {store} {free} msg f u r) =
    let (h, l) = Reached-AllNew r in (update-AllNew msg f store free u h, l)
Reached-AllNew (deleted {store} {free} msg timer u r) =
    let (h, l) = Reached-AllNew r in
    let removed = remove_timer msg store timer in
    elim (Bool-cases (ltb 0 (store msg).time_id)) [
      | inl e ↦
          rw e (
            delete_msg-AllNew msg removed.1 free u (remove_timer-AllNew msg store timer free u h) l)
      | inr e ↦ rw e (delete_msg-AllNew msg store free u h l)
    ]

-- However messages are made, written to and given back, as long as none is written to, given back or
-- made anew while it is free in the pool: a message that the pool hands out is like one
-- that the constructor has just made, in all but the time of sending in its head and the two list
-- links, which `Clear` does not reset, and the pool never keeps more than 50 of them.
pub create_msg-IsNew :
    {store : Store} {free : Pool} (fresh : Ptr)
    → Reached store free
    → let (msg, store', free') = create_msg fresh store free in
      IsNew (store' msg) × (length free ≤ 50)
unfolding create_msg
create_msg-IsNew {store} {free} fresh r = let (h, l) = Reached-AllNew r in (handed_out free h, l)
  where
    handed_out :
        (free : Pool)
        → AllNew store free
        → let (msg, store', free') = create_msg fresh store free in IsNew (store' msg)
    handed_out [] h = subst IsNew (sym (update_self fresh (λ old. new_msg) store)) refl
    handed_out (p ∷ free) h = h.0
