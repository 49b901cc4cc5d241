-- ===== src/OrderList/InOrder.antt =====
-- The reliable and orderly list of common/OrderListImpl.cpp hands messages on in the order of their
-- ids, as long as none arrives whose id lies behind the expected one.
use hudp.Common.{
  ℕ, ◌+◌, ◌%◌, ◌≤◌, ◌≡◌, refl, sym, ap, ◌∙◌, subst, inl, inr, Option, none, some, List, [], map,
  arith, u16, ids_from, min, length, get_or, set, length-set, get_or-set_self, get_or-set_ne,
  Option-cases, Bool-cases, ◌==◌, ==_iff,
}
use native.Mathlib.Decide.{ℕ_discrete}
use hudp.Message.{Ptr, Store}
use hudp.OrderList.{id_of, too_far, drain, drain_fuel, ReliableOrderlyList, insert}
use hudp.OrderList.Drain.{Window, Drained, drain-Drained}

-- The highest id that the list caches.
abbrev pub top_of : ℕ → ℕ
top_of expect = min (expect + 100) 65535

-- Every cached message waits for its turn: its id lies ahead of the expected one, by at most the
-- distance that `Insert` accepts.
pub record IsWellFormed (store : Store) (l : ReliableOrderlyList) : Type 0 where
  pub word : l.expect_id ≤ 65535
  pub ahead : Window store (l.expect_id + 1) (top_of l.expect_id) l.order_list

set-Window_add :
    (store : Store) (low above top : ℕ) (slots : List (Option Ptr)) (msg : Ptr)
    → Window store above top slots
    → low ≤ above
    → low ≤ id_of store msg
    → id_of store msg ≤ top
    → Window store low top (set slots (id_of store msg % 256) (some msg))
set-Window_add store low above top slots msg w le lo hi = record {
  full_length = rw length-set w.full_length;
  cached = rest;
}
  where
    rest :
        (i : ℕ) (m : Ptr)
        → get_or (set slots (id_of store msg % 256) (some msg)) i none ≡ some m
        → (id_of store m % 256 ≡ i) × (low ≤ id_of store m) × (id_of store m ≤ top)
    rest i m e = elim (ℕ_discrete (id_of store msg % 256) i) [
      | yes same ↦
          let at_i : some msg ≡ some m =
            sym (get_or-set_self slots i (some msg) none (omega (arith, w.full_length)))
            ∙ subst (λ j. get_or (set slots j (some msg)) i none ≡ some m) same e in
          let eq : msg ≡ m = cc at_i in
          subst (λ k. (id_of store k % 256 ≡ i) × (low ≤ id_of store k) × (id_of store k ≤ top)) eq
            (same, lo, hi)
      | no other ↦ omega (
        arith,
        w.cached i m
            (sym (get_or-set_ne slots (id_of store msg % 256) i (some msg) none other) ∙ e),
      )
    ]

Window-IsWellFormed :
    (store : Store) (expect low top : ℕ) (slots : List (Option Ptr)) (count : ℕ)
    → Window store low top slots
    → get_or slots (low % 256) none ≡ none
    → top ≡ top_of expect
    → expect ≤ low
    → IsWellFormed store
        (record { discard_msg_count = count; expect_id = u16 low; order_list = slots })
Window-IsWellFormed store expect low top slots count w stop t le = record {
  word = omega arith;
  ahead = record { full_length = w.full_length; cached = strict };
}
  where
    strict :
        (i : ℕ) (m : Ptr)
        → get_or slots i none ≡ some m
        → (id_of store m % 256 ≡ i)
          × (u16 low + 1 ≤ id_of store m)
          × (id_of store m ≤ top_of (u16 low))
    strict i m e = elim (ℕ_discrete (id_of store m) low) [
      | yes same ↦
          let (at_i, _, _) = w.cached i m e in
          let none_here : get_or slots i none ≡ none =
            subst (λ j. get_or slots j none ≡ none) (ap (λ k. k % 256) (sym same) ∙ at_i) stop in
          absurd (cc (none_here, e))
      | no other ↦ omega (arith, w.cached i m e)
    ]

-- What one `Insert` has done: the messages handed on, the next expected id, the invariant.
pub record IsOrdered (store : Store) (l : ReliableOrderlyList)
    (out : ReliableOrderlyList × List Ptr × ℕ) : Type 0 where
  pub in_order : map (id_of store) out.1 ≡ ids_from l.expect_id (length out.1)
  pub next_id : out.0.expect_id ≡ u16 (l.expect_id + length out.1)
  pub well_formed : IsWellFormed store out.0

pub IsOrdered-idle :
    (store : Store) (l l' : ReliableOrderlyList) (code : ℕ)
    → l'.expect_id ≡ l.expect_id
    → l.expect_id ≤ 65535
    → IsWellFormed store l'
    → IsOrdered store l (l', [], code)
IsOrdered-idle store l l' code same word w = record {
  in_order = refl;
  next_id = omega arith;
  well_formed = w;
}

IsOrdered-drain :
    (store : Store) (l : ReliableOrderlyList) (msg : Ptr)
    → IsWellFormed store l
    → id_of store msg ≡ l.expect_id
    → let out =
        drain drain_fuel
          (set l.order_list (id_of store msg % 256) (some msg))
          l.expect_id
          (id_of store msg % 256)
          [] in
      IsOrdered store l (record l { order_list = out.0; expect_id = out.1 }, out.2, 0)
IsOrdered-drain store l msg w e = record {
  in_order =
      subst (λ b. map (id_of store) b ≡ ids_from l.expect_id (length b)) (sym d.added) d.in_order;
  next_id = subst (λ b. out.1 ≡ u16 (l.expect_id + length b)) (sym d.added) d.next_id;
  well_formed =
      subst
        (λ n.
          IsWellFormed store
            (record { discard_msg_count = l.discard_msg_count; expect_id = n; order_list = out.0 }))
        (sym d.next_id)
        (Window-IsWellFormed store l.expect_id (l.expect_id + length d.batch) (top_of l.expect_id)
          out.0 l.discard_msg_count d.window d.stopped refl (omega arith));
}
  where
    slots : List (Option Ptr)
    slots = set l.order_list (id_of store msg % 256) (some msg)

    out : List (Option Ptr) × ℕ × List Ptr
    out = drain drain_fuel slots l.expect_id (id_of store msg % 256) []

    started : Window store l.expect_id (top_of l.expect_id) slots
    started =
        set-Window_add store l.expect_id (l.expect_id + 1) (top_of l.expect_id) l.order_list msg
          w.ahead (omega arith) (omega arith) (omega (arith, w.word))

    same : u16 l.expect_id ≡ l.expect_id
    same = omega (arith, w.word)

    d : Drained store l.expect_id (top_of l.expect_id) [] out
    d =
        subst
          (λ k.
            Drained store l.expect_id (top_of l.expect_id) []
              (drain drain_fuel slots k (id_of store msg % 256) []))
          same
          (subst
            (λ k.
              Drained store l.expect_id (top_of l.expect_id) []
                (drain drain_fuel slots (u16 l.expect_id) (k % 256) []))
            (sym e)
            (drain-Drained store drain_fuel l.expect_id (top_of l.expect_id) slots [] started
              (omega arith) (omega arith) (omega arith)))

-- For a message whose id does not lie behind the expected one, `Insert` hands on a run of
-- messages with consecutive ids that starts at the expected id (possibly an empty run), expects
-- the id after that run, and keeps the cache well formed; on every branch, the discarding one and
-- the repeated message included.
pub insert-IsOrdered :
    (store : Store) (msg : Ptr) (l : ReliableOrderlyList)
    → IsWellFormed store l
    → l.expect_id ≤ id_of store msg
    → id_of store msg ≤ 65535
    → IsOrdered store l (insert store msg l)
unfolding insert
insert-IsOrdered store msg l w ahead word =
    elim (Bool-cases (too_far l.expect_id (id_of store msg))) [
      | inl far ↦
          rw far
            (IsOrdered-idle store l _ _ refl w.word (record { word = w.word; ahead = w.ahead }))
      | inr near ↦ elim (Bool-cases (id_of store msg == l.expect_id)) [
        | inl now ↦ rw (near, now) (IsOrdered-drain store l msg w ((==_iff _ _).0 now))
        | inr later ↦ elim (Option-cases (get_or l.order_list (id_of store msg % 256) none)) [
          | inr (old, e) ↦ rw (near, later, e) (IsOrdered-idle store l l 1 refl w.word w)
          | inl free ↦
              rw (near, later, free)
                (IsOrdered-idle store l _ 0 refl w.word (record {
                  word = w.word;
                  ahead =
                      set-Window_add store (l.expect_id + 1) (l.expect_id + 1) (top_of l.expect_id)
                        l.order_list msg w.ahead (omega arith) (ground arith) (ground arith);
                }))
        ]
      ]
    ]
