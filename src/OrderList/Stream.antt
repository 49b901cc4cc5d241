-- ===== src/OrderList/Stream.antt =====
-- A whole run of arrivals at the reliable and orderly list of common/OrderListImpl.cpp.
use hudp.Common.{
  ℕ, zero, suc, ◌+◌, ◌≤◌, ◌<◌, ◌≡◌, ◌⊎◌, inl, inr, true, refl, sym, ap, ap₂, ◌∙◌, Option, none,
  List, [], ◌∷◌, ◌++◌, map, arith, u16, ids_from, length, get_or, replicate, length-append,
  length-replicate,
}
use mathlib.Core.List.{map-append}
use hudp.Message.{Ptr, Store}
use hudp.OrderList.{id_of, ReliableOrderlyList, new_reliable_orderly, insert, too_far}
use hudp.OrderList.InOrder.{IsWellFormed, IsOrdered, IsOrdered-idle, insert-IsOrdered}

-- The list after the arrivals of `msgs`, and all that it has handed on.
unfoldable pub receive : Store → List Ptr → ReliableOrderlyList → ReliableOrderlyList × List Ptr
receive store [] l = (l, [])
receive store (msg ∷ msgs) l =
    let (l', out, code) = insert store msg l in
    let (l'', outs) = receive store msgs l' in (l'', out ++ outs)

-- No arrival has one of the hundred ids just below the id that the list expects at that moment.
abbrev pub IsFresh : Store → List Ptr → ReliableOrderlyList → Type 0
IsFresh store [] l = Unit
IsFresh store (msg ∷ msgs) l =
    ((l.expect_id ≤ id_of store msg) ⊎ (id_of store msg + 100 < l.expect_id))
    × (id_of store msg ≤ 65535)
    × IsFresh store msgs (insert store msg l).0

ids_from-u16 : (id n : ℕ) → ids_from (u16 id) n ≡ ids_from id n
ids_from-u16 id zero = refl
ids_from-u16 id (suc n) = ap₂ ◌∷◌ (omega arith) (
    sym (ids_from-u16 (u16 id + 1) n)
    ∙ (ap (λ k. ids_from k n) (omega arith) ∙ ids_from-u16 (id + 1) n))

ids_from-add : (id n m : ℕ) → ids_from id n ++ ids_from (u16 (id + n)) m ≡ ids_from id (n + m)
ids_from-add id zero m =
    ap (λ k. ids_from k m) {x = u16 (id + 0)} {y = u16 id} (omega arith)
    ∙ (ids_from-u16 id m ∙ ap (ids_from id) (omega arith))
ids_from-add id (suc n) m =
    ap (λ k. (u16 id ∷ ids_from (id + 1) n) ++ ids_from k m) {x = u16 (id + suc n)}
      {y = u16 (id + 1 + n)} (omega arith)
    ∙ (ap (λ t. u16 id ∷ t) (ids_from-add (id + 1) n m)
        ∙ ap (ids_from id) {x = suc (n + m)} {y = suc n + m} (omega arith))

-- A message whose id is more than a hundred below the expected one, as is each that is up to a
-- hundred ahead of its turn across the end of the 16-bit range, is dropped.
insert-far :
    (store : Store) (msg : Ptr) (l : ReliableOrderlyList)
    → IsWellFormed store l
    → id_of store msg + 100 < l.expect_id
    → IsOrdered store l (insert store msg l)
unfolding insert
insert-far store msg l w below =
    let far : too_far l.expect_id (id_of store msg) ≡ true = ground (arith, below) in
    rw far (IsOrdered-idle store l _ _ refl w.word (record { word = w.word; ahead = w.ahead }))

-- On a well-formed list, whatever the order in which messages arrive, as long as none of them has one
-- of the hundred ids just below the id that is expected when it arrives: what the list hands on has
-- the ids start, start + 1, start + 2 and so on, round the end of the 16-bit range, and the list
-- expects the next of them. Messages that arrive too far ahead of their turn, or ahead of it across
-- the end of the range, may be dropped; they break neither the order nor the run.
pub receive-in_order :
    (store : Store) (msgs : List Ptr) (l : ReliableOrderlyList)
    → IsWellFormed store l
    → IsFresh store msgs l
    → let (l', outs) = receive store msgs l in
      (map (id_of store) outs ≡ ids_from l.expect_id (length outs))
      × (l'.expect_id ≡ u16 (l.expect_id + length outs))
unfolding receive
receive-in_order store [] l w f = (refl, omega (arith, w.word))
receive-in_order store (msg ∷ msgs) l w (side, word, f) =
    let o : IsOrdered store l (insert store msg l) = elim side [
      | inl low ↦ insert-IsOrdered store msg l w low word
      | inr below ↦ insert-far store msg l w below
    ] in
    let r = insert store msg l in
    let (ids, next) = receive-in_order store msgs r.0 o.well_formed f in
    let outs = (receive store msgs r.0).1 in
    (
      map-append _ _ _
          ∙ (ap₂ ◌++◌ o.in_order (ids ∙ ap (λ k. ids_from k (length outs)) o.next_id)
              ∙ (ids_from-add l.expect_id (length r.1) (length outs)
                  ∙ ap (ids_from l.expect_id) (sym (length-append r.1 outs)))),
      omega (arith, next, o.next_id, length-append r.1 outs),
    )

pub get_or-replicate : (n i : ℕ) → get_or (replicate {A = Option Ptr} n none) i none ≡ none
get_or-replicate zero i = refl
get_or-replicate (suc n) zero = refl
get_or-replicate (suc n) (suc i) = get_or-replicate n i

-- A new list is well formed.
pub new-IsWellFormed :
    (store : Store) (start : ℕ) → start ≤ 65535 → IsWellFormed store (new_reliable_orderly start)
new-IsWellFormed store start h = record {
  word = h;
  ahead = record {
    full_length = length-replicate {A = Option Ptr} 256 none;
    cached = λ i m e. absurd (cc (e, get_or-replicate 256 i));
  };
}
