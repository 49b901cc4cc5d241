-- ===== src/OrderList/Drain.antt =====
-- The loop that empties the cache of the reliable and orderly list.
use hudp.Common.{
  ℕ, zero, suc, ◌+◌, ◌%◌, ◌≤◌, ◌<◌, ◌≡◌, refl, sym, ap₂, subst, ◌∙◌, Option, none, some, List, [],
  ◌∷◌, ◌++◌, map, append-nil, append_assoc, arith, u16, ids_from, length, get_or, set, length-set,
  get_or-set_self, get_or-set_ne, Option-cases, inl, inr,
}
use native.Mathlib.Decide.{ℕ_discrete}
use native.Mathlib.Nat.{add-zero}
use hudp.Message.{Ptr, Store}
use hudp.OrderList.{id_of, next_index, drain}

-- The cache holds at each slot a message with that hash, whose id lies between two bounds.
pub record Window (store : Store) (low top : ℕ) (slots : List (Option Ptr)) : Type 0 where
  pub full_length : length slots ≡ 256
  pub cached :
      (i : ℕ) (msg : Ptr)
      → get_or slots i none ≡ some msg
      → (id_of store msg % 256 ≡ i) × (low ≤ id_of store msg) × (id_of store msg ≤ top)

-- What the loop has done when it ends at an empty slot.
pub record Drained (store : Store) (expect top : ℕ) (before : List Ptr)
    (out : List (Option Ptr) × ℕ × List Ptr) : Type 0 where
  pub batch : List Ptr
  pub added : out.2 ≡ before ++ batch
  pub in_order : map (id_of store) batch ≡ ids_from expect (length batch)
  pub next_id : out.1 ≡ u16 (expect + length batch)
  pub window : Window store (expect + length batch) top out.0
  pub stopped : get_or out.0 ((expect + length batch) % 256) none ≡ none

get_or-eq-length :
    (slots : List (Option Ptr)) (i : ℕ) (msg : Ptr)
    → get_or slots i none ≡ some msg
    → i < length slots
get_or-eq-length [] i msg h = ground arith
get_or-eq-length (s ∷ slots) zero msg h = omega arith
get_or-eq-length (s ∷ slots) (suc i) msg h = omega (arith, get_or-eq-length slots i msg h)

-- A window narrows as its lowest message is taken out.
pub set-Window :
    (store : Store) (low top : ℕ) (slots : List (Option Ptr)) (msg : Ptr)
    → Window store low top slots
    → get_or slots (low % 256) none ≡ some msg
    → top < low + 256
    → (id_of store msg ≡ low) × Window store (low + 1) top (set slots (low % 256) none)
set-Window store low top slots msg w h wide =
    (here, record { full_length = rw length-set w.full_length; cached = rest })
  where
    here : id_of store msg ≡ low
    here = omega (arith, w.cached (low % 256) msg h)

    rest :
        (i : ℕ) (m : Ptr)
        → get_or (set slots (low % 256) none) i none ≡ some m
        → (id_of store m % 256 ≡ i) × (low + 1 ≤ id_of store m) × (id_of store m ≤ top)
    rest i m e = elim (ℕ_discrete (low % 256) i) [
      | yes same ↦ cc (
        e,
        same,
        get_or-set_self slots (low % 256) none none (get_or-eq-length slots (low % 256) msg h),
      )
      | no other ↦
          omega (arith, w.cached i m (sym (get_or-set_ne slots (low % 256) i none none other) ∙ e))
    ]

next_index-mod : (low : ℕ) → next_index (low % 256) ≡ (low + 1) % 256
next_index-mod low = ground arith

Drained-stop :
    (store : Store) (low top : ℕ) (slots : List (Option Ptr)) (before : List Ptr)
    → Window store low top slots
    → get_or slots (low % 256) none ≡ none
    → Drained store low top before (slots, u16 low, before)
Drained-stop store low top slots before w e = record {
  batch = [];
  added = sym (append-nil before);
  in_order = refl;
  next_id = omega arith;
  window = rw add-zero w;
  stopped = rw add-zero e;
}

Drained-next :
    (store : Store) (low top : ℕ) (msg : Ptr) (before : List Ptr)
    (out : List (Option Ptr) × ℕ × List Ptr)
    → id_of store msg ≡ low
    → low ≤ 65535
    → Drained store (low + 1) top (before ++ (msg ∷ [])) out
    → Drained store low top before out
Drained-next store low top msg before out here small d = record {
  batch = msg ∷ d.batch;
  added = d.added ∙ append_assoc before (msg ∷ []) d.batch;
  in_order = ap₂ ◌∷◌ (omega arith) d.in_order;
  next_id = omega (arith, d.next_id);
  window = subst (λ n. Window store n top out.0) (move d.batch) d.window;
  stopped = subst (λ n. get_or out.0 (n % 256) none ≡ none) (move d.batch) d.stopped;
}
  where
    move : (b : List Ptr) → low + 1 + length b ≡ low + suc (length b)
    move b = omega arith

-- With more fuel than ids left in the window the loop ends at an empty slot, and has taken out a
-- run of messages with consecutive ids.
pub drain-Drained :
    (store : Store) (fuel low top : ℕ) (slots : List (Option Ptr)) (before : List Ptr)
    → Window store low top slots
    → top < low + 256
    → top ≤ 65535
    → top < low + fuel
    → Drained store low top before (drain fuel slots (u16 low) (low % 256) before)
unfolding drain
drain-Drained store zero low top slots before w wide word enough =
    elim (Option-cases (get_or slots (low % 256) none)) [
      | inl e ↦ Drained-stop store low top slots before w e
      | inr (msg, e) ↦ absurd (omega (arith, w.cached (low % 256) msg e))
    ]
drain-Drained store (suc fuel) low top slots before w wide word enough =
    elim (Option-cases (get_or slots (low % 256) none)) [
      | inl e ↦ rw (e, drain) (Drained-stop store low top slots before w e)
      | inr (msg, e) ↦
          let (here, w') = set-Window store low top slots msg w e wide in
          let small : low ≤ top = omega (arith, w.cached (low % 256) msg e) in
          let step : u16 (u16 low + 1) ≡ u16 (low + 1) = omega arith in
          rw (e, drain, next_index-mod low, step)
            (Drained-next store low top msg before _ here (omega arith) (
              drain-Drained store fuel (low + 1) top (set slots (low % 256) none)
                (before ++ (msg ∷ [])) w' (omega arith) word (omega arith)))
    ]
