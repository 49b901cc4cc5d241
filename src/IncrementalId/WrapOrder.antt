-- ===== src/IncrementalId/WrapOrder.antt =====
-- The order on ids across the wrap of the 16-bit counter.
use hudp.Common.{ℕ, zero, suc, ◌+◌, ◌≤◌, ◌<◌, ◌≡◌, ◌≢◌, true, false, not, arith, u16}
use hudp.IncrementalId.{get_next_id, is_next_id, is_bigger_than, is_smaller_than}

-- The counter after `n` calls.
abbrev pub after : ℕ → ℕ → ℕ
after cur_id zero = cur_id
after cur_id (suc n) = get_next_id (after cur_id n)

after-eq : (cur_id n : ℕ) → cur_id < 65536 → after cur_id n ≡ u16 (cur_id + n)
unfolding get_next_id
after-eq cur_id zero h = omega arith
after-eq cur_id (suc n) h = omega (arith, after-eq cur_id n h)

-- An id handed out at most a hundred calls after another is bigger than it, and not the other way
-- round, wherever the counter wraps.
pub after-is_bigger :
    (cur_id n : ℕ)
    → cur_id < 65536
    → 0 < n
    → n ≤ 100
    → (is_bigger_than (after cur_id n) cur_id ≡ true)
      × (is_bigger_than cur_id (after cur_id n) ≡ false)
      × (is_smaller_than cur_id (after cur_id n) ≡ true)
unfolding is_bigger_than is_smaller_than
after-is_bigger cur_id n h pos small = ground (arith, after-eq cur_id n h)

-- Of two different ids exactly one is bigger, and no id is bigger than itself.
is_bigger_than_total :
    (a b : ℕ)
    → (a ≢ b → is_bigger_than a b ≡ not (is_bigger_than b a)) × (is_bigger_than a a ≡ false)
unfolding is_bigger_than
is_bigger_than_total a b = ground arith

-- The two different counter values that `GetNextId` separates are told apart by `IsNextId`, and no
-- other value passes.
pub is_next_id_iff :
    (cur_id next : ℕ)
    → (is_next_id cur_id next ≡ true → next ≡ get_next_id cur_id)
      × (next ≡ get_next_id cur_id → is_next_id cur_id next ≡ true)
unfolding is_next_id get_next_id
is_next_id_iff cur_id next = ground arith
