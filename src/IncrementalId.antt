-- ===== src/IncrementalId.antt =====
-- The 16-bit message counter and the order on wrapping ids, common/IncrementalId.cpp.
mod Tests
pub mod WrapOrder
use hudp.Common.{ℕ, ◌+◌, ◌-◌, Bool, true, false, ◌&&◌, ltb, leb, ◌==◌, if◌then◌else◌, u16}
use hudp.Config.{max_compare_num, max_id}

-- `_cur_id`; the new value is also the result.
unfoldable pub get_next_id : ℕ → ℕ
get_next_id cur_id = u16 (cur_id + 1)

unfoldable pub is_next_id : ℕ → ℕ → Bool
is_next_id prev next = u16 (prev + 1) == next

unfoldable pub is_bigger_than : ℕ → ℕ → Bool
is_bigger_than prev next =
    if leb prev max_compare_num && ltb (max_id - 100) next
    then true
    else if leb next max_compare_num && ltb (max_id - 100) prev
    then false
    else ltb next prev

unfoldable pub is_smaller_than : ℕ → ℕ → Bool
unfolding is_bigger_than
is_smaller_than prev next = is_bigger_than next prev
