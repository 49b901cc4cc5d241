-- ===== src/MsgPool.antt =====
-- The pool of messages, hudp/MsgPoolFactory.h and hudp/MsgPoolFactory.cpp, over the queue of
-- base/TSQueue.h: the free messages by their pointers, the first to be used again in front.
mod Tests
pub mod Clean
use hudp.Common.{ℕ, ◌+◌, ◌/◌, List, [], ◌∷◌, ◌++◌, if◌then◌else◌, ltb, length, drop}
use hudp.Message.{Msg, Ptr, Store, new_msg, clear}
use hudp.Pacing.{update}
use hudp.Timer.{Timer, remove_timer}

-- `__msg_pool_reduce_limit_size`.
abbrev pub msg_pool_reduce_limit_size : ℕ
msg_pool_reduce_limit_size = 50

-- `_free_net_msg_queue`.
abbrev pub Pool : Type 0
Pool = List Ptr

-- `CreateMsg` and `CreateSharedMsg`; `fresh` is the address of a message that has to be made.
unfoldable pub create_msg : Ptr → Store → Pool → Ptr × Store × Pool
create_msg fresh store [] = (fresh, update fresh (λ old. new_msg) store, [])
create_msg fresh store (msg ∷ free) = (msg, store, free)

-- `ReduceFree`, which deletes the messages that have been free the longest.
unfoldable pub reduce_free : Pool → Pool
reduce_free free =
    if ltb msg_pool_reduce_limit_size (length free) then drop (length free / 2) free else free

unfoldable pub delete_msg : Ptr → Store → Pool → Store × Pool
unfolding reduce_free
delete_msg msg store free = (update msg clear store, reduce_free (free ++ (msg ∷ [])))

-- `SharedPtrDeleter`, when the last pointer to a message is gone.
unfoldable pub shared_ptr_deleter : Ptr → Store → Timer → Pool → Store × Timer × Pool
unfolding delete_msg
shared_ptr_deleter msg store timer free =
    let removed = remove_timer msg store timer in
    let r = if ltb 0 (store msg).time_id then removed else (timer, store) in
    let (store', free') = delete_msg msg r.1 free in (store', r.0, free')
