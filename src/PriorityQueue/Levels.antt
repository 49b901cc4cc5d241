-- ===== src/PriorityQueue/Levels.antt =====
-- Which level `PushBack` of common/PriorityQueue.cpp chooses, for the messages that
-- hudp/HudpImpl.cpp and net/SocketImpl.cpp make.
use hudp.Common.{ℕ, ◌≡◌, ◌++◌, ◌∷◌, [], refl}
use hudp.Config.{msg_send}
use hudp.Message.{Msg, Ptr, Store, new_msg, set_flag, set_header_flag}
use hudp.PriorityQueue.{PriorityQueue, push_back}

-- What `SendTo` makes of a new message before it is queued, with respect to its flags.
abbrev pub upper_msg : ℕ → Msg
upper_msg header_flag = set_header_flag header_flag (set_flag msg_send new_msg)

-- What `SendFinMessage`, `SendFinAckMessage` and `SendResetMsg` make.
abbrev pub control_msg : ℕ → Msg
control_msg header_flag = set_header_flag header_flag new_msg

-- The priority asked for in the header flag has no effect: `PushBack` reads the message's own
-- flags, so each message of `SendTo` goes to the end of the lowest level, and a message that the
-- socket makes itself is dropped.
pub push_back-ignores_header :
    (store : Store) (msg : Ptr) (header_flag : ℕ) (q : PriorityQueue)
    → (store msg ≡ upper_msg header_flag
        → push_back store msg q ≡ record q { low = q.low ++ (msg ∷ []) })
      × (store msg ≡ control_msg header_flag → push_back store msg q ≡ q)
unfolding push_back set_header_flag set_flag
push_back-ignores_header store msg header_flag q = (λ e. rw e refl, λ e. rw e refl)
