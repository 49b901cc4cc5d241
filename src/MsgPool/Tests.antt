-- ===== src/MsgPool/Tests.antt =====
-- The pool of hudp/MsgPoolFactory.cpp at a concrete run.
use hudp.Common.{◌≡◌, refl, ◌≤◌, [], ◌∷◌, length}
use hudp.Message.{Msg, Store, new_msg}
use hudp.Message.MsgHead.{empty_head}
use hudp.Pacing.{update}
use hudp.Timer.{Timer}
use hudp.MsgPool.{Pool, create_msg, reduce_free, delete_msg, shared_ptr_deleter}
use hudp.MsgPool.Clean.{IsNew, Reached, made, created, written, deleted, create_msg-IsNew}

abbrev nothing : Store
nothing p = new_msg

abbrev idle : Timer
idle = record { timer_map = []; wait_time = 0 }

-- Someone writes a body and a time of sending.
abbrev write : Msg → Msg
write m = record m { body = 1 ∷ 2 ∷ []; head = record empty_head { id = 7; send_time = 90 } }

abbrev used : Store
used = update 4 write (create_msg 4 nothing []).1

used-Reached : Reached used []
unfolding create_msg
used-Reached = written 4 write tt (created 4 tt (made nothing))

abbrev free : Pool
free = 4 ∷ []

abbrev given_back : Store
given_back = (shared_ptr_deleter 4 used idle []).0

given_back-Reached : Reached given_back free
unfolding shared_ptr_deleter delete_msg reduce_free
given_back-Reached = deleted 4 idle tt used-Reached

create_msg-IsNew_example :
    IsNew ((create_msg 5 given_back free).1 (create_msg 5 given_back free).0) × (length free ≤ 50)
create_msg-IsNew_example = create_msg-IsNew 5 given_back-Reached

-- The message has the time of its former use.
sent_before : ((create_msg 5 given_back free).1 4).head ≡ record empty_head { send_time = 90 }
unfolding create_msg shared_ptr_deleter delete_msg hudp.Message.clear hudp.Message.MsgHead.clear
sent_before = refl
