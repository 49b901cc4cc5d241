-- ===== src/FlowQueue/Tests.antt =====
-- The theorems on net/controller/FlowQueue.cpp at a concrete queue.
use hudp.Common.{◌≡◌, [], ◌∷◌, none, some}
use hudp.Config.{msg_resend}
use hudp.Message.{Store, new_msg}
use hudp.FlowQueue.{FlowQueue, add, get, remove}
use hudp.FlowQueue.Order.{contents, uncons, get-add-remove-contents}

abbrev queue : FlowQueue
queue = record { resend_list = 8 ∷ []; normal_list = 1 ∷ 2 ∷ 3 ∷ [] }

abbrev store : Store
store p = record new_msg { flag = msg_resend }

get-add-remove-contents_example :
    (let (r, first) = get queue in (first, contents r) ≡ uncons (contents queue))
    × (contents (add store 9 queue) ≡ 8 ∷ 9 ∷ 1 ∷ 2 ∷ 3 ∷ [])
    × (contents (remove (some 9) queue) ≡ 8 ∷ 1 ∷ 2 ∷ 3 ∷ [])
    × (remove none queue ≡ queue)
get-add-remove-contents_example = get-add-remove-contents store 9 queue
