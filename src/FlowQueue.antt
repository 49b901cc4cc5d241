-- ===== src/FlowQueue.antt =====
-- The flow queue of net/controller/FlowQueue.cpp: messages that are sent again go before all
-- others. The lists hold pointers, compared as pointers.
mod Tests
pub mod Order
use hudp.Common.{ℕ, Option, none, some, List, [], ◌∷◌, ◌++◌, ◌==◌, if◌then◌else◌, has}
use hudp.Config.{msg_resend}
use hudp.Message.{Msg, Ptr, Store}

pub record FlowQueue : Type 0 where
  pub resend_list : List Ptr
  pub normal_list : List Ptr

abbrev pub empty_flow : FlowQueue
empty_flow = record { resend_list = []; normal_list = [] }

unfoldable pub add_to_normal_head : Ptr → FlowQueue → FlowQueue
add_to_normal_head msg q = record q { normal_list = msg ∷ q.normal_list }

unfoldable pub add_to_normal_tail : Ptr → FlowQueue → FlowQueue
add_to_normal_tail msg q = record q { normal_list = q.normal_list ++ (msg ∷ []) }

unfoldable pub add_to_resend_head : Ptr → FlowQueue → FlowQueue
add_to_resend_head msg q = record q { resend_list = msg ∷ q.resend_list }

unfoldable pub add_to_resend_tail : Ptr → FlowQueue → FlowQueue
add_to_resend_tail msg q = record q { resend_list = q.resend_list ++ (msg ∷ []) }

unfoldable pub add : Store → Ptr → FlowQueue → FlowQueue
unfolding add_to_normal_tail add_to_resend_tail
add store msg q =
    if has (store msg).flag msg_resend then add_to_resend_tail msg q else add_to_normal_tail msg q

get_normal : FlowQueue → List Ptr → FlowQueue × Option Ptr
get_normal q [] = (q, none)
get_normal q (msg ∷ rest) = (record q { normal_list = rest }, some msg)

get_resend : FlowQueue → List Ptr → FlowQueue × Option Ptr
unfolding get_normal
get_resend q [] = get_normal q q.normal_list
get_resend q (msg ∷ rest) = (record q { resend_list = rest }, some msg)

-- `Get`.
unfoldable pub get : FlowQueue → FlowQueue × Option Ptr
unfolding get_resend
get q = get_resend q q.resend_list

-- A loop of `RemoveUnLock`: the list without the first occurrence, or none if there is none.
unfoldable pub erase_first : Ptr → List Ptr → Option (List Ptr)
erase_first msg [] = none
erase_first msg (m ∷ rest) =
    let later : Option (List Ptr) = elim (erase_first msg rest) [
      | none ↦ none
      | some r ↦ some (m ∷ r)
    ] in
    if m == msg then some rest else later

-- A null pointer is none.
unfoldable pub remove_un_lock : Option Ptr → FlowQueue → FlowQueue
unfolding erase_first
remove_un_lock none q = q
remove_un_lock (some msg) q = elim (erase_first msg q.resend_list) [
  | some rest ↦ record q { resend_list = rest }
  | none ↦ elim (erase_first msg q.normal_list) [
    | some rest ↦ record q { normal_list = rest }
    | none ↦ q
  ]
]

unfoldable pub remove : Option Ptr → FlowQueue → FlowQueue
unfolding remove_un_lock
remove msg q = remove_un_lock msg q
