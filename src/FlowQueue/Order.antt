-- ===== src/FlowQueue/Order.antt =====
-- The order in which net/controller/FlowQueue.cpp gives messages back, and what `Remove` leaves.
use hudp.Common.{◌≡◌, Option, none, some}
use hudp.Common.{List, [], ◌∷◌, ◌++◌, ◌==◌, arith, refl, if◌then◌else◌, has, append_assoc}
use hudp.Config.{msg_resend}
use hudp.Message.{Ptr, Store}
use hudp.FlowQueue.{FlowQueue, add, get, erase_first, remove}

-- The messages in the order in which `Get` returns them.
abbrev pub contents : FlowQueue → List Ptr
contents q = q.resend_list ++ q.normal_list

-- The first element of a list, and the rest.
abbrev pub uncons : List Ptr → Option Ptr × List Ptr
uncons [] = (none, [])
uncons (m ∷ rest) = (some m, rest)

-- `Get` returns the first message of the contents, or null if there is none, and leaves the others
-- in their order.
get-contents : (q : FlowQueue) → let (r, msg) = get q in (msg, contents r) ≡ uncons (contents q)
unfolding get
get-contents q = ground arith

-- `Add` puts a message that is not sent again behind all others, and one that is sent again behind
-- the others of its kind and before all the rest.
add-contents :
    (store : Store) (msg : Ptr) (q : FlowQueue)
    → contents (add store msg q) ≡ (
        if has (store msg).flag msg_resend
        then q.resend_list ++ (msg ∷ q.normal_list)
        else contents q ++ (msg ∷ []))
unfolding add
add-contents store msg q = ground (
  arith,
  append_assoc q.resend_list (msg ∷ []) q.normal_list,
  append_assoc q.resend_list q.normal_list (msg ∷ []),
)

-- A list without the first occurrence of a message.
abbrev pub without : Ptr → List Ptr → List Ptr
without msg [] = []
without msg (m ∷ rest) = if m == msg then rest else m ∷ without msg rest

erase_first-append :
    (msg : Ptr) (xs ys : List Ptr)
    → without msg (xs ++ ys)
      ≡ elim (erase_first msg xs) [ some r ↦ r ++ ys | none ↦ xs ++ without msg ys ]
unfolding erase_first
erase_first-append msg [] ys = refl
erase_first-append msg (m ∷ xs) ys = ground (arith, erase_first-append msg xs ys)

erase_first-eq :
    (msg : Ptr) (xs : List Ptr)
    → without msg xs ≡ elim (erase_first msg xs) [ some r ↦ r | none ↦ xs ]
unfolding erase_first
erase_first-eq msg [] = refl
erase_first-eq msg (m ∷ xs) = ground (arith, erase_first-eq msg xs)

-- `Remove` takes out the first occurrence of the message and nothing else; a message that is not
-- queued, and a null pointer, change nothing.
remove-contents :
    (msg : Ptr) (q : FlowQueue)
    → (contents (remove (some msg) q) ≡ without msg (contents q)) × (remove none q ≡ q)
unfolding remove
remove-contents msg q =
    ground
      (arith, erase_first-append msg q.resend_list q.normal_list, erase_first-eq msg q.normal_list)

-- The queue refines one list, its contents: `Get` takes the first message of the list and leaves the
-- others in their order, or returns null on an empty one; `Add` puts a message that is sent again
-- behind the others of its kind and before the rest, and any other message at the end; `Remove`
-- takes out the first occurrence of its message and nothing else, and does nothing on null.
pub get-add-remove-contents :
    (store : Store) (msg : Ptr) (q : FlowQueue)
    → (let (r, first) = get q in (first, contents r) ≡ uncons (contents q))
      × (contents (add store msg q) ≡ (
          if has (store msg).flag msg_resend
          then q.resend_list ++ (msg ∷ q.normal_list)
          else contents q ++ (msg ∷ [])))
      × (contents (remove (some msg) q) ≡ without msg (contents q))
      × (remove none q ≡ q)
get-add-remove-contents store msg q =
    let removed = remove-contents msg q in
    (get-contents q, add-contents store msg q, removed.0, removed.1)
