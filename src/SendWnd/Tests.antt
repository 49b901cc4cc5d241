-- ===== src/SendWnd/Tests.antt =====
-- The theorems on common/SendWnd.cpp at a concrete window.
use hudp.Common.{◌≡◌, ◌≤◌, ◌⊎◌, inl, refl, Option, none, some, [], ◌∷◌, false, arith}
use hudp.Message.{Ptr, new_msg}
use hudp.PriorityQueue.{empty_queue}
use hudp.SendWnd.{IdMap, SendWnd, push_back, accept_ack, change_send_wnd_size}
use hudp.SendWnd.Window.{IsSettled, window-IsSettled, stays_within}

-- A map that gives its entries in the order of the list.
abbrev begin : IdMap → Option Ptr
begin [] = none
begin ((k, p) ∷ m) = some p

-- A full window of two messages, with two more that wait.
abbrev window : SendWnd
window = record {
  start = some 0;
  out_of_order_count = 0;
  send_wnd_size = 2;
  cur_send_size = 2;
  always_send = false;
  priority_queue = record empty_queue { normal = 2 ∷ 3 ∷ [] };
  incremental_id = 8;
  ack_queue = [];
  send_queue = [];
  id_msg_map = (7, 0) ∷ (8, 1) ∷ [];
  store = λ p. new_msg;
  calls = [];
}

window-IsSettled_example :
    IsSettled (push_back begin (some 4) window)
    × IsSettled (accept_ack begin 7 window).0
    × IsSettled (change_send_wnd_size begin 3 window)
window-IsSettled_example = window-IsSettled begin window (some 4) 7 3 (inl (omega arith))

stays_within_example :
    let v = change_send_wnd_size begin 3 window in
    ((push_back begin (some 4) window).cur_send_size ≤ 2)
    × ((accept_ack begin 7 window).0.cur_send_size ≤ 2)
    × (v.send_wnd_size ≡ 3)
    × ((v.cur_send_size ≤ 2) ⊎ (v.cur_send_size ≤ 3))
stays_within_example =
    stays_within begin window (some 4) 7 3 refl (omega arith) (omega arith) (omega arith)
      (omega arith)
