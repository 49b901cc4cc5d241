-- ===== src/SendWnd.antt =====
-- The send window of common/SendWnd.h and common/SendWnd.cpp. `_id_msg_map` is an unordered map: a
-- list of its entries, with the entry that `begin()` gives as a parameter, since the order of the
-- container is its own. The messages are shared objects, so that the store is part of the state;
-- the calls of the sockets are kept in their order.
mod Tests
pub mod Window
pub mod Resize
use hudp.Common.{
  ℕ, zero, suc, ◌+◌, ◌-◌, Bool, true, false, not, ◌&&◌, Option, none, some, List, [], ◌∷◌, ◌++◌,
  ltb, leb, ◌==◌, if◌then◌else◌, length, drop, u16, u32, sub16, has, get_or,
}
use hudp.Config.{msg_with_out_id, quick_resend_limit}
use hudp.Message.{Msg, Ptr, Store, set_id}
use hudp.IncrementalId.{get_next_id}
use hudp.PriorityQueue.{PriorityQueue, pop, size}
use hudp.PriorityQueue as Queue
use hudp.Serializes.{estimate_size}

abbrev pub IdMap : Type 0
IdMap = List (ℕ × Ptr)

-- A call of a message's socket.
pub data Call : Type 0 where
  to_send ack_done : Ptr → Call

-- `_end` is never read and is left out.
pub record SendWnd : Type 0 where
  pub start : Option Ptr
  pub out_of_order_count : ℕ
  pub send_wnd_size : ℕ
  pub cur_send_size : ℕ
  pub always_send : Bool
  pub priority_queue : PriorityQueue
  pub incremental_id : ℕ
  pub ack_queue : List Ptr
  pub send_queue : List Ptr
  pub id_msg_map : IdMap
  pub store : Store
  pub calls : List Call

-- `find(id)`.
abbrev pub find : ℕ → IdMap → Option Ptr
find id [] = none
find id ((k, p) ∷ m) = if k == id then some p else find id m

-- `erase` of a key.
abbrev pub erase : ℕ → IdMap → IdMap
erase id [] = []
erase id ((k, p) ∷ m) = let rest = erase id m in if k == id then m else (k, p) ∷ rest

-- `_id_msg_map[id] = msg`.
abbrev pub assign : ℕ → Ptr → IdMap → IdMap
assign id msg [] = (id, msg) ∷ []
assign id msg ((k, p) ∷ m) =
    let rest = assign id msg m in if k == id then (k, msg) ∷ m else (k, p) ∷ rest

abbrev pub is_same : Option Ptr → Ptr → Bool
is_same none p = false
is_same (some q) p = q == p

abbrev pub map_calls : (Ptr → Call) → List Ptr → List Call
map_calls f [] = []
map_calls f (p ∷ ps) = f p ∷ map_calls f ps

-- `SendAndAck` empties both queues.
unfoldable pub send_and_ack : SendWnd → SendWnd
send_and_ack w = record w {
  send_queue = [];
  ack_queue = [];
  calls = w.calls ++ (map_calls to_send w.send_queue ++ map_calls ack_done w.ack_queue);
}

unfoldable pub is_app_limit : SendWnd → Bool
is_app_limit w = w.send_wnd_size == u16 (length w.id_msg_map)

unfoldable pub get_wnd_size : SendWnd → ℕ
get_wnd_size w = w.send_wnd_size

unfoldable pub remove : Ptr → SendWnd → SendWnd
remove msg w = record w { id_msg_map = erase (w.store msg).head.id w.id_msg_map }

-- The calls of `Clear`, in the order of the list; a message without a socket is passed over.
abbrev pub done_calls : Store → IdMap → List Call
done_calls store [] = []
done_calls store ((k, p) ∷ m) =
    let rest = done_calls store m in
    elim (store p).socket [ none ↦ rest | some sock ↦ ack_done p ∷ rest ]

unfoldable pub clear : SendWnd → SendWnd
clear w = record w { id_msg_map = []; calls = w.calls ++ done_calls w.store w.id_msg_map }

-- `begin()->second` of a map that is not empty.
module _ (begin : IdMap → Option Ptr) where
  -- `_start` after the map has changed in `AddToEnd`.
  abbrev pub start_or : Option Ptr → IdMap → Option Ptr
  start_or none m = begin m
  start_or (some p) m = some p

  unfoldable pub add_to_end : Ptr → SendWnd → SendWnd
  add_to_end msg w =
      let m = assign (w.store msg).head.id msg w.id_msg_map in
      record w { id_msg_map = m; start = start_or w.start m }

  unfoldable pub push_back_to_send_wnd : Ptr → SendWnd → SendWnd
  unfolding add_to_end send_and_ack
  push_back_to_send_wnd msg w =
      let id = get_next_id w.incremental_id in
      let store : Store = λ p. if p == msg then set_id id (w.store msg) else w.store p in
      let added = add_to_end msg (record w {
        incremental_id = id;
        store = store;
        id_msg_map = assign id msg w.id_msg_map;
      }) in
      send_and_ack (record added {
        send_queue = added.send_queue ++ (msg ∷ []);
        cur_send_size =
            if added.always_send then added.cur_send_size else u16 (added.cur_send_size + 1);
      })

  -- The loop of `SendNext`, on fuel.
  unfoldable pub send_next_loop : ℕ → SendWnd → SendWnd
  unfolding push_back_to_send_wnd
  send_next_loop zero w = w
  send_next_loop (suc fuel) w =
      let r = pop w.priority_queue in
      let popped : SendWnd = record w { priority_queue = r.0 } in
      elim (ltb w.cur_send_size w.send_wnd_size) [
        | false ↦ w
        | true ↦ elim r.1 [
          | none ↦ popped
          | some temp ↦ send_next_loop fuel (push_back_to_send_wnd temp popped)
        ]
      ]

  -- A round more than there are messages in the queue.
  unfoldable pub send_next : SendWnd → SendWnd
  unfolding send_next_loop
  send_next w = send_next_loop (suc (size w.priority_queue)) w

  unfoldable pub push_back : Option Ptr → SendWnd → SendWnd
  unfolding push_back_to_send_wnd
  push_back none w = w
  push_back (some msg) w =
      if not (has (w.store msg).flag msg_with_out_id)
      then w
      else if leb w.send_wnd_size w.cur_send_size
      then record w { priority_queue = Queue.push_back w.store msg w.priority_queue }
      else push_back_to_send_wnd msg w

  -- `AcceptAck` of an id that is in the window, up to the quick resending.
  unfoldable pub take_out : ℕ → Ptr → SendWnd → SendWnd
  take_out id msg w =
      let m = erase id w.id_msg_map in
      record w {
        out_of_order_count = if is_same w.start msg then 0 else u16 (w.out_of_order_count + 1);
        ack_queue = w.ack_queue ++ (msg ∷ []);
        cur_send_size = sub16 w.cur_send_size 1;
        id_msg_map = m;
        start = if length m == 0 then none else begin m;
      }

  unfoldable pub quick_resend : SendWnd → SendWnd
  quick_resend w =
      let resent : List Ptr = elim w.start [ none ↦ [] | some p ↦ p ∷ [] ] in
      if leb quick_resend_limit w.out_of_order_count && not (length resent == 0)
      then record w { send_queue = w.send_queue ++ resent; out_of_order_count = 0 }
      else w

  -- The size of the message that is acked, 0 for an id that is not in the window.
  unfoldable pub accept_ack : ℕ → SendWnd → SendWnd × ℕ
  unfolding take_out quick_resend send_next send_and_ack
  accept_ack id w = elim (find id w.id_msg_map) [
    | none ↦ (w, 0)
    | some msg ↦
        (send_and_ack (send_next (quick_resend (take_out id msg w))), estimate_size (w.store msg))
  ]

  -- `AcceptAck(start_id, len)`.
  unfoldable pub accept_ack_range : ℕ → ℕ → SendWnd → SendWnd × ℕ
  unfolding accept_ack
  accept_ack_range start_id zero w = (w, 0)
  accept_ack_range start_id (suc len) w =
      let (v, bytes) = accept_ack start_id w in
      let (u, more) = accept_ack_range (u16 (start_id + 1)) len v in (u, u32 (bytes + more))

  -- The loop of `AcceptAck(vec_id, start_index, len)`; reading beyond the vector, where the source
  -- has no defined behaviour, gives `none`.
  unfoldable pub accept_each : ℕ → List ℕ → SendWnd → Option (SendWnd × ℕ)
  unfolding accept_ack
  accept_each zero ids w = some (w, 0)
  accept_each (suc n) [] w = none
  accept_each (suc n) (id ∷ ids) w =
      let (v, bytes) = accept_ack id w in
      elim (accept_each n ids v) [ none ↦ none | some r ↦ some (r.0, u32 (bytes + r.1)) ]

  unfoldable pub accept_ack_vec : List ℕ → ℕ → ℕ → SendWnd → Option (SendWnd × ℕ)
  unfolding accept_each
  accept_ack_vec vec_id start_index len w =
      accept_each (u16 (start_index + len) - start_index) (drop start_index vec_id) w

  unfoldable pub change_send_wnd_size : ℕ → SendWnd → SendWnd
  unfolding send_next send_and_ack
  change_send_wnd_size n w =
      if w.send_wnd_size == n then w else send_and_ack (send_next (record w { send_wnd_size = n }))
