-- ===== src/SocketControl.antt =====
-- The flow control of the socket, net/SocketImpl.cpp: the way of a message from the send windows by
-- the flow queue and the pacer to the network, and what an ack does to the windows, the estimate of
-- the timeout, the controller and the pacing rate. `Control` holds what `Socket` leaves to others.
--
-- `stamp` is the answer of `GetCurTimeStamp()`, which is the same at every call, and `now` the clock
-- of the timers. The calls that a window makes on the socket are carried out when the window has
-- done its work, in their order: they change no part of a message that the window still reads. A
-- null window that is called, and a vector that is read beyond its end, give `none`.
mod Tests
pub mod Acks
pub mod Frame
pub mod Returned
pub mod Resized
pub mod Stalled
pub mod Missing
pub mod TimeOut
pub mod Keeps
pub mod Reached
use hudp.Common.{
  ℕ, ◌+◌, Bool, true, false, ◌||◌, Option, none, some, List, [], ◌∷◌, if◌then◌else◌, or_make,
  length, u16, u32, sub32, sub64, has,
}
use hudp.Config.{
  init_send_wnd_size, htf_orderly, htf_reliable, htf_reliable_orderly, hpf_upper,
  hpf_with_reliable_ack, hpf_with_reliable_orderly_ack, msg_is_only_ack,
}
use hudp.Message.{Msg, Ptr, Store, new_msg, get_ack, get_re_send_time, set_send_time}
use hudp.PriorityQueue.{empty_queue}
use hudp.FlowQueue.{FlowQueue, add, get, remove}
use hudp.Serializes.{estimate_size}
use hudp.Rto.{Rto, set_rtt_time, get_rto}
use hudp.Timer.{Timer, add_timer, remove_timer}
use hudp.Pacing.{
  Pacing, Outcome, sent_to_net, deferred, called_back, set_pacing_rate, get_pacing_rate, update,
}
use hudp.Pacing
use hudp.Bbr.Block.{Bbr}
use hudp.Bbr.Main.{Ack, bbr_main}
use hudp.SendWnd.{
  SendWnd, IdMap, Call, to_send, ack_done, push_back, accept_ack, change_send_wnd_size,
}
use hudp.SocketImpl.{
  Socket, WndIndex, wi_orderly, wi_reliable, wi_reliable_orderly, Output, send_message_to_net,
  send_back_to_upper, emit, add_ack_to_msg,
}

-- The rest of the members of `CSocketImpl`, with the messages and the timers that are shared.
pub record Control : Type 0 where
  pub socket : Socket
  pub wnd_orderly : Option SendWnd
  pub wnd_reliable : Option SendWnd
  pub wnd_reliable_orderly : Option SendWnd
  pub rto : Rto
  pub in_flight : ℕ
  pub bbr : Bbr
  pub pacing : Pacing
  pub flow_queue : FlowQueue
  pub store : Store
  pub timer : Timer
  pub pacing_timer : Timer

abbrev pub emits : Output → Control → Control
emits o c = record c { socket = emit o c.socket }

abbrev pub is_acked : Msg → Bool
is_acked m = has m.head.flag htf_reliable || has m.head.flag htf_reliable_orderly

unfoldable pub pacing_call_back : Ptr → Control → Control
pacing_call_back msg c =
    let m = c.store msg in
    emits (send_message_to_net m)
      (if is_acked m then record c { in_flight = u32 (c.in_flight + estimate_size m) } else c)

-- `_pacing->SendMessage(send_msg)`, by what becomes of the message.
unfoldable pub after_pacing : Ptr → Outcome → Control → Control
unfolding pacing_call_back
after_pacing msg sent_to_net c = emits (send_message_to_net (c.store msg)) c
after_pacing msg deferred c = c
after_pacing msg called_back c = pacing_call_back msg c

unfoldable pub pace : ℕ → ℕ → Option Ptr → Control → Control
unfolding after_pacing
pace stamp now none c = c
pace stamp now (some msg) c =
    let (pacing, store, pacing_timer, outcome) =
      Pacing.send_message stamp now msg c.store c.pacing_timer c.pacing in
    after_pacing msg outcome
      (record c { pacing = pacing; store = store; pacing_timer = pacing_timer })

-- `SendPacingMsg`; `__use_fq_and_pacing` is true.
unfoldable pub send_pacing_msg : ℕ → ℕ → Ptr → Bool → Control → Control
unfolding pace
send_pacing_msg stamp now msg add_fq c =
    let queue = if add_fq then add c.store msg c.flow_queue else c.flow_queue in
    let (flow_queue, next) = get queue in
    if has (c.store msg).flag msg_is_only_ack
    then emits (send_message_to_net (c.store msg)) c
    else pace stamp now next (record c { flow_queue = flow_queue })

-- `AddAckToMsg` on a shared message.
unfoldable pub add_ack : Ptr → Control → Control
add_ack msg c =
    let (socket, m, ret) = add_ack_to_msg (c.store msg) c.socket in
    record c { socket = socket; store = update msg (λ old. m) c.store }

unfoldable pub to_send_handler : ℕ → ℕ → Ptr → Control → Control
unfolding add_ack send_pacing_msg
to_send_handler stamp now msg c =
    let ms = get_re_send_time (get_rto c.rto) (c.store msg) in
    let (timer, store, expiration_time, woken) = add_timer now ms msg c.store c.timer in
    let timed : Control =
      if is_acked (c.store msg) then record c { timer = timer; store = store } else c in
    let stamped : Control = record timed { store = update msg (set_send_time stamp) timed.store } in
    send_pacing_msg stamp now msg true (add_ack msg stamped)

unfoldable pub ack_done_handler : Ptr → Control → Control
ack_done_handler msg c =
    let m = c.store msg in
    let (timer, store) = remove_timer msg c.store c.timer in
    let told = if has m.head.flag hpf_upper then emits (send_back_to_upper m.upper_id) c else c in
    record told { timer = timer; store = store; flow_queue = remove (some msg) c.flow_queue }

-- The calls of a window, in their order.
unfoldable pub carry_out : ℕ → ℕ → List Call → Control → Control
unfolding to_send_handler ack_done_handler
carry_out stamp now [] c = c
carry_out stamp now (to_send msg ∷ calls) c =
    carry_out stamp now calls (to_send_handler stamp now msg c)
carry_out stamp now (ack_done msg ∷ calls) c = carry_out stamp now calls (ack_done_handler msg c)

-- `_send_wnd[index]`.
abbrev pub wnd_at : WndIndex → Control → Option SendWnd
wnd_at wi_orderly c = c.wnd_orderly
wnd_at wi_reliable c = c.wnd_reliable
wnd_at wi_reliable_orderly c = c.wnd_reliable_orderly

abbrev pub put_wnd : WndIndex → SendWnd → Control → Control
put_wnd wi_orderly w c = record c { wnd_orderly = some w }
put_wnd wi_reliable w c = record c { wnd_reliable = some w }
put_wnd wi_reliable_orderly w c = record c { wnd_reliable_orderly = some w }

-- A window as it reads the messages now, and the socket after the window has changed.
abbrev pub lent : SendWnd → Control → SendWnd
lent w c = record w { store = c.store; calls = [] }

unfoldable pub return_wnd : ℕ → ℕ → WndIndex → SendWnd → Control → Control
unfolding carry_out
return_wnd stamp now index w c =
    carry_out stamp now w.calls (put_wnd index w (record c { store = w.store }))

-- The constructor of a window; its first id is random.
abbrev pub new_send_wnd : ℕ → ℕ → Bool → SendWnd
new_send_wnd first_id send_wnd_size always_send = record {
  start = none;
  out_of_order_count = 0;
  send_wnd_size = send_wnd_size;
  cur_send_size = 0;
  always_send = always_send;
  priority_queue = empty_queue;
  incremental_id = first_id;
  ack_queue = [];
  send_queue = [];
  id_msg_map = [];
  store = λ p. new_msg;
  calls = [];
}

abbrev pub is_orderly : WndIndex → Bool
is_orderly wi_orderly = true
is_orderly wi_reliable = false
is_orderly wi_reliable_orderly = false

module _ (begin : IdMap → Option Ptr) where
  unfoldable pub add_to_send_wnd : ℕ → ℕ → ℕ → WndIndex → Ptr → Control → Control
  unfolding return_wnd
  add_to_send_wnd first_id stamp now index msg c =
      let made = new_send_wnd first_id init_send_wnd_size (is_orderly index) in
      let w = or_make (wnd_at index c) made in
      return_wnd stamp now index (push_back begin (some msg) (lent w c)) c

  -- `SendMessage`.
  unfoldable pub send_message : ℕ → ℕ → ℕ → Ptr → Control → Control
  unfolding add_to_send_wnd add_ack send_pacing_msg
  send_message first_id stamp now msg c =
      let flag = (c.store msg).head.flag in
      if has flag htf_orderly
      then add_to_send_wnd first_id stamp now wi_orderly msg c
      else if has flag htf_reliable
      then add_to_send_wnd first_id stamp now wi_reliable msg c
      else if has flag htf_reliable_orderly
      then add_to_send_wnd first_id stamp now wi_reliable_orderly msg c
      else send_pacing_msg stamp now msg true (add_ack msg c)
