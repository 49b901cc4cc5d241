-- ===== src/SocketControl/Tests.antt =====
-- The theorem on the flow control of net/SocketImpl.cpp at a concrete socket.
use hudp.Common.{◌≡◌, [], ◌∷◌, Option, none, some, refl, true, false, has, or_make}
use hudp.Config.{htf_reliable_orderly, hpf_with_reliable_ack, hpf_with_reliable_orderly_ack}
use hudp.Message.{Msg, Ptr, new_msg, get_ack}
use hudp.Message.MsgHead.{
  empty_head, get_reliable_ack, get_reliable_ack_time, get_reliable_orderly_ack,
  get_reliable_orderly_ack_time,
}
use hudp.Rto.{new_rto}
use hudp.Timer.{new_timer, add_timer}
use hudp.Message
use hudp.Message.MsgHead
use hudp.FlowQueue
use hudp.Pacing.{new_pacing, get_pacing_rate}
use hudp.Pacing
use hudp.Bbr.Main.{bbr_init}
use hudp.Bbr.Idle.{IsIdle}
use hudp.Bbr.Block.{Bbr}
use hudp.Bbr.Zeroed.{zeroed}
use hudp.SendWnd.{SendWnd, IdMap, push_back, accept_ack}
use hudp.IncrementalId.{get_next_id}
use hudp.SocketImpl.{add_ack_to_msg, new_socket}
use hudp.SocketControl.{Control, new_send_wnd, send_message}
use hudp.SocketControl.Reached.{made, sent, acked, timed_out, new_control, Reached-stalled}
use hudp.SocketControl.TimeOut.{time_out}
use hudp.SocketControl.Acks.{get_ack_to_send_wnd, accept_one, accept_each, accept_all}
use hudp.SocketControl.Missing.{get_ack_to_send_wnd-none}

abbrev begin : IdMap → Option Ptr
begin [] = none
begin ((k, p) ∷ m) = some p

-- Two messages on their way, in a window of 32.
abbrev window : SendWnd
window = record (new_send_wnd 9 32 false) {
  start = some 0;
  cur_send_size = 2;
  incremental_id = 8;
  id_msg_map = (7, 0) ∷ (8, 1) ∷ [];
}

abbrev control : Control
control = record {
  socket = new_socket;
  wnd_orderly = none;
  wnd_reliable = some (new_send_wnd 3 6 false);
  wnd_reliable_orderly = some window;
  rto = new_rto;
  in_flight = 900;
  bbr = bbr_init 5000 zeroed;
  pacing = new_pacing 100;
  flow_queue = record { resend_list = []; normal_list = [] };
  store = λ p. new_msg;
  timer = new_timer;
  pacing_timer = new_timer;
}

-- An ack of both.
abbrev acks : Msg
acks = record new_msg {
  head = record empty_head {
    flag = hpf_with_reliable_orderly_ack;
    ack_reliable_orderly_vec = 7 ∷ 8 ∷ [];
    reliable_orderly_msg_send_time_vec = 4900 ∷ 4950 ∷ [];
  };
}

-- A socket that has sent messages of the other kind only.
abbrev one_sided : Control
one_sided = record control { wnd_reliable_orderly = none }

get_ack_to_send_wnd-none_example :
    let r = get_ack_to_send_wnd begin 5000 9000 acks one_sided in
    (has acks.head.flag hpf_with_reliable_orderly_ack ≡ true
      → one_sided.wnd_reliable_orderly ≡ none
      → r ≡ none)
    × (has acks.head.flag hpf_with_reliable_orderly_ack ≡ false
        → has acks.head.flag hpf_with_reliable_ack ≡ true
        → one_sided.wnd_reliable ≡ none
        → r ≡ none)
get_ack_to_send_wnd-none_example = get_ack_to_send_wnd-none begin 5000 9000 acks one_sided

-- A reliable message is sent, acked, and its timer goes off.
abbrev out : Msg
out = record new_msg { head = record empty_head { flag = htf_reliable_orderly }; body = 1 ∷ [] }

-- What the memory held before the controller was made.
abbrev memory : Bbr
memory = record zeroed { lt_bw = 7; lt_rtt_cnt = 9; lt_last_lost = 3 }

abbrev sent_one : Control
sent_one = send_message begin 9 4000 8000 0 (new_control 3000 100 memory (λ p. out))

abbrev acked_one : Control
acked_one = or_make (get_ack_to_send_wnd begin 5000 9000 acks sent_one) sent_one

Reached-stalled_example :
    let c = time_out true 6000 9500 0 acked_one in IsIdle c.bbr × (get_pacing_rate c.pacing ≡ 100)
unfolding get_ack_to_send_wnd send_message get_ack get_reliable_ack get_reliable_ack_time
    get_reliable_orderly_ack get_reliable_orderly_ack_time push_back add_ack_to_msg Message.set_id
    MsgHead.set_id Message.clear_ack Message.set_send_time add_timer FlowQueue.get FlowQueue.add
    Pacing.send_message MsgHead.set_send_time MsgHead.clear_ack accept_one accept_each accept_all
    accept_ack get_next_id
Reached-stalled_example = Reached-stalled begin (
    timed_out true 6000 9500 0 (
      acked {c = sent_one} 5000 9000 acks refl
        (sent 9 4000 8000 0 (made 3000 memory (λ p. out) refl refl))))
