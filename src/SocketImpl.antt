-- ===== src/SocketImpl.antt =====
-- The socket of net/SocketImpl.h and net/SocketImpl.cpp: its state, its status, the messages that
-- it makes itself and the way out. `SocketRecv.antt` has the way in. A call that leaves for another
-- part of the program is an `Output`; the outputs are kept in the order of the calls.
use hudp.Common.{
  ℕ, ◌+◌, ◌-◌, Bool, true, false, not, ◌&&◌, ◌||◌, Option, none, some, List, [], ◌∷◌, ◌++◌, ◌==◌,
  if◌then◌else◌, sub16, has,
}
use hudp.Config.{
  mtu, two_msl_time, htf_orderly, htf_reliable, htf_reliable_orderly, hpf_low_pri, hpf_highest_pri,
  hpf_fin, hpf_fin_ack, hpf_rst, hpf_with_reliable_ack, hpf_with_reliable_orderly_ack,
  msg_is_only_ack, msg_wait_2_msl, hec_closed,
}
use hudp.Message.{Msg, new_msg, set_header_flag, set_flag, set_ack, clear_ack}
use hudp.OrderList.{ReliableOrderlyList, ReliableList, OrderlyList}
use hudp.PendAck.{PendAck, get_ack, has_ack}
use hudp.Serializes.{estimate_size}

pub data WndIndex : Type 0 where
  wi_orderly wi_reliable wi_reliable_orderly : WndIndex

pub data SocketStatus : Type 0 where
  ss_close ss_ready ss_fin_wait_1 ss_fin_wait_2 ss_time_wait ss_closing ss_close_wiat ss_last_ack :
      SocketStatus

-- `_sk_status == status`, by the numbers of the enumeration.
abbrev pub status_code : SocketStatus → ℕ
status_code ss_close = 0
status_code ss_ready = 1
status_code ss_fin_wait_1 = 2
status_code ss_fin_wait_2 = 3
status_code ss_time_wait = 4
status_code ss_closing = 5
status_code ss_close_wiat = 6
status_code ss_last_ack = 7

-- The calls to the other parts: the upper layer and the filters, the socket manager, the send
-- windows, the timer, the flow queue with its pacer, and the network.
pub data Output : Type 0 where
  new_connect_to_upper : ℕ → Output
  recv_message_to_upper : ℕ → Output
  resend_back_to_upper : ℕ → Output
  send_back_to_upper : ℕ → Output
  recv_msg_to_filter : ℕ → List ℕ → Output
  release_socket : Output
  push_to_send_wnd : WndIndex → Msg → Output
  get_ack_to_send_wnd : Msg → Output
  add_timer : ℕ → Msg → Output
  flow_queue_add : Msg → Output
  flow_queue_send : Output
  send_message_to_net : Msg → Output

-- The members of `CSocketImpl` that the modelled methods read and write, a null pointer as `none`.
-- The orderly window has no pending acks.
pub record Socket : Type 0 where
  pub sk_status : SocketStatus
  pub recv_orderly : Option OrderlyList
  pub recv_reliable : Option ReliableList
  pub recv_reliable_orderly : Option ReliableOrderlyList
  pub pend_reliable : Option PendAck
  pub pend_reliable_orderly : Option PendAck
  pub is_in_timer : Bool
  pub lost_msg : ℕ
  pub outputs : List Output

-- The constructor.
abbrev pub new_socket : Socket
new_socket = record {
  sk_status = ss_close;
  recv_orderly = none;
  recv_reliable = none;
  recv_reliable_orderly = none;
  pend_reliable = none;
  pend_reliable_orderly = none;
  is_in_timer = false;
  lost_msg = 0;
  outputs = [];
}

abbrev pub emit : Output → Socket → Socket
emit o s = record s { outputs = s.outputs ++ (o ∷ []) }

-- `__msg_length_limit`.
abbrev pub msg_length_limit : ℕ
msg_length_limit = mtu - 8

-- One of the two blocks of `AddAckToMsg`, on the pending acks of one window.
unfoldable pub take_acks : ℕ → Option PendAck → Msg → Option PendAck × Msg × Bool
take_acks kind none m = (none, m, false)
take_acks kind (some p) m =
    let (rest, acks, times, continuity, done) =
      get_ack [] [] false (sub16 msg_length_limit (estimate_size m)) p in
    if has_ack p
    then (some rest, set_ack kind acks times continuity m, true)
    else (some p, m, false)

-- `AddAckToMsg`: the socket, the message with the acks, and whether there were any.
unfoldable pub add_ack_to_msg : Msg → Socket → Socket × Msg × Bool
unfolding take_acks
add_ack_to_msg m s =
    let (po, m1, ret1) =
      take_acks hpf_with_reliable_orderly_ack s.pend_reliable_orderly (clear_ack m) in
    let (pr, m2, ret2) = take_acks hpf_with_reliable_ack s.pend_reliable m1 in
    (record s { pend_reliable_orderly = po; pend_reliable = pr }, m2, ret1 || ret2)

-- `SendPacingMsg`; `__use_fq_and_pacing` is true. A message that is only an ack goes to the
-- network at once.
unfoldable pub send_pacing_msg : Msg → Bool → Socket → Socket
send_pacing_msg m add_fq s =
    if has m.flag msg_is_only_ack
    then emit (send_message_to_net m) s
    else emit flow_queue_send (if add_fq then emit (flow_queue_add m) s else s)

unfoldable pub send_message : Msg → Socket → Socket
unfolding add_ack_to_msg send_pacing_msg
send_message m s =
    let flag = m.head.flag in
    let (with_ack, m', ret) = add_ack_to_msg m s in
    if has flag htf_orderly
    then emit (push_to_send_wnd wi_orderly m) s
    else if has flag htf_reliable
    then emit (push_to_send_wnd wi_reliable m) s
    else if has flag htf_reliable_orderly
    then emit (push_to_send_wnd wi_reliable_orderly m) s
    else send_pacing_msg m' true with_ack

-- The assignment `_sk_status = status` of `StatusChange`, behind its guard.
abbrev pub move_if : Bool → SocketStatus → Socket → Socket
move_if allowed status s = if allowed then record s { sk_status = status } else s

abbrev pub is_status : SocketStatus → Socket → Bool
is_status status s = status_code s.sk_status == status_code status

-- `StatusChange`. A change to SS_CLOSE releases the socket and leaves its status alone.
unfoldable pub status_change : SocketStatus → Socket → Socket
status_change ss_close s = emit release_socket s
status_change ss_ready s = move_if (is_status ss_close s) ss_ready s
status_change ss_fin_wait_1 s = move_if (is_status ss_ready s) ss_fin_wait_1 s
status_change ss_fin_wait_2 s = move_if (is_status ss_fin_wait_1 s) ss_fin_wait_2 s
status_change ss_time_wait s =
    move_if (is_status ss_fin_wait_2 s || is_status ss_closing s) ss_time_wait s
status_change ss_closing s = move_if (is_status ss_fin_wait_1 s) ss_closing s
status_change ss_close_wiat s = move_if (is_status ss_ready s) ss_close_wiat s
status_change ss_last_ack s = move_if (is_status ss_close_wiat s) ss_last_ack s

-- The message that `SendFinMessage` makes; `__send_all_msg_when_close` is true.
abbrev pub fin_msg : Msg
fin_msg = set_header_flag (htf_reliable_orderly + hpf_low_pri + hpf_fin) new_msg

abbrev pub fin_ack_msg : Msg
fin_ack_msg = set_header_flag (htf_orderly + hpf_highest_pri + hpf_fin_ack) new_msg

abbrev pub rst_msg : Msg
rst_msg = set_header_flag (htf_orderly + hpf_highest_pri + hpf_rst) new_msg

unfoldable pub send_fin_message : Socket → Socket
unfolding status_change send_message
send_fin_message s =
    let next = if is_status ss_ready s then ss_fin_wait_1 else ss_last_ack in
    if not (is_status ss_ready s) && not (is_status ss_close_wiat s)
    then s
    else send_message fin_msg (status_change next (emit (new_connect_to_upper hec_closed) s))

unfoldable pub can_send_message : Socket → Bool
can_send_message s = is_status ss_close s || is_status ss_ready s

unfoldable pub send_fin_ack_message : Socket → Socket
unfolding send_message
send_fin_ack_message s = send_message fin_ack_msg s

unfoldable pub send_reset_msg : Socket → Socket
unfolding send_message
send_reset_msg s = send_message rst_msg s

unfoldable pub wait_2_msl_close : Socket → Socket
wait_2_msl_close s =
    if is_status ss_time_wait s
    then emit (add_timer two_msl_time (set_flag msg_wait_2_msl new_msg)) s
    else s

-- The two halves of `CheckClose`, for a FIN and for a FIN_ACK of the other side.
unfoldable pub check_fin : Socket → Socket
unfolding send_fin_ack_message status_change send_fin_message wait_2_msl_close
check_fin s =
    let t = send_fin_ack_message s in
    if is_status ss_ready t
    then send_fin_message (status_change ss_close_wiat t)
    else if is_status ss_fin_wait_1 t
    then status_change ss_closing t
    else if is_status ss_fin_wait_2 t
    then wait_2_msl_close (status_change ss_time_wait t)
    else t

unfoldable pub check_fin_ack : Socket → Socket
unfolding status_change wait_2_msl_close
check_fin_ack s =
    if is_status ss_last_ack s
    then status_change ss_close s
    else if is_status ss_fin_wait_1 s
    then status_change ss_fin_wait_2 s
    else if is_status ss_closing s
    then wait_2_msl_close (status_change ss_time_wait s)
    else s

unfoldable pub check_close : ℕ → Socket → Socket
unfolding check_fin check_fin_ack
check_close header_flag s =
    if has header_flag hpf_fin
    then check_fin s
    else if has header_flag hpf_fin_ack
    then check_fin_ack s
    else s
