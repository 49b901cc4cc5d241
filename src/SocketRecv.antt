-- ===== src/SocketRecv.antt =====
-- The way in of the socket, net/SocketImpl.cpp: `RecvMessage` and what it calls, and the timer.
-- `TimerOut` changes a shared message; the changed message is the one in the outputs.
mod Tests
pub mod Kept
pub mod Status
pub mod Handshake
pub mod Start
pub mod Answered
use hudp.Common.{
  ℕ, ◌+◌, Bool, true, false, not, ◌&&◌, ◌||◌, some, List, [], ◌∷◌, ◌==◌, if◌then◌else◌, or_make,
  u32, has, is_empty,
}
use hudp.Config.{
  pend_ack_send, htf_orderly, htf_reliable, htf_reliable_orderly, hpf_rst, hpf_with_body,
  hpf_with_reliable_ack, hpf_with_reliable_orderly_ack, msg_is_only_ack, msg_wait_2_msl,
  msg_pacing_send, msg_resend, hec_success, hec_break,
}
use hudp.Message.{Msg, Ptr, Store, new_msg, set_flag, set_ack, add_send_delay}
use hudp.OrderList.{
  new_reliable_orderly, insert, new_reliable, insert_reliable, new_orderly, insert_orderly,
}
use hudp.PendAck.{PendAck, new_pend_ack, add_ack_time}
use hudp.SocketImpl.{
  Socket, WndIndex, wi_orderly, wi_reliable, wi_reliable_orderly, ss_close, ss_ready, ss_time_wait,
  Output, new_connect_to_upper, recv_message_to_upper, resend_back_to_upper, recv_msg_to_filter,
  release_socket, get_ack_to_send_wnd, add_timer, send_message_to_net, emit, is_status,
  add_ack_to_msg, send_pacing_msg, status_change, send_reset_msg, check_close,
}

-- `ToRecv`.
unfoldable pub to_recv : Store → Ptr → Socket → Socket
to_recv store p s =
    if is_empty (store p).body
    then s
    else emit (recv_msg_to_filter (store p).head.flag (store p).body) s

-- The calls of `ToRecv` that one `Insert` makes.
unfoldable pub to_recv_each : Store → List Ptr → Socket → Socket
unfolding to_recv
to_recv_each store [] s = s
to_recv_each store (p ∷ ps) s = to_recv_each store ps (to_recv store p s)

-- `_recv_list[index]->Insert(msg)` with its calls of `ToRecv`, on a list that is made first where
-- there is none; the list starts at the id of the message.
unfoldable pub insert_to_list : WndIndex → Store → Ptr → Socket → Socket × ℕ
unfolding to_recv_each
insert_to_list wi_orderly store p s =
    let l = or_make s.recv_orderly (new_orderly (store p).head.id) in
    let (l', msgs, ret) = insert_orderly store p l in
    (to_recv_each store msgs (record s { recv_orderly = some l' }), ret)
insert_to_list wi_reliable store p s =
    let l = or_make s.recv_reliable (new_reliable (store p).head.id) in
    let (l', msgs, ret) = insert_reliable store p l in
    (to_recv_each store msgs (record s { recv_reliable = some l' }), ret)
insert_to_list wi_reliable_orderly store p s =
    let l = or_make s.recv_reliable_orderly (new_reliable_orderly (store p).head.id) in
    let (l', msgs, ret) = insert store p l in
    (to_recv_each store msgs (record s { recv_reliable_orderly = some l' }), ret)

-- `SendAckNowCallBack`.
unfoldable pub send_ack_now_call_back : Socket → Socket
unfolding add_ack_to_msg send_pacing_msg
send_ack_now_call_back s =
    let ack_msg = set_flag msg_is_only_ack new_msg in
    let (t, m, add_ack) = add_ack_to_msg ack_msg s in
    if not add_ack && has ack_msg.flag msg_is_only_ack then t else send_pacing_msg m true t

-- `AddToPendAck`; `__msg_with_time` is true. The call back is made inside `AddAck`.
unfoldable pub add_to_pend_ack : WndIndex → Msg → Socket → Socket
unfolding send_ack_now_call_back
add_to_pend_ack wi_orderly m s = s
add_to_pend_ack wi_reliable m s =
    let p = or_make s.pend_reliable new_pend_ack in
    let (p', call) = add_ack_time m.head.id m.head.send_time p in
    let t : Socket = record s { pend_reliable = some p' } in
    if call then send_ack_now_call_back t else t
add_to_pend_ack wi_reliable_orderly m s =
    let p = or_make s.pend_reliable_orderly new_pend_ack in
    let (p', call) = add_ack_time m.head.id m.head.send_time p in
    let t : Socket = record s { pend_reliable_orderly = some p' } in
    if call then send_ack_now_call_back t else t

-- The second half of `AddPendAck`.
unfoldable pub start_ack_timer : Socket → Socket
start_ack_timer s =
    if s.is_in_timer
    then s
    else let t = emit (add_timer pend_ack_send (set_flag msg_is_only_ack new_msg)) s in
      record t { is_in_timer = true }

unfoldable pub add_pend_ack : Msg → Socket → Socket
unfolding add_to_pend_ack start_ack_timer
add_pend_ack m s = start_ack_timer (
    if has m.head.flag htf_reliable_orderly
    then add_to_pend_ack wi_reliable_orderly m s
    else if has m.head.flag htf_reliable
    then add_to_pend_ack wi_reliable m s
    else s)

unfoldable pub add_quickly_ack : Msg → Socket → Socket
add_quickly_ack m s =
    let ack_vec = m.head.id ∷ [] in
    let time_vec = m.head.send_time ∷ [] in
    let ack_msg = set_flag msg_is_only_ack new_msg in
    let filled : Msg =
      if has m.head.flag htf_reliable
      then set_ack hpf_with_reliable_ack ack_vec time_vec false ack_msg
      else if has m.head.flag htf_reliable_orderly
      then set_ack hpf_with_reliable_orderly_ack ack_vec time_vec false ack_msg
      else ack_msg in
    emit (send_message_to_net filled) s

abbrev pub is_reliable : WndIndex → Bool
is_reliable wi_orderly = false
is_reliable wi_reliable = true
is_reliable wi_reliable_orderly = true

-- `AddToRecvList` behind the call of `Insert`.
unfoldable pub answer : WndIndex → Msg → Socket → ℕ → Socket
unfolding add_pend_ack add_quickly_ack
answer index m s ret =
    if ret == 2
    then send_reset_msg (emit (recv_message_to_upper hec_break) s)
    else if is_reliable index
    then (if ret == 1 then add_quickly_ack m s else add_pend_ack m s)
    else s

unfoldable pub add_to_recv_list : WndIndex → Store → Ptr → Socket → Socket
unfolding insert_to_list answer
add_to_recv_list index store p s =
    let r = insert_to_list index store p s in answer index (store p) r.0 r.1

-- The part of `RecvMessage` that hands a message to its list; the flag says whether there is one.
unfoldable pub dispatch : Store → Ptr → Socket → Socket × Bool
unfolding add_to_recv_list
dispatch store p s =
    let flag = (store p).head.flag in
    if has flag htf_reliable_orderly
    then (add_to_recv_list wi_reliable_orderly store p s, true)
    else if has flag htf_orderly
    then (add_to_recv_list wi_orderly store p s, true)
    else if has flag htf_reliable
    then (add_to_recv_list wi_reliable store p s, true)
    else (s, false)

-- `RecvMessage` from the dispatch on.
unfoldable pub recv_body : Store → Ptr → Socket → Socket
unfolding dispatch
recv_body store p s =
    let flag = (store p).head.flag in
    let r = dispatch store p s in
    let t = check_close flag r.0 in
    if not r.1 && has flag hpf_with_body then emit (recv_msg_to_filter flag (store p).body) t else t

-- `RecvMessage` on a reset of the other side.
unfoldable pub reset_by_remote : Socket → Socket
reset_by_remote s =
    let t = emit (new_connect_to_upper hec_break) s in
    emit release_socket (record t { sk_status = ss_close })

-- The first block of `RecvMessage`.
unfoldable pub accept : Socket → Socket
unfolding status_change
accept s =
    if is_status ss_close s
    then emit (new_connect_to_upper hec_success) (status_change ss_ready s)
    else s

unfoldable pub recv_message : Store → Ptr → Socket → Socket
unfolding accept reset_by_remote recv_body
recv_message store p s =
    let t = emit (get_ack_to_send_wnd (store p)) (accept s) in
    if is_status ss_time_wait t
    then send_reset_msg t
    else if has (store p).head.flag hpf_rst
    then reset_by_remote t
    else recv_body store p t

-- The block of `TimerOut` before the close; the flag says whether `TimerOut` goes on.
unfoldable pub resend_or_ack : Bool → Msg → Socket → Socket × Msg × Bool
resend_or_ack continue_resend m s =
    let t = emit (resend_back_to_upper m.upper_id) s in
    if has m.flag msg_is_only_ack
    then (record s { is_in_timer = false }, m, true)
    else if continue_resend
    then (
      record t { lost_msg = u32 (t.lost_msg + 1) },
      set_flag msg_resend (add_send_delay m),
      true,
    )
    else (t, m, false)

-- The rest of `TimerOut`.
unfoldable pub close_or_send : Msg → Socket → Socket
unfolding status_change add_ack_to_msg send_pacing_msg
close_or_send m s =
    let (t, m', add_ack) = add_ack_to_msg m s in
    if has m.flag msg_wait_2_msl
    then status_change ss_close s
    else if not add_ack && has m.flag msg_is_only_ack
    then t
    else send_pacing_msg m' true t

unfoldable pub timer_out : Bool → Msg → Socket → Socket
unfolding send_pacing_msg resend_or_ack close_or_send
timer_out continue_resend m s =
    let t = if has m.flag msg_pacing_send then send_pacing_msg m false s else s in
    let (r, m', goes_on) = resend_or_ack continue_resend m t in
    if goes_on then close_or_send m' r else r
