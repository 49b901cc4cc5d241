-- ===== src/SocketRecv/Kept.antt =====
-- The calls of net/SocketImpl.cpp that leave the status as it is.
use hudp.Common.{◌≡◌, refl, ◌∙◌, ℕ, List, [], ◌∷◌, arith}
use hudp.Config.{hec_break}
use hudp.Message.{Msg, Ptr, Store, set_header_flag}
use hudp.SocketImpl.{
  Socket, SocketStatus, WndIndex, wi_orderly, wi_reliable, wi_reliable_orderly, emit,
  recv_message_to_upper, check_close, send_reset_msg, check_close,
}
use hudp.SocketRecv.{
  to_recv, to_recv_each, insert_to_list, send_ack_now_call_back, add_to_pend_ack, start_ack_timer,
  add_pend_ack, add_quickly_ack, answer, add_to_recv_list, dispatch, recv_body,
}

-- The socket with another status.
abbrev pub at : SocketStatus → Socket → Socket
at a s = record s { sk_status = a }

to_recv-status :
    (store : Store) (p : Ptr) (s : Socket) → (to_recv store p s).sk_status ≡ s.sk_status
unfolding to_recv
to_recv-status store p s = ground arith

to_recv_each-status :
    (store : Store) (ps : List Ptr) (s : Socket) → (to_recv_each store ps s).sk_status ≡ s.sk_status
unfolding to_recv_each
to_recv_each-status store [] s = refl
to_recv_each-status store (p ∷ ps) s =
    to_recv_each-status store ps (to_recv store p s) ∙ to_recv-status store p s

insert_to_list-status :
    (index : WndIndex) (store : Store) (p : Ptr) (s : Socket)
    → (insert_to_list index store p s).0.sk_status ≡ s.sk_status
unfolding insert_to_list
insert_to_list-status wi_orderly store p s = simp to_recv_each-status
insert_to_list-status wi_reliable store p s = simp to_recv_each-status
insert_to_list-status wi_reliable_orderly store p s = simp to_recv_each-status

send_ack_now-status : (s : Socket) → (send_ack_now_call_back s).sk_status ≡ s.sk_status
unfolding send_ack_now_call_back
send_ack_now-status s = ground arith

add_to_pend_ack-status :
    (index : WndIndex) (m : Msg) (s : Socket) → (add_to_pend_ack index m s).sk_status ≡ s.sk_status
unfolding add_to_pend_ack
add_to_pend_ack-status wi_orderly m s = refl
add_to_pend_ack-status wi_reliable m s = grind (arith, send_ack_now-status)
add_to_pend_ack-status wi_reliable_orderly m s = grind (arith, send_ack_now-status)

start_ack_timer-status : (s : Socket) → (start_ack_timer s).sk_status ≡ s.sk_status
unfolding start_ack_timer
start_ack_timer-status s = ground arith

add_pend_ack-status : (m : Msg) (s : Socket) → (add_pend_ack m s).sk_status ≡ s.sk_status
unfolding add_pend_ack
add_pend_ack-status m s = grind (arith, add_to_pend_ack-status, start_ack_timer-status)

pub send_reset-status : (s : Socket) → (send_reset_msg s).sk_status ≡ s.sk_status
unfolding send_reset_msg set_header_flag
send_reset-status s = refl

quickly-status : (m : Msg) (s : Socket) → (add_quickly_ack m s).sk_status ≡ s.sk_status
unfolding add_quickly_ack
quickly-status m s = refl

answer-status :
    (index : WndIndex) (m : Msg) (s : Socket) (ret : ℕ)
    → (answer index m s ret).sk_status ≡ s.sk_status
unfolding answer
answer-status index m s ret = ground (
  arith,
  send_reset-status (emit (recv_message_to_upper hec_break) s),
  quickly-status m s,
  add_pend_ack-status m s,
)

add_to_recv_list-status :
    (index : WndIndex) (store : Store) (p : Ptr) (s : Socket)
    → (add_to_recv_list index store p s).sk_status ≡ s.sk_status
unfolding add_to_recv_list
add_to_recv_list-status index store p s = grind (arith, answer-status, insert_to_list-status)

pub dispatch-status :
    (store : Store) (p : Ptr) (s : Socket) → (dispatch store p s).0.sk_status ≡ s.sk_status
unfolding dispatch
dispatch-status store p s =
    let lem = λ (index : WndIndex). add_to_recv_list-status index store p s in
    ground (arith, lem wi_reliable_orderly, lem wi_orderly, lem wi_reliable)

pub recv_body-status :
    (store : Store) (p : Ptr) (s : Socket)
    → (recv_body store p s).sk_status
      ≡ (check_close (store p).head.flag (dispatch store p s).0).sk_status
unfolding recv_body
recv_body-status store p s = ground arith
