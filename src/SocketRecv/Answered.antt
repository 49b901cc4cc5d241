-- ===== src/SocketRecv/Answered.antt =====
-- The answer to a FIN, net/SocketImpl.cpp.
use hudp.Common.{
  ◌≡◌, refl, ap, ◌∙◌, false, not, ◌&&◌, Bool-cases, inl, inr, has, List, [], ◌∷◌, ◌++◌,
  append_assoc,
}
use hudp.Config.{hpf_with_body, hec_closed, two_msl_time, msg_wait_2_msl}
use hudp.Message.{Ptr, Store, new_msg, set_flag, set_header_flag}
use hudp.SocketImpl.{
  Socket, SocketStatus, wi_orderly, wi_reliable_orderly, new_connect_to_upper, add_timer, fin_msg,
  ss_close, ss_ready, ss_fin_wait_1, ss_fin_wait_2, ss_time_wait, ss_closing, ss_close_wiat,
  ss_last_ack, is_status, emit, Output, get_ack_to_send_wnd, push_to_send_wnd, recv_msg_to_filter,
  fin_ack_msg, check_fin, check_close,
}
use hudp.SocketRecv.Kept.{at}
use hudp.SocketRecv.{accept, dispatch, recv_body, recv_message}
use hudp.SocketRecv.Handshake.{IsFin, Adds, before_close}

-- The FIN_ACK of the socket stands directly behind what was put out before.
abbrev pub Answers : List Output → List Output → Type 0
Answers before outputs = Adds (push_to_send_wnd wi_orderly fin_ack_msg) before outputs

check_fin-at : (a : SocketStatus) (s : Socket) → Answers s.outputs (check_fin (at a s)).outputs
unfolding check_fin set_header_flag
check_fin-at ss_close s = ([], refl)
check_fin-at ss_ready s =
    let answer = push_to_send_wnd wi_orderly fin_ack_msg in
    let closed = new_connect_to_upper hec_closed in
    let fin = push_to_send_wnd wi_reliable_orderly fin_msg in
    (
      closed ∷ fin ∷ [],
      append_assoc (s.outputs ++ (answer ∷ [])) (closed ∷ []) (fin ∷ [])
          ∙ append_assoc s.outputs (answer ∷ []) (closed ∷ fin ∷ []),
    )
check_fin-at ss_fin_wait_1 s = ([], refl)
check_fin-at ss_fin_wait_2 s =
    let answer = push_to_send_wnd wi_orderly fin_ack_msg in
    let timer = add_timer two_msl_time (set_flag msg_wait_2_msl new_msg) in
    (timer ∷ [], append_assoc s.outputs (answer ∷ []) (timer ∷ []))
check_fin-at ss_time_wait s = ([], refl)
check_fin-at ss_closing s = ([], refl)
check_fin-at ss_close_wiat s = ([], refl)
check_fin-at ss_last_ack s = ([], refl)

accept-at :
    (a : SocketStatus) (s : Socket)
    → is_status ss_time_wait (at a s) ≡ false
    → is_status ss_time_wait (accept (at a s)) ≡ false
unfolding accept
accept-at ss_close s h = refl
accept-at ss_ready s h = refl
accept-at ss_fin_wait_1 s h = refl
accept-at ss_fin_wait_2 s h = refl
accept-at ss_time_wait s h = h
accept-at ss_closing s h = refl
accept-at ss_close_wiat s h = refl
accept-at ss_last_ack s h = refl

recv_body-Answers :
    (store : Store) (p : Ptr) (s : Socket)
    → IsFin (store p)
    → Answers (dispatch store p s).0.outputs (recv_body store p s).outputs
unfolding recv_body check_close
recv_body-Answers store p s (fin, rst) =
    let r = dispatch store p s in
    let flag = (store p).head.flag in
    let o = recv_msg_to_filter flag (store p).body in
    let (after, h) = check_fin-at r.0.sk_status r.0 in
    elim (Bool-cases (not r.1 && has flag hpf_with_body)) [
      | inl e ↦ (
        after ++ (o ∷ []),
        rw (e, fin)
            (ap (λ l. l ++ (o ∷ [])) h
              ∙ append_assoc r.0.outputs (push_to_send_wnd wi_orderly fin_ack_msg ∷ after)
                  (o ∷ [])),
      )
      | inr e ↦ (after, rw (e, fin) h)
    ]

-- Outside of SS_TIME_WAIT every FIN that is no reset is answered, also one that comes again: a FIN_ACK
-- is put out directly behind all that the socket has put out before, the calls of the receive lists
-- for this message included.
pub recv_message-Answers :
    (store : Store) (p : Ptr) (s : Socket)
    → IsFin (store p)
    → is_status ss_time_wait s ≡ false
    → Answers (before_close store p s) (recv_message store p s).outputs
unfolding recv_message
recv_message-Answers store p s (fin, rst) h =
    let (after, e) =
      recv_body-Answers store p (emit (get_ack_to_send_wnd (store p)) (accept s)) (fin, rst) in
    (after, rw (accept-at s.sk_status s h, rst) e)
