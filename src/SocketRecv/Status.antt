-- ===== src/SocketRecv/Status.antt =====
-- The status that `RecvMessage` of net/SocketImpl.cpp leaves, as a table, and the two ways in which
-- a connection closes.
use hudp.Common.{
  ◌≡◌, refl, ap, subst, ℕ, ◌==◌, if◌then◌else◌, ◌∙◌, Bool, true, false, Bool-cases, inl, inr, has,
}
use hudp.Config.{hpf_rst, hpf_fin, hpf_fin_ack}
use hudp.Message.{Ptr, Store, set_header_flag}
use hudp.SocketImpl.{
  Socket, SocketStatus, ss_close, ss_ready, ss_fin_wait_1, ss_fin_wait_2, ss_time_wait, ss_closing,
  ss_close_wiat, ss_last_ack, is_status, emit, get_ack_to_send_wnd, check_fin, check_fin_ack,
  check_close, status_code,
}
use hudp.SocketRecv.Kept.{at}
use hudp.SocketRecv.{accept, dispatch, reset_by_remote, recv_message}
use hudp.SocketRecv.Kept.{dispatch-status, recv_body-status, send_reset-status}

-- What a FIN of the other side does to the status.
abbrev pub after_fin : SocketStatus → SocketStatus
after_fin ss_ready = ss_last_ack
after_fin ss_fin_wait_1 = ss_closing
after_fin ss_fin_wait_2 = ss_time_wait
after_fin ss_close = ss_close
after_fin ss_time_wait = ss_time_wait
after_fin ss_closing = ss_closing
after_fin ss_close_wiat = ss_close_wiat
after_fin ss_last_ack = ss_last_ack

-- What a FIN_ACK does to it.
abbrev pub after_fin_ack : SocketStatus → SocketStatus
after_fin_ack ss_fin_wait_1 = ss_fin_wait_2
after_fin_ack ss_closing = ss_time_wait
after_fin_ack ss_ready = ss_ready
after_fin_ack ss_fin_wait_2 = ss_fin_wait_2
after_fin_ack ss_close = ss_close
after_fin_ack ss_time_wait = ss_time_wait
after_fin_ack ss_close_wiat = ss_close_wiat
after_fin_ack ss_last_ack = ss_last_ack

-- The first message opens the connection.
abbrev pub opened : SocketStatus → SocketStatus
opened ss_close = ss_ready
opened ss_ready = ss_ready
opened ss_fin_wait_1 = ss_fin_wait_1
opened ss_fin_wait_2 = ss_fin_wait_2
opened ss_time_wait = ss_time_wait
opened ss_closing = ss_closing
opened ss_close_wiat = ss_close_wiat
opened ss_last_ack = ss_last_ack

-- The status after a message with the three flags FIN, FIN_ACK and RST.
abbrev pub by_flags : Bool → Bool → Bool → SocketStatus → SocketStatus
by_flags fin fin_ack true a = ss_close
by_flags true fin_ack false a = after_fin a
by_flags false true false a = after_fin_ack a
by_flags false false false a = a

-- A socket that waits for the last messages to die out does not look at flags.
abbrev pub next_status : Bool → Bool → Bool → SocketStatus → SocketStatus
next_status fin fin_ack rst a =
    let b = opened a in if status_code b == 4 then b else by_flags fin fin_ack rst b

check_fin-at : (a : SocketStatus) (s : Socket) → (check_fin (at a s)).sk_status ≡ after_fin a
unfolding check_fin set_header_flag
check_fin-at ss_close s = refl
check_fin-at ss_ready s = refl
check_fin-at ss_fin_wait_1 s = refl
check_fin-at ss_fin_wait_2 s = refl
check_fin-at ss_time_wait s = refl
check_fin-at ss_closing s = refl
check_fin-at ss_close_wiat s = refl
check_fin-at ss_last_ack s = refl

check_fin_ack-at :
    (a : SocketStatus) (s : Socket) → (check_fin_ack (at a s)).sk_status ≡ after_fin_ack a
unfolding check_fin_ack
check_fin_ack-at ss_close s = refl
check_fin_ack-at ss_ready s = refl
check_fin_ack-at ss_fin_wait_1 s = refl
check_fin_ack-at ss_fin_wait_2 s = refl
check_fin_ack-at ss_time_wait s = refl
check_fin_ack-at ss_closing s = refl
check_fin_ack-at ss_close_wiat s = refl
check_fin_ack-at ss_last_ack s = refl

accept-at : (a : SocketStatus) (s : Socket) → (accept (at a s)).sk_status ≡ opened a
unfolding accept
accept-at ss_close s = refl
accept-at ss_ready s = refl
accept-at ss_fin_wait_1 s = refl
accept-at ss_fin_wait_2 s = refl
accept-at ss_time_wait s = refl
accept-at ss_closing s = refl
accept-at ss_close_wiat s = refl
accept-at ss_last_ack s = refl

check_close-status :
    (flag : ℕ) (s : Socket)
    → (check_close flag s).sk_status
      ≡ by_flags (has flag hpf_fin) (has flag hpf_fin_ack) false s.sk_status
unfolding check_close
check_close-status flag s = elim (Bool-cases (has flag hpf_fin)) [
  | inl e ↦ rw e (check_fin-at s.sk_status s)
  | inr e ↦ rw e (elim (Bool-cases (has flag hpf_fin_ack)) [
    | inl f ↦ rw f (check_fin_ack-at s.sk_status s)
    | inr f ↦ rw f refl
  ])
]

-- The status after a message, for every socket and every message: the first message opens the
-- connection; a socket in SS_TIME_WAIT keeps its status; a reset closes; a FIN makes SS_READY to
-- SS_LAST_ACK, SS_FIN_WAIT_1 to SS_CLOSING and SS_FIN_WAIT_2 to SS_TIME_WAIT; a FIN_ACK without a
-- FIN makes SS_FIN_WAIT_1 to SS_FIN_WAIT_2 and SS_CLOSING to SS_TIME_WAIT; nothing else changes it,
-- whatever the receive lists and the pending acks hold. So a FIN_ACK leaves SS_LAST_ACK as it is, where
-- common/CommonFlag.h has SS_CLOSE.
pub recv_message-status :
    (store : Store) (p : Ptr) (s : Socket)
    → let flag = (store p).head.flag in
      (recv_message store p s).sk_status
      ≡ next_status (has flag hpf_fin) (has flag hpf_fin_ack) (has flag hpf_rst) s.sk_status
unfolding recv_message reset_by_remote
recv_message-status store p s =
    let t = emit (get_ack_to_send_wnd (store p)) (accept s) in
    let flag = (store p).head.flag in
    let h : t.sk_status ≡ opened s.sk_status = accept-at s.sk_status s in
    elim (Bool-cases (is_status ss_time_wait t)) [
      | inl e ↦
          let f = subst (λ b. (status_code b == 4) ≡ true) h e in
          rw (e, f) (send_reset-status t ∙ h)
      | inr e ↦
          let f = subst (λ b. (status_code b == 4) ≡ false) h e in
          rw (e, f)
            (elim (Bool-cases (has flag hpf_rst)) [
              | inl r ↦ rw r refl
              | inr r ↦ rw r (
                  recv_body-status store p t
                  ∙ check_close-status flag (dispatch store p t).0
                  ∙ ap (by_flags (has flag hpf_fin) (has flag hpf_fin_ack) false)
                      (dispatch-status store p t ∙ h))
            ])
    ]
