-- ===== src/SocketRecv/Handshake.antt =====
-- Closing a connection, net/SocketImpl.cpp at both ends.
use hudp.Common.{
  ◌≡◌, refl, ap, ℕ, sym, subst, ◌∙◌, true, false, not, ◌&&◌, Bool-cases, inl, inr, has, List, [],
  ◌∷◌, ◌++◌, append_assoc,
}
use hudp.Config.{hpf_rst, hpf_fin, hpf_fin_ack, hpf_with_body}
use hudp.Message.{Msg, Ptr, Store, set_header_flag}
use hudp.SocketImpl.{
  Socket, SocketStatus, ss_ready, ss_fin_wait_1, ss_fin_wait_2, ss_time_wait, ss_closing,
  ss_last_ack, emit, Output, get_ack_to_send_wnd, recv_msg_to_filter, release_socket,
  send_fin_message, check_fin_ack, check_close,
}
use hudp.SocketRecv.Kept.{at}
use hudp.SocketRecv.{accept, dispatch, recv_body, recv_message}
use hudp.SocketRecv.Kept.{dispatch-status}
use hudp.SocketRecv.Status.{next_status, recv_message-status}

-- A message that says FIN, and one that answers it; neither is a reset.
abbrev pub IsFin : Msg → Type 0
IsFin m = (has m.head.flag hpf_fin ≡ true) × (has m.head.flag hpf_rst ≡ false)

abbrev pub IsFinAck : Msg → Type 0
IsFinAck m =
    (has m.head.flag hpf_fin ≡ false)
    × (has m.head.flag hpf_fin_ack ≡ true)
    × (has m.head.flag hpf_rst ≡ false)

recv_fin :
    (store : Store) (p : Ptr) (s : Socket) (a : SocketStatus)
    → IsFin (store p)
    → s.sk_status ≡ a
    → (recv_message store p s).sk_status
      ≡ next_status true (has (store p).head.flag hpf_fin_ack) false a
recv_fin store p s a (fin, rst) h = recv_message-status store p s ∙ rw (fin, rst, h)

recv_fin_ack :
    (store : Store) (p : Ptr) (s : Socket) (a : SocketStatus)
    → IsFinAck (store p)
    → s.sk_status ≡ a
    → (recv_message store p s).sk_status ≡ next_status false true false a
recv_fin_ack store p s a (fin, ack, rst) h = recv_message-status store p s ∙ rw (fin, ack, rst, h)

send_fin-status :
    (s : Socket) → s.sk_status ≡ ss_ready → (send_fin_message s).sk_status ≡ ss_fin_wait_1
unfolding send_fin_message set_header_flag
send_fin-status s h =
    subst (λ a. (send_fin_message (at a s)).sk_status ≡ ss_fin_wait_1) (sym h) refl

-- When one side of a connection closes it and the other side answers, the side that closes ends in
-- SS_TIME_WAIT, whether the other side's FIN or its FIN_ACK arrives first, and the other side waits
-- for the last FIN_ACK in SS_LAST_ACK; when both sides close at once, both end in SS_TIME_WAIT.
pub close_handshake :
    (store : Store) (fin fin_ack : Ptr) (a b : Socket)
    → IsFin (store fin)
    → IsFinAck (store fin_ack)
    → a.sk_status ≡ ss_ready
    → b.sk_status ≡ ss_ready
    → let closing = send_fin_message a in
      let both = send_fin_message b in
      ((recv_message store fin b).sk_status ≡ ss_last_ack)
      × ((recv_message store fin (recv_message store fin_ack closing)).sk_status ≡ ss_time_wait)
      × ((recv_message store fin_ack (recv_message store fin closing)).sk_status ≡ ss_time_wait)
      × ((recv_message store fin_ack (recv_message store fin both)).sk_status ≡ ss_time_wait)
close_handshake store fin fin_ack a b is_fin is_ack ha hb =
    let crossed : (s : Socket)
        → s.sk_status ≡ ss_ready
        → (recv_message store fin_ack (recv_message store fin (send_fin_message s))).sk_status
          ≡ ss_time_wait =
      λ s h.
        recv_fin_ack store fin_ack _ ss_closing is_ack
          (recv_fin store fin (send_fin_message s) ss_fin_wait_1 is_fin (send_fin-status s h)) in
    (
      recv_fin store fin b ss_ready is_fin hb,
      recv_fin store fin (recv_message store fin_ack (send_fin_message a)) ss_fin_wait_2 is_fin (
          recv_fin_ack store fin_ack (send_fin_message a) ss_fin_wait_1 is_ack
            (send_fin-status a ha)),
      crossed a ha,
      crossed b hb,
    )

fin_ack-outputs :
    (s : Socket)
    → s.sk_status ≡ ss_last_ack
    → (check_fin_ack s).outputs ≡ s.outputs ++ (release_socket ∷ [])
unfolding check_fin_ack
fin_ack-outputs s h =
    subst (λ a. (check_fin_ack (at a s)).outputs ≡ s.outputs ++ (release_socket ∷ [])) (sym h) refl

check_close-outputs :
    (flag : ℕ) (s : Socket)
    → has flag hpf_fin ≡ false
    → has flag hpf_fin_ack ≡ true
    → s.sk_status ≡ ss_last_ack
    → (check_close flag s).outputs ≡ s.outputs ++ (release_socket ∷ [])
unfolding check_close
check_close-outputs flag s fin ack h = rw (fin, ack) (fin_ack-outputs s h)

-- An output stands directly behind those that were there before.
abbrev pub Adds : Output → List Output → List Output → Type 0
Adds o before outputs = (after : List Output) × (outputs ≡ before ++ (o ∷ after))

-- All that the socket has put out when a message has gone through the receive lists.
abbrev pub before_close : Store → Ptr → Socket → List Output
before_close store p s =
    (dispatch store p (emit (get_ack_to_send_wnd (store p)) (accept s))).0.outputs

recv_body-Adds :
    (store : Store) (p : Ptr) (s : Socket)
    → IsFinAck (store p)
    → s.sk_status ≡ ss_last_ack
    → Adds release_socket (dispatch store p s).0.outputs (recv_body store p s).outputs
unfolding recv_body
recv_body-Adds store p s (fin, ack, rst) h =
    let r = dispatch store p s in
    let flag = (store p).head.flag in
    let o = recv_msg_to_filter flag (store p).body in
    let closed = check_close-outputs flag r.0 fin ack (dispatch-status store p s ∙ h) in
    elim (Bool-cases (not r.1 && has flag hpf_with_body)) [
      | inl e ↦ (
        o ∷ [],
        rw e (
            ap (λ l. l ++ (o ∷ [])) closed
            ∙ append_assoc r.0.outputs (release_socket ∷ []) (o ∷ [])),
      )
      | inr e ↦ ([], rw e closed)
    ]

recv-Adds :
    (store : Store) (p : Ptr) (s : Socket)
    → IsFinAck (store p)
    → let t = at ss_last_ack s in
      Adds release_socket (before_close store p t) (recv_message store p t).outputs
unfolding recv_message accept
recv-Adds store p s (fin, ack, rst) =
    let (after, h) =
      recv_body-Adds store p (emit (get_ack_to_send_wnd (store p)) (at ss_last_ack s))
        (fin, ack, rst) refl in
    (after, rw rst h)

-- A socket in SS_LAST_ACK that gets the FIN_ACK it waits for, in a message without FIN and RST, keeps its
-- status and is released: that call comes directly behind all that the socket has put out before, the
-- calls of the receive lists for this message included.
pub last_ack-released :
    (store : Store) (p : Ptr) (s : Socket)
    → IsFinAck (store p)
    → s.sk_status ≡ ss_last_ack
    → ((recv_message store p s).sk_status ≡ ss_last_ack)
      × Adds release_socket (before_close store p s) (recv_message store p s).outputs
last_ack-released store p s is_ack h = (
  recv_fin_ack store p s ss_last_ack is_ack h,
  subst
      (λ a.
        let t = at a s in
        Adds release_socket (before_close store p t) (recv_message store p t).outputs)
      (sym h) (recv-Adds store p s is_ack),
)
