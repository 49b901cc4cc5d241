-- ===== src/SocketControl/TimeOut.antt =====
-- The timer of the socket with the flow queue and the pacer, net/SocketImpl.cpp.
use hudp.Common.{ℕ, refl, inl, inr, Bool, true, false, not, ◌&&◌, Bool-cases, has, if◌then◌else◌}
use hudp.Config.{msg_is_only_ack, msg_pacing_send, msg_wait_2_msl}
use hudp.Message.{Ptr}
use hudp.Pacing.{update}
use hudp.SocketImpl.{ss_close, status_change}
use hudp.SocketRecv.{resend_or_ack}
use hudp.SocketControl.{Control, send_pacing_msg, add_ack}
use hudp.SocketControl.Frame.{
  IsFramed, IsFramed-by, IsFramed-trans, send_pacing_msg-IsFramed, add_ack-IsFramed,
}
use hudp.SocketImpl.{add_ack_to_msg}

-- The rest of `TimerOut` behind the block on the resend.
unfoldable pub close_or_send_ptr : ℕ → ℕ → Ptr → Control → Control
unfolding add_ack send_pacing_msg
close_or_send_ptr stamp now msg c =
    let flag = (c.store msg).flag in
    let any = (add_ack_to_msg (c.store msg) c.socket).2 in
    let d = add_ack msg c in
    if has flag msg_wait_2_msl
    then record c { socket = status_change ss_close (c.socket) }
    else if not any && has flag msg_is_only_ack
    then d
    else send_pacing_msg stamp now msg true d

-- `TimerOut` on a shared message. `continue_resend` is what the upper layer answers.
unfoldable pub time_out : Bool → ℕ → ℕ → Ptr → Control → Control
unfolding close_or_send_ptr send_pacing_msg
time_out continue_resend stamp now msg c =
    let t =
      if has (c.store msg).flag msg_pacing_send then send_pacing_msg stamp now msg false c else c in
    let (socket, m, goes_on) = resend_or_ack continue_resend (t.store msg) t.socket in
    let u : Control = record t { socket = socket; store = update msg (λ old. m) t.store } in
    if goes_on then close_or_send_ptr stamp now msg u else u

close_or_send_ptr-IsFramed :
    (stamp now : ℕ) (msg : Ptr) (c : Control) → IsFramed c (close_or_send_ptr stamp now msg c)
unfolding close_or_send_ptr
close_or_send_ptr-IsFramed stamp now msg c =
    let any = (add_ack_to_msg (c.store msg) c.socket).2 in
    let d = add_ack msg c in
    elim (Bool-cases (has (c.store msg).flag msg_wait_2_msl)) [
      | inl e ↦ rw e (IsFramed-by c _ refl refl refl refl refl)
      | inr e ↦ elim (Bool-cases (not any && has (c.store msg).flag msg_is_only_ack)) [
        | inl f ↦ rw (e, f) (add_ack-IsFramed msg c)
        | inr f ↦
            rw (e, f)
              (IsFramed-trans {c = c} {d = d} (add_ack-IsFramed msg c)
                (send_pacing_msg-IsFramed stamp now msg true d))
      ]
    ]

-- The timer changes neither the controller, nor the pacing rate, nor the windows.
pub time_out-IsFramed :
    (continue_resend : Bool) (stamp now : ℕ) (msg : Ptr) (c : Control)
    → IsFramed c (time_out continue_resend stamp now msg c)
unfolding time_out
time_out-IsFramed continue_resend stamp now msg c =
    elim (Bool-cases (has (c.store msg).flag msg_pacing_send)) [
      | inl e ↦
          let t = send_pacing_msg stamp now msg false c in
          rw e (
            IsFramed-trans {c = c} {d = t} (send_pacing_msg-IsFramed stamp now msg false c)
              (rest t))
      | inr e ↦ rw e (rest c)
    ]
  where
    rest :
        (t : Control)
        → let (socket, m, goes_on) = resend_or_ack continue_resend (t.store msg) t.socket in
          let u : Control = record t { socket = socket; store = update msg (λ old. m) t.store } in
          IsFramed t (if goes_on then close_or_send_ptr stamp now msg u else u)
    rest t =
        let (socket, m, goes_on) = resend_or_ack continue_resend (t.store msg) t.socket in
        let u : Control = record t { socket = socket; store = update msg (λ old. m) t.store } in
        let first = IsFramed-by t u refl refl refl refl refl in
        elim (Bool-cases goes_on) [
          | inl e ↦
              rw e
                (IsFramed-trans {c = t} {d = u} first (close_or_send_ptr-IsFramed stamp now msg u))
          | inr e ↦ rw e first
        ]
