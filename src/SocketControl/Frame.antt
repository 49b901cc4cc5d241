-- ===== src/SocketControl/Frame.antt =====
-- What the calls of a window on the socket, net/SocketImpl.cpp, leave alone.
use hudp.Common.{
  ℕ, ◌≡◌, refl, ◌∙◌, Bool, true, Bool-cases, inl, inr, List, [], ◌∷◌, Option, none, some, has,
  arith, if◌then◌else◌,
}
use hudp.Config.{msg_is_only_ack, hpf_upper}
use hudp.Message.{Ptr, get_re_send_time, set_send_time}
use hudp.Rto.{get_rto}
use hudp.Timer.{add_timer}
use hudp.FlowQueue.{add, get}
use hudp.Pacing.{Outcome, sent_to_net, deferred, called_back, update}
use hudp.Pacing
use hudp.SendWnd.{Call, to_send, ack_done}
use hudp.SocketControl.{
  Control, is_acked, pacing_call_back, after_pacing, pace, send_pacing_msg, add_ack,
  to_send_handler, ack_done_handler, carry_out,
}

-- The controller, the pacing rate and the windows are the same.
pub record IsFramed (c d : Control) : Type 0 where
  pub same_bbr : d.bbr ≡ c.bbr
  pub same_rate : d.pacing.pacing_rate ≡ c.pacing.pacing_rate
  pub same_orderly : d.wnd_orderly ≡ c.wnd_orderly
  pub same_reliable : d.wnd_reliable ≡ c.wnd_reliable
  pub same_both : d.wnd_reliable_orderly ≡ c.wnd_reliable_orderly

pub IsFramed-refl : (c : Control) → IsFramed c c
IsFramed-refl c = record {
  same_bbr = refl;
  same_rate = refl;
  same_orderly = refl;
  same_reliable = refl;
  same_both = refl;
}

pub IsFramed-trans : {c d e : Control} → IsFramed c d → IsFramed d e → IsFramed c e
IsFramed-trans f g = record {
  same_bbr = g.same_bbr ∙ f.same_bbr;
  same_rate = g.same_rate ∙ f.same_rate;
  same_orderly = g.same_orderly ∙ f.same_orderly;
  same_reliable = g.same_reliable ∙ f.same_reliable;
  same_both = g.same_both ∙ f.same_both;
}

-- A change of other members, after which the parts of the frame are the same by definition.
pub IsFramed-by :
    (c d : Control)
    → d.bbr ≡ c.bbr
    → d.pacing.pacing_rate ≡ c.pacing.pacing_rate
    → d.wnd_orderly ≡ c.wnd_orderly
    → d.wnd_reliable ≡ c.wnd_reliable
    → d.wnd_reliable_orderly ≡ c.wnd_reliable_orderly
    → IsFramed c d
IsFramed-by c d b r o l a = record {
  same_bbr = b;
  same_rate = r;
  same_orderly = o;
  same_reliable = l;
  same_both = a;
}

pacing_call_back-IsFramed : (msg : Ptr) (c : Control) → IsFramed c (pacing_call_back msg c)
unfolding pacing_call_back
pacing_call_back-IsFramed msg c = elim (Bool-cases (is_acked (c.store msg))) [
  | inl e ↦ rw e (IsFramed-by c _ refl refl refl refl refl)
  | inr e ↦ rw e (IsFramed-by c _ refl refl refl refl refl)
]

after_pacing-IsFramed : (msg : Ptr) (o : Outcome) (c : Control) → IsFramed c (after_pacing msg o c)
unfolding after_pacing
after_pacing-IsFramed msg sent_to_net c = (IsFramed-by c _ refl refl refl refl refl)
after_pacing-IsFramed msg deferred c = (IsFramed-by c _ refl refl refl refl refl)
after_pacing-IsFramed msg called_back c = pacing_call_back-IsFramed msg c

send_message-rate :
    (stamp now : ℕ) (msg : Ptr) (c : Control)
    → (Pacing.send_message stamp now msg c.store c.pacing_timer c.pacing).0.pacing_rate
      ≡ c.pacing.pacing_rate
unfolding Pacing.send_message
send_message-rate stamp now msg c = ground arith

pace-IsFramed : (stamp now : ℕ) (msg : Option Ptr) (c : Control) → IsFramed c (pace stamp now msg c)
unfolding pace
pace-IsFramed stamp now none c = (IsFramed-by c _ refl refl refl refl refl)
pace-IsFramed stamp now (some msg) c =
    let r = Pacing.send_message stamp now msg c.store c.pacing_timer c.pacing in
    let d : Control = record c { pacing = r.0; store = r.1; pacing_timer = r.2 } in
    IsFramed-trans {c = c} {d = d}
      (IsFramed-by c d refl (send_message-rate stamp now msg c) refl refl refl)
      (after_pacing-IsFramed msg r.3 d)

pub send_pacing_msg-IsFramed :
    (stamp now : ℕ) (msg : Ptr) (add_fq : Bool) (c : Control)
    → IsFramed c (send_pacing_msg stamp now msg add_fq c)
unfolding send_pacing_msg
send_pacing_msg-IsFramed stamp now msg add_fq c =
    let r = get (if add_fq then add c.store msg c.flow_queue else c.flow_queue) in
    elim (Bool-cases (has (c.store msg).flag msg_is_only_ack)) [
      | inl e ↦ rw e (IsFramed-by c _ refl refl refl refl refl)
      | inr e ↦
          let d : Control = record c { flow_queue = r.0 } in
          rw e (
            IsFramed-trans {c = c} {d = d} (IsFramed-by c d refl refl refl refl refl)
              (pace-IsFramed stamp now r.1 d))
    ]

pub add_ack-IsFramed : (msg : Ptr) (c : Control) → IsFramed c (add_ack msg c)
unfolding add_ack
add_ack-IsFramed msg c = IsFramed-by c _ refl refl refl refl refl

to_send_handler-IsFramed :
    (stamp now : ℕ) (msg : Ptr) (c : Control) → IsFramed c (to_send_handler stamp now msg c)
unfolding to_send_handler
to_send_handler-IsFramed stamp now msg c =
    let (timer, store, at, woken) =
      add_timer now (get_re_send_time (get_rto c.rto) (c.store msg)) msg c.store c.timer in
    let d : Control = record c { timer = timer; store = update msg (set_send_time stamp) store } in
    let e : Control = record c { store = update msg (set_send_time stamp) c.store } in
    elim (Bool-cases (is_acked (c.store msg))) [
      | inl h ↦
          rw h (IsFramed-trans {c = c} {d = d} (IsFramed-by c d refl refl refl refl refl) (sent d))
      | inr h ↦
          rw h (IsFramed-trans {c = c} {d = e} (IsFramed-by c e refl refl refl refl refl) (sent e))
    ]
  where
    sent : (d : Control) → IsFramed d (send_pacing_msg stamp now msg true (add_ack msg d))
    sent d =
        IsFramed-trans (add_ack-IsFramed msg d)
          (send_pacing_msg-IsFramed stamp now msg true (add_ack msg d))

ack_done_handler-IsFramed : (msg : Ptr) (c : Control) → IsFramed c (ack_done_handler msg c)
unfolding ack_done_handler
ack_done_handler-IsFramed msg c = elim (Bool-cases (has (c.store msg).head.flag hpf_upper)) [
  | inl e ↦ rw e (IsFramed-by c _ refl refl refl refl refl)
  | inr e ↦ rw e (IsFramed-by c _ refl refl refl refl refl)
]

pub carry_out-IsFramed :
    (stamp now : ℕ) (calls : List Call) (c : Control) → IsFramed c (carry_out stamp now calls c)
unfolding carry_out
carry_out-IsFramed stamp now [] c = (IsFramed-by c _ refl refl refl refl refl)
carry_out-IsFramed stamp now (to_send msg ∷ calls) c =
    let d = to_send_handler stamp now msg c in
    IsFramed-trans {c = c} {d = d} (to_send_handler-IsFramed stamp now msg c)
      (carry_out-IsFramed stamp now calls d)
carry_out-IsFramed stamp now (ack_done msg ∷ calls) c =
    let d = ack_done_handler msg c in
    IsFramed-trans {c = c} {d = d} (ack_done_handler-IsFramed msg c)
      (carry_out-IsFramed stamp now calls d)
