-- ===== src/SocketControl/Reached.antt =====
-- What a socket of net/SocketImpl.cpp comes to, whatever it sends, receives and waits for.
use hudp.Common.{ℕ, ◌≡◌, ◌∙◌, refl, Bool, false, Option, none, some, []}
use hudp.Config.{}
use hudp.Message.{Msg, Ptr, Store}
use hudp.Rto.{new_rto}
use hudp.Timer.{Timer, new_timer}
use hudp.Pacing.{new_pacing, get_pacing_rate}
use hudp.Bbr.Block.{Bbr}
use hudp.Bbr.Main.{bbr_init}
use hudp.Bbr.Idle.{IsIdle}
use hudp.Bbr.Stuck.{bbr_init-IsIdle}
use hudp.SendWnd.{IdMap}
use hudp.SocketImpl.{Socket, new_socket}
use hudp.SocketControl.{Control, send_message}
use hudp.SocketControl.Acks.{get_ack_to_send_wnd}
use hudp.SocketControl.TimeOut.{time_out, time_out-IsFramed}
use hudp.SocketControl.Keeps.{IsFramed-Keeps, send_message-Keeps, get_ack_to_send_wnd-Keeps}

-- The members of a socket after the constructor. What the memory held before stays in the members of
-- the controller that its constructor leaves alone, and in the rate of the pacer.
abbrev pub new_control : ℕ → ℕ → Bbr → Store → Control
new_control now rate memory store = record {
  socket = new_socket;
  wnd_orderly = none;
  wnd_reliable = none;
  wnd_reliable_orderly = none;
  rto = new_rto;
  in_flight = 0;
  bbr = bbr_init now memory;
  pacing = new_pacing rate;
  flow_queue = record { resend_list = []; normal_list = [] };
  store = store;
  timer = new_timer;
  pacing_timer = new_timer;
}

module _ (begin : IdMap → Option Ptr) where
  -- A socket after its constructor and any number of calls of `SendMessage`, of acks that are taken
  -- in, and of timers that go off; in between the rest of the program may do what it wants to the
  -- messages, the timers, and the members of the socket that `Socket` stands for.
  pub data Reached (rate : ℕ) : Control → Type 0 where
    made :
        (now : ℕ) (memory : Bbr) (store : Store)
        → memory.lt_use_bw ≡ false
        → memory.lt_is_sampling ≡ false
        → Reached rate (new_control now rate memory store)
    sent :
        {c : Control} (first_id stamp now : ℕ) (msg : Ptr)
        → Reached rate c
        → Reached rate (send_message begin first_id stamp now msg c)
    acked :
        {c d : Control} (stamp now : ℕ) (m : Msg)
        → get_ack_to_send_wnd begin stamp now m c ≡ some d
        → Reached rate c
        → Reached rate d
    timed_out :
        {c : Control} (continue_resend : Bool) (stamp now : ℕ) (msg : Ptr)
        → Reached rate c
        → Reached rate (time_out continue_resend stamp now msg c)
    elsewhere :
        {c : Control} (socket : Socket) (store : Store) (timer pacing_timer : Timer)
        → Reached rate c
        → Reached rate (record c {
          socket = socket;
          store = store;
          timer = timer;
          pacing_timer = pacing_timer;
        })

  -- A socket that was made in memory where `lt_use_bw` and `lt_is_sampling` of its controller were not
  -- set, which no constructor writes: however many messages it sends, however many messages with acks it
  -- deals with to the end, and however many timers go off, the rate of its pacer is in the end what
  -- the memory held when it was made, and its controller has no bandwidth and is in its start-up.
  pub Reached-stalled :
      {rate : ℕ} {c : Control} → Reached rate c → IsIdle c.bbr × (get_pacing_rate c.pacing ≡ rate)
  unfolding get_pacing_rate
  Reached-stalled (made now memory store u l) = (bbr_init-IsIdle now memory u l, refl)
  Reached-stalled (sent {c} first_id stamp now msg r) =
      let (i, e) = Reached-stalled r in
      let k = send_message-Keeps begin first_id stamp now msg c in (k.idle i, k.rate ∙ e)
  Reached-stalled (acked {c} {d} stamp now m f r) =
      let (i, e) = Reached-stalled r in
      let (j, q) = get_ack_to_send_wnd-Keeps begin stamp now m c d f i in (j, q ∙ e)
  Reached-stalled (timed_out {c} continue_resend stamp now msg r) =
      let (i, e) = Reached-stalled r in
      let k = IsFramed-Keeps (time_out-IsFramed continue_resend stamp now msg c) in
      (k.idle i, k.rate ∙ e)
  Reached-stalled (elsewhere socket store timer pacing_timer r) = Reached-stalled r
