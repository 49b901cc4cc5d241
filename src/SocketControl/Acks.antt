-- ===== src/SocketControl/Acks.antt =====
-- What the acks in a message do to the socket: GetAckToSendWnd and ControllerProcess of
-- net/SocketImpl.cpp.
use hudp.Common.{
  ℕ, false, Option, none, some, List, [], ◌∷◌, if◌then◌else◌, leb, length, u16, u32, sub32, sub64,
  has,
}
use hudp.Config.{hpf_with_reliable_ack, hpf_with_reliable_orderly_ack}
use hudp.Message.{Msg, Ptr, get_ack}
use hudp.Rto.{set_rtt_time}
use hudp.Pacing.{set_pacing_rate, get_pacing_rate}
use hudp.Bbr.Main.{Ack, bbr_main}
use hudp.SendWnd.{SendWnd, IdMap, accept_ack, change_send_wnd_size}
use hudp.SocketImpl.{WndIndex, wi_reliable, wi_reliable_orderly}
use hudp.SocketControl.{Control, wnd_at, lent, return_wnd}

-- `GetRtt`, with both versions of it: the difference is the wrong way round.
unfoldable pub get_rtt : ℕ → ℕ → ℕ
get_rtt stamp time = sub64 time stamp

-- `rtt_time` of the outer scope after the loop for the reliable and orderly acks.
unfoldable pub last_rtt : ℕ → List ℕ → List ℕ → ℕ → ℕ
unfolding get_rtt
last_rtt stamp [] times rtt = rtt
last_rtt stamp (id ∷ ids) [] rtt = rtt
last_rtt stamp (id ∷ ids) (time ∷ times) rtt = last_rtt stamp ids times (get_rtt stamp time)

module _ (begin : IdMap → Option Ptr) where
  -- One round of a loop of `GetAckToSendWnd`.
  unfoldable pub accept_one : ℕ → ℕ → WndIndex → ℕ → ℕ → SendWnd → Control → Control
  unfolding return_wnd get_rtt
  accept_one stamp now index id time w c =
      let (v, ack_msg_size) = accept_ack begin id (lent w c) in
      let d = return_wnd stamp now index v c in
      record d {
        in_flight = sub32 d.in_flight ack_msg_size;
        rto = set_rtt_time (get_rtt stamp time) d.rto;
      }

  -- The rounds of the loop, on the ids and the times; `__msg_with_time` is true.
  unfoldable pub accept_each : ℕ → ℕ → WndIndex → List ℕ → List ℕ → Control → Option Control
  accept_each stamp now index [] times c = some c
  accept_each stamp now index (id ∷ ids) [] c = none
  accept_each stamp now index (id ∷ ids) (time ∷ times) c = elim (wnd_at index c) [
    | none ↦ none
    | some w ↦ accept_each stamp now index ids times (accept_one stamp now index id time w c)
  ]

  -- The loop. Its index has 16 bits: on more than 65535 ids it never ends, which is `none` as well.
  unfoldable pub accept_all : ℕ → ℕ → WndIndex → List ℕ → List ℕ → Control → Option Control
  unfolding accept_each
  accept_all stamp now index ids times c =
      if leb (length ids) 65535 then accept_each stamp now index ids times c else none

  -- `ControllerProcess`. Its two tests of the window are the wrong way round.
  unfoldable pub controller_process : ℕ → ℕ → WndIndex → ℕ → ℕ → ℕ → Control → Option Control
  unfolding return_wnd
  controller_process stamp now index rtt acked delivered c = elim (wnd_at index c) [
    | none ↦ none
    | some w ↦
        let ack : Ack = record {
          clock = λ n. stamp;
          inflight = c.in_flight;
          rrt = rtt;
          acked = acked;
          delivered_mstamp = stamp;
          delivered = delivered;
          lost = c.socket.lost_msg;
          app_limit = false;
        } in
        let (bbr, send_wnd, pacing) = bbr_main ack 0 (get_pacing_rate c.pacing) c.bbr in
        let d : Control = record c { bbr = bbr; socket = record (c.socket) { lost_msg = 0 } } in
        let e =
          return_wnd stamp now index (change_send_wnd_size begin (u16 send_wnd) (lent w d)) d in
        some (record e { pacing = set_pacing_rate pacing e.pacing })
  ]

  -- One of the two blocks of `GetAckToSendWnd`; `rtt_time` is what the outer scope holds after the
  -- loop. The size that the loop declares hides that of the outer scope, which stays 0.
  unfoldable pub ack_block : ℕ → ℕ → WndIndex → Msg → ℕ → Control → Option Control
  unfolding accept_all controller_process
  ack_block stamp now index m rtt_time c =
      let (ids, times) = get_ack m [] [] in
      elim (accept_all stamp now index ids times c) [
        | none ↦ none
        | some d ↦ controller_process stamp now index (u32 rtt_time) (length ids) 0 d
      ]

  -- The time is hidden in the loop of the second block, which passes on that of the first.
  unfoldable pub get_ack_to_send_wnd : ℕ → ℕ → Msg → Control → Option Control
  unfolding ack_block last_rtt
  get_ack_to_send_wnd stamp now m c =
      let (ids, times) = get_ack m [] [] in
      let first = has m.head.flag hpf_with_reliable_orderly_ack in
      let rtt_time = if first then last_rtt stamp ids times 0 else 0 in
      elim (if first then ack_block stamp now wi_reliable_orderly m rtt_time c else some c) [
        | none ↦ none
        | some d ↦
            if has m.head.flag hpf_with_reliable_ack
            then ack_block stamp now wi_reliable m rtt_time d
            else some d
      ]
