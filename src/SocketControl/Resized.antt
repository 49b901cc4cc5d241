-- ===== src/SocketControl/Resized.antt =====
-- What the controller does to a window and to the pacing rate, net/SocketImpl.cpp.
use hudp.Common.{
  ℕ, ◌≤◌, ◌<◌, ◌≡◌, ◌⊎◌, min, max, refl, sym, subst, ◌∙◌, false, inl, inr, [], Option, some, length,
  ◌==◌, if◌then◌else◌, arith, u16, u32,
}
use hudp.Message.{Msg, Ptr, get_ack}
use hudp.Pacing.{set_pacing_rate, get_pacing_rate}
use hudp.Bbr.Idle.{IsIdle}
use hudp.Bbr.Main.{Ack, bbr_main}
use hudp.Bbr.Stuck.{bbr_main-Idles}
use hudp.SendWnd.{SendWnd, IdMap, change_send_wnd_size}
use hudp.SendWnd.Resize.{change_send_wnd_size-size}
use hudp.SocketImpl.{WndIndex}
use hudp.SocketControl.{Control, wnd_at, lent, return_wnd}
use hudp.SocketControl.Acks.{controller_process, ack_block}
use hudp.SocketControl.Frame.{IsFramed-by}
use hudp.SocketControl.Returned.{wnd_at-IsFramed, wnd_at-eq, return_wnd-Accepts, accept_all-Accepts}

-- The size of a window after `n` acks in one message.
abbrev pub wnd_after : ℕ → ℕ
wnd_after n = if n == 0 then 0 else min (max 4 n) 65535

wnd_after-bound : (n : ℕ) → wnd_after n ≤ 65535
wnd_after-bound n = ground arith

-- What the controller does to the socket when one message acked `n` ids.
pub record Resizes (index : WndIndex) (n : ℕ) (c d : Control) : Type 0 where
  pub idle : IsIdle d.bbr
  pub rate : d.pacing.pacing_rate ≡ c.pacing.pacing_rate
  pub resized : (v : SendWnd) × (wnd_at index d ≡ some v) × (v.send_wnd_size ≡ wnd_after n)
  pub others : (j : WndIndex) → (j ≡ index) ⊎ (wnd_at j d ≡ wnd_at j c)

module _ (begin : IdMap → Option Ptr) where
  pub controller_process-Resizes :
      (stamp now : ℕ) (index : WndIndex) (rtt acked : ℕ) (c : Control)
      → acked < 4294967296
      → IsIdle c.bbr
      → (w : SendWnd) × (wnd_at index c ≡ some w)
      → (d : Control) × (controller_process begin stamp now index rtt acked 0 c ≡ some d)
        × Resizes index acked c d
  unfolding controller_process set_pacing_rate get_pacing_rate
  controller_process-Resizes stamp now index rtt acked c word s (w, e) =
      let ack : Ack = record {
        clock = λ n. stamp;
        inflight = c.in_flight;
        rrt = rtt;
        acked = acked;
        delivered_mstamp = stamp;
        delivered = 0;
        lost = c.socket.lost_msg;
        app_limit = false;
      } in
      let i = bbr_main-Idles ack c.pacing.pacing_rate c.bbr word s in
      let r = bbr_main ack 0 c.pacing.pacing_rate c.bbr in
      let d : Control = record c { bbr = r.0; socket = record (c.socket) { lost_msg = 0 } } in
      let v = change_send_wnd_size begin (u16 r.1) (lent w d) in
      let (a, put) = return_wnd-Accepts stamp now index v d in
      let out = return_wnd stamp now index v d in
      let fin : Control = record out { pacing = set_pacing_rate r.2 out.pacing } in
      let f = IsFramed-by out fin refl (i.same_rate ∙ sym a.rate_kept) refl refl refl in
      let narrow : u16 r.1 ≡ r.1 = omega (arith, i.window, wnd_after-bound acked) in
      (
        fin,
        rw (controller_process, e) refl,
        record {
          idle = subst IsIdle (sym a.bbr_kept) i.idle;
          rate = i.same_rate;
          resized = (
            v,
            wnd_at-IsFramed index out fin f ∙ put,
            change_send_wnd_size-size begin (u16 r.1) (lent w d) ∙ narrow ∙ i.window,
          );
          others = λ j. elim (a.others_kept j) [
            | inl h ↦ inl h
            | inr h ↦ inr (wnd_at-IsFramed j out fin f ∙ h ∙ wnd_at-eq j c d refl refl refl)
          ];
        },
      )

  pub ack_block-Resizes :
      (stamp now : ℕ) (index : WndIndex) (m : Msg) (rtt_time : ℕ) (c : Control)
      → (let (ids, times) = get_ack m [] [] in (length ids ≤ length times) × (length ids ≤ 65535))
      → IsIdle c.bbr
      → (w : SendWnd) × (wnd_at index c ≡ some w)
      → (d : Control) × (ack_block begin stamp now index m rtt_time c ≡ some d)
        × Resizes index (length (get_ack m [] []).0) c d
  unfolding ack_block
  ack_block-Resizes stamp now index m rtt_time c h s w =
      let (ids, times) = get_ack m [] [] in
      let (c1, e, a) = accept_all-Accepts begin stamp now index ids times c h w in
      let (d, f, r) =
        controller_process-Resizes stamp now index (u32 rtt_time) (length ids) c1
          (omega (arith, h.1)) (subst IsIdle (sym a.bbr_kept) s) a.there in
      (
        d,
        rw (ack_block, e, f) refl,
        record {
          idle = r.idle;
          rate = r.rate ∙ a.rate_kept;
          resized = r.resized;
          others = λ j. elim (r.others j) [
            | inl k ↦ inl k
            | inr k ↦ elim (a.others_kept j) [ inl n ↦ inl n | inr n ↦ inr (k ∙ n) ]
          ];
        },
      )
