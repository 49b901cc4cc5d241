-- ===== src/Bbr/Main.antt =====
-- The constructor and the driving call of net/controller/bbr/bbr.cpp.
use hudp.Common.{ℕ, Bool, true, false}
use hudp.MinMax.{minmax_reset}
use hudp.Bbr.Block.{Bbr}
use hudp.Bbr.Rate.{bbr_bw, bbr_set_pacing_rate}
use hudp.Bbr.Window.{bbr_set_cwnd}
use hudp.Bbr.Cycle.{bbr_reset_startup_mode}
use hudp.Bbr.Model.{bbr_update_model}

-- The members that `bbr_init` leaves alone keep what the memory held before.
unfoldable pub bbr_init : ℕ → Bbr → Bbr
unfolding minmax_reset bbr_reset_startup_mode
bbr_init now memory = bbr_reset_startup_mode (record memory {
  prior_cwnd = 0;
  rtt_cnt = 0;
  next_rtt_delivered = 0;
  probe_rtt_done_stamp = 0;
  probe_rtt_round_done = false;
  min_rtt_us = 0;
  min_rtt_stamp = now;
  bw = minmax_reset 0 0;
  has_seen_rtt = false;
  round_start = false;
  idle_restart = true;
  full_bw_reached = false;
  full_bw = 0;
  full_bw_cnt = 0;
  cycle_mstamp = 0;
  cycle_idx = 0;
})

-- The arguments of one call of `bbr_main`, and the answers of the clock during it.
pub record Ack : Type 0 where
  pub clock : ℕ → ℕ
  pub inflight : ℕ
  pub rrt : ℕ
  pub acked : ℕ
  pub delivered_mstamp : ℕ
  pub delivered : ℕ
  pub lost : ℕ
  pub app_limit : Bool

-- The block, the window and the pacing rate.
unfoldable pub bbr_main : Ack → ℕ → ℕ → Bbr → Bbr × ℕ × ℕ
bbr_main a send_wnd pacing_rate b =
    let (b1, wnd) =
      bbr_update_model a.clock pacing_rate a.inflight a.rrt a.delivered_mstamp a.delivered a.lost
        a.app_limit send_wnd b in
    let bw = bbr_bw b1 in
    let (b2, rate) = bbr_set_pacing_rate a.rrt wnd bw b1.pacing_gain pacing_rate b1 in
    (b2, bbr_set_cwnd rate a.acked bw b2.pacing_gain wnd b2, rate)
