-- ===== src/Bbr/Stuck.antt =====
-- What the controller of net/controller/bbr/bbr.cpp answers while it is told that nothing was
-- delivered and that the window is 0.
use hudp.Common.{ℕ, ◌≤◌, ◌<◌, ◌≡◌, min, max, refl, ap, ◌∙◌, false, arith, ◌==◌, if◌then◌else◌}
use hudp.MinMax.{MinMax, minmax_get, minmax_reset}
use hudp.Bbr.Block.{Bbr, bbr_startup}
use hudp.Bbr.Rate.{
  bbr_max_bw, bbr_bw, bbr_bw_to_pacing_rate, bbr_rate_bytes_per_sec, bbr_set_pacing_rate,
}
use hudp.Bbr.Window.{bbr_set_cwnd, grow_cwnd, bbr_target_cwnd, bbr_tso_segs_goal, bbr_min_tso_segs}
use hudp.Bbr.Cycle.{bbr_reset_startup_mode}
use hudp.Bbr.Model.{bbr_update_bw, is_filter_expired, take_min_rtt}
use hudp.Bbr.Main.{Ack, bbr_init, bbr_main}
use hudp.Bbr.Starting.{IsStarting}
use hudp.Bbr.Runs.{bbr_update_model-starting, bbr_update_bw-Keeps}
use hudp.Bbr.Reachable.{bbr_init-IsStarting}
use hudp.Bbr.Idle.{
  IsIdle, bbr_update_bw-IsQuiet, bbr_update_min_rtt-idle, take_min_rtt-IsQuiet,
  take_min_rtt-IsStarting,
}

bbr_bw_to_pacing_rate-zero : (gain : ℕ) → bbr_bw_to_pacing_rate 0 gain ≡ 0
unfolding bbr_bw_to_pacing_rate bbr_rate_bytes_per_sec
bbr_bw_to_pacing_rate-zero gain = ground arith

bbr_target_cwnd-bound : (rate gain : ℕ) (b : Bbr) → 4 ≤ bbr_target_cwnd rate 0 gain b
unfolding bbr_target_cwnd bbr_tso_segs_goal bbr_min_tso_segs
bbr_target_cwnd-bound rate gain b = ground arith

bbr_set_cwnd-idle :
    (rate acked gain : ℕ) (b : Bbr)
    → b.mode ≡ bbr_startup
    → b.full_bw_reached ≡ false
    → acked < 4294967296
    → bbr_set_cwnd rate acked 0 gain 0 b ≡ (if acked == 0 then 0 else min (max 4 acked) 65535)
unfolding bbr_set_cwnd grow_cwnd
bbr_set_cwnd-idle rate acked gain b m f w =
    rw (m, f) ground (arith, bbr_target_cwnd-bound rate gain b)

bbr_set_pacing_rate-idle :
    (rtt wnd gain rate : ℕ) (b : Bbr)
    → IsStarting b
    → bbr_set_pacing_rate rtt wnd 0 gain rate b ≡ (b, rate)
unfolding bbr_set_pacing_rate
bbr_set_pacing_rate-idle rtt wnd gain rate b s =
    rw (s.seen, s.full, bbr_bw_to_pacing_rate-zero gain) ground arith

bbr_bw-idle : (b : Bbr) → b.lt_use_bw ≡ false → b.bw.s0.v ≡ 0 → bbr_bw b ≡ 0
unfolding bbr_bw bbr_max_bw minmax_get
bbr_bw-idle b u z = rw u z

-- What one call does to an idle block.
pub record Idles (acked rate : ℕ) (r : Bbr × ℕ × ℕ) : Type 0 where
  pub idle : IsIdle r.0
  pub window : r.1 ≡ (if acked == 0 then 0 else min (max 4 acked) 65535)
  pub same_rate : r.2 ≡ rate

pub bbr_main-Idles :
    (a : Ack) (rate : ℕ) (b : Bbr)
    → a.acked < 4294967296
    → IsIdle b
    → Idles a.acked rate (bbr_main (record a { delivered = 0 }) 0 rate b)
unfolding bbr_main
bbr_main-Idles a rate b w s =
    let a' : Ack = record a { delivered = 0 } in
    let b1 = bbr_update_bw a.rrt a.delivered_mstamp 0 a.lost a.app_limit b in
    let k = bbr_update_bw-Keeps a.rrt a.delivered_mstamp 0 a.lost a.app_limit b s.starting in
    let (q, z) = bbr_update_bw-IsQuiet a.rrt a.delivered_mstamp a.lost a.app_limit b s in
    let startup = k.same_mode ∙ s.startup in
    let x = is_filter_expired a.clock b1 in
    let b2 = take_min_rtt a.clock x a.rrt b1 in
    let (q2, m2, w2) = take_min_rtt-IsQuiet a.clock x a.rrt b1 q in
    let t = take_min_rtt-IsStarting a.clock x a.rrt b1 k.starting in
    let zero = ap (λ (m : MinMax). m.s0.v) w2 ∙ z in
    rw
      (
        bbr_update_model-starting a' 0 rate b s.starting,
        bbr_update_min_rtt-idle a.clock a.delivered_mstamp a.inflight a.rrt 0 b1 startup q,
        bbr_bw-idle b2 q2.1 zero,
        bbr_set_pacing_rate-idle a.rrt 0 b2.pacing_gain rate b2 t,
      )
      (record {
        idle = record {
          starting = t;
          startup = m2 ∙ startup;
          unused = q2.1;
          short = q2.2;
          restart = q2.3;
          zero_bw = zero;
        };
        window = bbr_set_cwnd-idle rate a.acked b2.pacing_gain b2 (m2 ∙ startup) t.full w;
        same_rate = refl;
      })

pub bbr_init-IsIdle :
    (now : ℕ) (memory : Bbr)
    → memory.lt_use_bw ≡ false
    → memory.lt_is_sampling ≡ false
    → IsIdle (bbr_init now memory)
unfolding bbr_init bbr_reset_startup_mode minmax_reset
bbr_init-IsIdle now memory u l = record {
  starting = bbr_init-IsStarting now memory;
  startup = refl;
  unused = u;
  short = λ h. absurd (ground (arith, h, l));
  restart = refl;
  zero_bw = refl;
}
