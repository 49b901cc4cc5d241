-- ===== src/Bbr/Bounds.antt =====
-- Bounds on the send window and the pacing rate of net/controller/bbr/bbr.cpp.
use hudp.Common.{ℕ, ◌*◌, ◌/◌, ◌≤◌, ◌<◌, ◌≡◌, min, arith, u64}
use hudp.Bbr.Block.{Bbr, bbr_probe_rtt}
use hudp.Bbr.Rate.{bbr_rate_bytes_per_sec, bbr_bw_to_pacing_rate}
use hudp.Bbr.Window.{bbr_set_cwnd, grow_cwnd}
use hudp.Bbr.Main.{Ack, bbr_main}

grow_cwnd-bound :
    (rate acked bw gain wnd : ℕ) (b : Bbr) → 0 < acked → 4 ≤ grow_cwnd rate acked bw gain wnd b
unfolding grow_cwnd
grow_cwnd-bound rate acked bw gain wnd b h = ground arith

bbr_set_cwnd-bounds :
    (rate acked bw gain wnd : ℕ) (b : Bbr)
    → let w = bbr_set_cwnd rate acked bw gain wnd b in
      (w ≤ 65535) × (b.mode ≡ bbr_probe_rtt → w ≤ 4) × (0 < acked → 4 ≤ w)
unfolding bbr_set_cwnd
bbr_set_cwnd-bounds rate acked bw gain wnd b = (
  ground arith,
  λ h. ground (arith, h),
  λ h. ground (arith, grow_cwnd-bound rate acked bw gain wnd b h),
)

-- Whatever the controller holds and whatever it is told, the window that it sets is at most 65535;
-- it is at least 4 when a packet was acked, and at most 4 while the round trip is probed.
pub bbr_main-window :
    (a : Ack) (wnd rate : ℕ) (b : Bbr)
    → let r = bbr_main a wnd rate b in
      (r.1 ≤ 65535) × (r.0.mode ≡ bbr_probe_rtt → r.1 ≤ 4) × (0 < a.acked → 4 ≤ r.1)
unfolding bbr_main
bbr_main-window a wnd rate b = bbr_set_cwnd-bounds _ _ _ _ _ _

mul-le : (a b m n : ℕ) → a ≤ m → b ≤ n → a * b ≤ m * n
mul-le a b m n h k = grind arith

-- For every bandwidth of 32 bits and every gain that the controller uses, no product of the pacing
-- rate wraps: the rate is `bw * 536 * gain / 2^8 * 10^6 / 2^24`, cut to 32 bits by its maximum.
pub bbr_bw_to_pacing_rate-exact :
    (bw gain : ℕ)
    → bw < 4294967296
    → gain ≤ 739
    → bbr_bw_to_pacing_rate bw gain ≡ min (bw * 536 * gain / 256 * 1000000 / 16777216) 4294967295
unfolding bbr_bw_to_pacing_rate bbr_rate_bytes_per_sec
bbr_bw_to_pacing_rate-exact bw gain word small =
    let h = mul-le (bw * 536) gain (4294967295 * 536) 739 (omega arith) small in
    let e : u64 (bw * 536) ≡ bw * 536 = omega arith in rw e (ground (arith, h))
