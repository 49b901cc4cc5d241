-- ===== src/Bbr/Rate.antt =====
-- The pacing rate of net/controller/bbr/bbr.cpp. Products of unsigned words wrap.
use hudp.Common.{ℕ, ◌*◌, ◌/◌, true, ◌&&◌, ◌||◌, not, ltb, ◌==◌, if◌then◌else◌, u32, u64}
use hudp.MinMax.{minmax_get}
use hudp.Bbr.Block.{
  Bbr, bw_unit, bbr_unit, bbr_high_gain, usec_per_msec, usec_per_sec, tcp_mss_default,
  max_pacing_rate,
}

unfoldable pub bbr_max_bw : Bbr → ℕ
unfolding minmax_get
bbr_max_bw b = minmax_get b.bw

unfoldable pub bbr_bw : Bbr → ℕ
unfolding bbr_max_bw
bbr_bw b = if b.lt_use_bw then u32 b.lt_bw else bbr_max_bw b

unfoldable pub bbr_rate_bytes_per_sec : ℕ → ℕ → ℕ
bbr_rate_bytes_per_sec rate gain =
    u64 (u64 (u64 (rate * tcp_mss_default) * gain) / bbr_unit * usec_per_sec) / bw_unit

unfoldable pub bbr_bw_to_pacing_rate : ℕ → ℕ → ℕ
unfolding bbr_rate_bytes_per_sec
bbr_bw_to_pacing_rate bw gain =
    let rate = bbr_rate_bytes_per_sec bw gain in
    u32 (if ltb rate max_pacing_rate then rate else max_pacing_rate)

-- `send_wnd * BW_UNIT` is a product of 32-bit words.
unfoldable pub bbr_init_pacing_rate_from_rtt : ℕ → ℕ → Bbr → Bbr × ℕ
unfolding bbr_bw_to_pacing_rate
bbr_init_pacing_rate_from_rtt rtt send_wnd b =
    let seen = not (rtt == 0) in
    let rtt_us = if seen then (if ltb 1 rtt then rtt else 1) else usec_per_msec in
    let bw = u32 (send_wnd * bw_unit) / rtt_us in
    (
      record b { has_seen_rtt = if seen then true else b.has_seen_rtt },
      bbr_bw_to_pacing_rate bw bbr_high_gain,
    )

unfoldable pub bbr_set_pacing_rate : ℕ → ℕ → ℕ → ℕ → ℕ → Bbr → Bbr × ℕ
unfolding bbr_bw_to_pacing_rate bbr_init_pacing_rate_from_rtt
bbr_set_pacing_rate rtt send_wnd bw gain pacing_rate b =
    let rate = bbr_bw_to_pacing_rate bw gain in
    let r =
      if b.has_seen_rtt && not (rtt == 0)
      then bbr_init_pacing_rate_from_rtt rtt send_wnd b
      else (b, pacing_rate) in
    (r.0, if b.full_bw_reached || ltb r.1 rate then rate else r.1)
