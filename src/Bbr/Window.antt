-- ===== src/Bbr/Window.antt =====
-- The size of the send window, net/controller/bbr/bbr.cpp.
use hudp.Common.{ℕ, ◌+◌, ◌-◌, ◌*◌, ◌/◌, ◌%◌, min, max, ◌&&◌, ltb, ◌==◌, if◌then◌else◌, u32, u64}
use hudp.Bbr.Block.{
  Bbr, bbr_probe_bw, bbr_probe_rtt, mode_code, bw_unit, bbr_unit, bbr_min_tso_rate,
  bbr_cwnd_min_target, tcp_mss_default, tcp_init_cwnd, max_send_wnd,
}

unfoldable pub bbr_min_tso_segs : ℕ → ℕ
bbr_min_tso_segs pacing_rate = if ltb pacing_rate (bbr_min_tso_rate / 8) then 1 else 2

unfoldable pub bbr_tso_segs_goal : ℕ → ℕ
unfolding bbr_min_tso_segs
bbr_tso_segs_goal pacing_rate =
    let segs = pacing_rate / 1024 / tcp_mss_default in
    let least = bbr_min_tso_segs pacing_rate in min (if ltb least segs then segs else least) 0x7F

-- `& ~1U` of a 64-bit word: the mask is a 32-bit word, so that the upper half is cleared too.
abbrev pub even_below : ℕ → ℕ
even_below n = u32 n - u32 n % 2

unfoldable pub bbr_target_cwnd : ℕ → ℕ → ℕ → Bbr → ℕ
unfolding bbr_tso_segs_goal
bbr_target_cwnd pacing_rate bw gain b =
    let w = u64 (bw * b.min_rtt_us) in
    let cwnd = u64 (u64 (w * gain) / bbr_unit + bw_unit - 1) / bw_unit in
    let cwnd = u64 (cwnd + 3 * bbr_tso_segs_goal pacing_rate) in
    let cwnd = even_below (u64 (cwnd + 1)) in
    let probes = (mode_code b.mode == mode_code bbr_probe_bw) && ltb bbr_unit gain in
    if b.min_rtt_us == 4294967295 then tcp_init_cwnd else u32 (if probes then cwnd + 2 else cwnd)

-- `bbr_set_cwnd` up to its label `done`.
unfoldable pub grow_cwnd : ℕ → ℕ → ℕ → ℕ → ℕ → Bbr → ℕ
unfolding bbr_target_cwnd
grow_cwnd pacing_rate acked bw gain cwnd b =
    let target_cwnd = bbr_target_cwnd pacing_rate bw gain b in
    let grown = u32 (cwnd + acked) in
    if acked == 0
    then cwnd
    else max bbr_cwnd_min_target (
        if b.full_bw_reached
        then min grown target_cwnd
        else if ltb cwnd target_cwnd
        then grown
        else cwnd)

unfoldable pub bbr_set_cwnd : ℕ → ℕ → ℕ → ℕ → ℕ → Bbr → ℕ
unfolding grow_cwnd
bbr_set_cwnd pacing_rate acked bw gain cwnd b =
    let capped = min (grow_cwnd pacing_rate acked bw gain cwnd b) max_send_wnd in
    if mode_code b.mode == mode_code bbr_probe_rtt then min capped bbr_cwnd_min_target else capped

unfoldable pub bbr_save_cwnd : ℕ → Bbr → Bbr
bbr_save_cwnd send_wnd b = record b {
  prior_cwnd =
      if mode_code b.mode == mode_code bbr_probe_rtt
      then (if ltb send_wnd b.prior_cwnd then b.prior_cwnd else send_wnd)
      else send_wnd;
}
