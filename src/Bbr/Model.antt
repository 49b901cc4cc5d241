-- ===== src/Bbr/Model.antt =====
-- What an ack updates, net/controller/bbr/bbr.cpp.
use hudp.Common.{
  ℕ, ◌+◌, ◌*◌, ◌/◌, ◌%◌, max, Bool, true, false, ◌&&◌, ◌||◌, not, ltb, leb, ◌==◌, if◌then◌else◌,
  u32, u64,
}
use hudp.MinMax.{minmax_running_max}
use hudp.Bbr.Block.{
  Bbr, bbr_probe_rtt, mode_code, bw_unit, bbr_unit, bbr_bw_rtts, bbr_min_rtt_win_sec,
  bbr_probe_rtt_mode_ms, bbr_cwnd_min_target, bbr_full_bw_thresh, bbr_full_bw_cnt, hz,
}
use hudp.Bbr.Rate.{bbr_max_bw}
use hudp.Bbr.Window.{bbr_save_cwnd}
use hudp.Bbr.Cycle.{bbr_reset_mode, bbr_update_cycle_phase, bbr_check_drain}
use hudp.Bbr.LongTerm.{bbr_lt_bw_sampling}

-- The block of `bbr_update_bw` that starts a round.
unfoldable pub start_round : ℕ → Bbr → Bbr
start_round delivered b =
    if ltb 1000 b.rtt_cnt
    then record b {
      next_rtt_delivered = delivered;
      rtt_cnt = u32 (b.rtt_cnt + 1);
      round_start = true;
    }
    else b

-- The rest of it, on the block after the long-term samples.
unfoldable pub add_sample : ℕ → ℕ → Bool → Bbr → Bbr
unfolding bbr_max_bw minmax_running_max
add_sample rrt delivered app_limit b =
    let cur_bw = u32 (delivered * bw_unit) / rrt in
    if not app_limit || leb (bbr_max_bw b) cur_bw
    then record b { bw = minmax_running_max bbr_bw_rtts b.rtt_cnt cur_bw b.bw }
    else b

-- `delivered < 0` never holds of an unsigned word.
unfoldable pub bbr_update_bw : ℕ → ℕ → ℕ → ℕ → Bool → Bbr → Bbr
unfolding start_round bbr_lt_bw_sampling add_sample
bbr_update_bw rrt delivered_mstamp delivered lost app_limit b =
    let b : Bbr = record b { round_start = false } in
    if rrt == 0
    then b
    else add_sample rrt delivered app_limit
        (bbr_lt_bw_sampling delivered_mstamp delivered lost app_limit (start_round delivered b))

unfoldable pub bbr_check_full_bw_reached : Bool → Bbr → Bbr
unfolding bbr_max_bw
bbr_check_full_bw_reached app_limit b =
    let bw_thresh = u32 (u64 (b.full_bw * bbr_full_bw_thresh) / 256) in
    let cnt = (b.full_bw_cnt + 1) % 4 in
    if b.full_bw_reached || not b.round_start || app_limit
    then b
    else if leb bw_thresh (bbr_max_bw b)
    then record b { full_bw = bbr_max_bw b; full_bw_cnt = 0 }
    else record b { full_bw_cnt = cnt; full_bw_reached = leb bbr_full_bw_cnt cnt }

-- The block and the window.
unfoldable pub bbr_check_probe_rtt_done : (ℕ → ℕ) → ℕ → ℕ → Bbr → Bbr × ℕ
unfolding bbr_reset_mode
bbr_check_probe_rtt_done clock delivered_mstamp send_wnd b =
    if not (b.probe_rtt_done_stamp == 0) && ltb (clock 3) b.probe_rtt_done_stamp
    then (
      bbr_reset_mode delivered_mstamp (record b { min_rtt_stamp = clock 4 }),
      max send_wnd b.prior_cwnd,
    )
    else (b, send_wnd)

-- `filter_expired`.
unfoldable pub is_filter_expired : (ℕ → ℕ) → Bbr → Bool
is_filter_expired clock b = ltb (clock 0) (u64 (b.min_rtt_stamp + bbr_min_rtt_win_sec * hz))

-- The three blocks of `bbr_update_min_rtt`, in their order.
unfoldable pub take_min_rtt : (ℕ → ℕ) → Bool → ℕ → Bbr → Bbr
take_min_rtt clock filter_expired rtt_us b =
    if leb rtt_us b.min_rtt_us || filter_expired
    then record b { min_rtt_us = rtt_us; min_rtt_stamp = clock 1 }
    else b

unfoldable pub enter_probe_rtt : Bool → ℕ → Bbr → Bbr
unfolding bbr_save_cwnd
enter_probe_rtt filter_expired send_wnd b =
    let probing : Bbr = record b {
      mode = bbr_probe_rtt;
      pacing_gain = bbr_unit;
      cwnd_gain = bbr_unit;
    } in
    let saved = bbr_save_cwnd send_wnd probing in
    if filter_expired && not b.idle_restart && not (mode_code b.mode == mode_code bbr_probe_rtt)
    then record saved { probe_rtt_done_stamp = 0 }
    else b

unfoldable pub stay_in_probe_rtt : (ℕ → ℕ) → ℕ → ℕ → ℕ → ℕ → Bbr → Bbr × ℕ
unfolding bbr_check_probe_rtt_done
stay_in_probe_rtt clock delivered_mstamp inflight delivered send_wnd b =
    let rounded : Bbr = if b.round_start then record b { probe_rtt_round_done = true } else b in
    if not (mode_code b.mode == mode_code bbr_probe_rtt)
    then (b, send_wnd)
    else if (b.probe_rtt_done_stamp == 0) && leb inflight bbr_cwnd_min_target
    then (
      record b {
        probe_rtt_done_stamp = u64 (clock 2 + bbr_probe_rtt_mode_ms);
        probe_rtt_round_done = false;
        next_rtt_delivered = delivered;
      },
      send_wnd,
    )
    else if not (b.probe_rtt_done_stamp == 0) && rounded.probe_rtt_round_done
    then bbr_check_probe_rtt_done clock delivered_mstamp send_wnd rounded
    else if not (b.probe_rtt_done_stamp == 0)
    then (rounded, send_wnd)
    else (b, send_wnd)

unfoldable pub bbr_update_min_rtt : (ℕ → ℕ) → ℕ → ℕ → ℕ → ℕ → ℕ → Bbr → Bbr × ℕ
unfolding is_filter_expired take_min_rtt enter_probe_rtt stay_in_probe_rtt
bbr_update_min_rtt clock delivered_mstamp inflight delivered rtt_us send_wnd b =
    let expired = is_filter_expired clock b in
    let b' = enter_probe_rtt expired send_wnd (take_min_rtt clock expired rtt_us b) in
    let r = stay_in_probe_rtt clock delivered_mstamp inflight delivered send_wnd b' in
    let last = r.0 in (if ltb 0 delivered then record last { idle_restart = false } else last, r.1)

unfoldable pub bbr_update_model : (ℕ → ℕ) → ℕ → ℕ → ℕ → ℕ → ℕ → ℕ → Bool → ℕ → Bbr → Bbr × ℕ
unfolding bbr_update_bw bbr_update_cycle_phase bbr_check_full_bw_reached bbr_check_drain
    bbr_update_min_rtt
bbr_update_model clock pacing_rate inflight rrt delivered_mstamp delivered lost app_limit send_wnd
      b =
    let b1 = bbr_update_bw rrt delivered_mstamp delivered lost app_limit b in
    let b2 = bbr_update_cycle_phase pacing_rate delivered_mstamp inflight (ltb 0 lost) b1 in
    let b3 = bbr_check_full_bw_reached app_limit b2 in
    let b4 = bbr_check_drain delivered_mstamp pacing_rate inflight b3 in
    bbr_update_min_rtt clock delivered_mstamp inflight delivered rrt send_wnd b4
