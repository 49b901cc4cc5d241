-- ===== src/Bbr/Cycle.antt =====
-- The modes and the gain cycle of net/controller/bbr/bbr.cpp.
use hudp.Common.{
  ℕ, ◌+◌, ◌*◌, ◌/◌, ◌%◌, Bool, ◌&&◌, ◌||◌, List, [], ◌∷◌, get_or, ltb, leb, ◌==◌, if◌then◌else◌,
  sub64,
}
use hudp.Bbr.Block.{
  Bbr, bbr_startup, bbr_drain, bbr_probe_bw, mode_code, bbr_unit, cycle_len, bbr_high_gain,
  bbr_drain_gain, bbr_cwnd_gain,
}
use hudp.Bbr.Rate.{bbr_max_bw}
use hudp.Bbr.Window.{bbr_target_cwnd}

abbrev pub bbr_pacing_gain : List ℕ
bbr_pacing_gain =
    (bbr_unit * 5 / 4)
    ∷ (bbr_unit * 3 / 4)
    ∷ bbr_unit
    ∷ bbr_unit
    ∷ bbr_unit
    ∷ bbr_unit
    ∷ bbr_unit
    ∷ bbr_unit
    ∷ []

unfoldable pub bbr_advance_cycle_phase : ℕ → Bbr → Bbr
bbr_advance_cycle_phase delivered_mstamp b =
    let idx = (b.cycle_idx + 1) % cycle_len in
    record b {
      cycle_idx = idx;
      cycle_mstamp = delivered_mstamp;
      pacing_gain = if b.lt_use_bw then bbr_unit else get_or bbr_pacing_gain idx 0;
    }

unfoldable pub bbr_reset_startup_mode : Bbr → Bbr
bbr_reset_startup_mode b = record b {
  mode = bbr_startup;
  pacing_gain = bbr_high_gain;
  cwnd_gain = bbr_high_gain;
}

unfoldable pub bbr_reset_probe_bw_mode : ℕ → Bbr → Bbr
unfolding bbr_advance_cycle_phase
bbr_reset_probe_bw_mode delivered_mstamp b = bbr_advance_cycle_phase delivered_mstamp (record b {
  mode = bbr_probe_bw;
  pacing_gain = bbr_unit;
  cwnd_gain = bbr_cwnd_gain;
  cycle_idx = (b.cycle_idx + 1) % cycle_len;
})

unfoldable pub bbr_reset_mode : ℕ → Bbr → Bbr
unfolding bbr_reset_startup_mode bbr_reset_probe_bw_mode
bbr_reset_mode delivered_mstamp b =
    if b.full_bw_reached
    then bbr_reset_probe_bw_mode delivered_mstamp b
    else bbr_reset_startup_mode b

unfoldable pub bbr_is_next_cycle_phase : ℕ → ℕ → ℕ → Bool → Bbr → Bool
unfolding bbr_max_bw bbr_target_cwnd
bbr_is_next_cycle_phase pacing_rate delivered_mstamp inflight loss_pkt b =
    let is_full_length = ltb b.min_rtt_us (sub64 delivered_mstamp b.cycle_mstamp) in
    let bw = bbr_max_bw b in
    if b.pacing_gain == bbr_unit
    then is_full_length
    else if ltb bbr_unit b.pacing_gain
    then is_full_length
      && (loss_pkt || leb (bbr_target_cwnd pacing_rate bw b.pacing_gain b) inflight)
    else is_full_length || leb inflight (bbr_target_cwnd pacing_rate bw bbr_unit b)

unfoldable pub bbr_update_cycle_phase : ℕ → ℕ → ℕ → Bool → Bbr → Bbr
unfolding bbr_is_next_cycle_phase bbr_advance_cycle_phase
bbr_update_cycle_phase pacing_rate delivered_mstamp inflight loss_pkt b =
    if (mode_code b.mode == mode_code bbr_probe_bw)
      && bbr_is_next_cycle_phase pacing_rate delivered_mstamp inflight loss_pkt b
    then bbr_advance_cycle_phase delivered_mstamp b
    else b

-- The first half of `bbr_check_drain`.
unfoldable pub start_drain : Bbr → Bbr
start_drain b =
    if (mode_code b.mode == mode_code bbr_startup) && b.full_bw_reached
    then record b { mode = bbr_drain; pacing_gain = bbr_drain_gain; cwnd_gain = bbr_high_gain }
    else b

unfoldable pub bbr_check_drain : ℕ → ℕ → ℕ → Bbr → Bbr
unfolding start_drain bbr_max_bw bbr_target_cwnd bbr_reset_probe_bw_mode
bbr_check_drain delivered_mstamp pacing_rate inflight b =
    let b' = start_drain b in
    if (mode_code b'.mode == mode_code bbr_drain)
      && leb inflight (bbr_target_cwnd pacing_rate (bbr_max_bw b') bbr_unit b')
    then bbr_reset_probe_bw_mode delivered_mstamp b'
    else b'
