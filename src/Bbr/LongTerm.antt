-- ===== src/Bbr/LongTerm.antt =====
-- The long-term bandwidth samples of net/controller/bbr/bbr.cpp.
use hudp.Common.{
  ℕ, ◌+◌, ◌-◌, ◌*◌, ◌/◌, ◌%◌, Bool, true, false, ◌&&◌, ◌||◌, not, ltb, leb, ◌==◌, if◌then◌else◌,
  u32, u64, sub32, sub64,
}
use hudp.Bbr.Block.{
  Bbr, bbr_probe_bw, mode_code, bw_unit, bbr_unit, bbr_lt_intvl_min_rtts, bbr_lt_loss_thresh,
  bbr_lt_bw_ratio, bbr_lt_bw_diff, bbr_lt_bw_max_rtts, usec_per_msec,
}
use hudp.Bbr.Rate.{bbr_rate_bytes_per_sec}
use hudp.Bbr.Cycle.{bbr_reset_probe_bw_mode}

-- `~0U / USEC_PER_MSEC`.
abbrev pub longest_interval : ℕ
longest_interval = 4294967295 / usec_per_msec

-- `++lt_rtt_cnt`, a field of seven bits.
abbrev pub next_lt_rtt_cnt : Bbr → ℕ
next_lt_rtt_cnt b = (b.lt_rtt_cnt + 1) % 128

unfoldable pub bbr_reset_lt_bw_sampling_interval : ℕ → ℕ → ℕ → Bbr → Bbr
bbr_reset_lt_bw_sampling_interval delivered_mstamp delivered lost b = record b {
  lt_last_stamp = delivered_mstamp / usec_per_msec;
  lt_last_delivered = delivered;
  lt_last_lost = lost;
  lt_rtt_cnt = 0;
}

unfoldable pub bbr_reset_lt_bw_sampling : ℕ → ℕ → ℕ → Bbr → Bbr
unfolding bbr_reset_lt_bw_sampling_interval
bbr_reset_lt_bw_sampling delivered_mstamp delivered lost b =
    bbr_reset_lt_bw_sampling_interval delivered_mstamp delivered lost
      (record b { lt_bw = 0; lt_use_bw = false; lt_is_sampling = false })

-- The test of `bbr_lt_bw_interval_done` for a bandwidth close to that of the interval before.
unfoldable pub is_consistent : ℕ → ℕ → Bool
unfolding bbr_rate_bytes_per_sec
is_consistent bw lt_bw =
    let diff = if ltb lt_bw bw then bw - lt_bw else lt_bw - bw in
    leb (u64 (diff * bbr_unit)) (u64 (bbr_lt_bw_ratio * lt_bw))
    || leb (bbr_rate_bytes_per_sec diff bbr_unit) bbr_lt_bw_diff

unfoldable pub bbr_lt_bw_interval_done : ℕ → ℕ → ℕ → ℕ → Bbr → Bbr
unfolding is_consistent bbr_reset_lt_bw_sampling_interval
bbr_lt_bw_interval_done bw delivered_mstamp delivered lost b =
    if not (b.lt_bw == 0) && is_consistent bw b.lt_bw
    then record b {
      lt_bw = u64 (bw + b.lt_bw) / 2;
      lt_use_bw = true;
      pacing_gain = bbr_unit;
      lt_rtt_cnt = 0;
    }
    else bbr_reset_lt_bw_sampling_interval delivered_mstamp delivered lost (record b { lt_bw = bw })

-- `bbr_lt_bw_sampling` from the point where an interval may end. From here on `lost` and
-- `delivered` are the differences to the start of the interval, also where they are handed on.
unfoldable pub end_interval : ℕ → ℕ → ℕ → Bbr → Bbr
unfolding bbr_lt_bw_interval_done bbr_reset_lt_bw_sampling
end_interval delivered_mstamp delivered lost b =
    let lost = sub32 lost b.lt_last_lost in
    let delivered = sub32 delivered b.lt_last_delivered in
    let t = sub64 (delivered_mstamp / usec_per_msec) b.lt_last_stamp in
    let bw = u32 (delivered * bw_unit) / u64 (t * usec_per_msec) in
    if (delivered == 0) || ltb (u32 (lost * 256)) (u32 (bbr_lt_loss_thresh * delivered))
    then b
    else if ltb t 1
    then b
    else if leb longest_interval t
    then bbr_reset_lt_bw_sampling delivered_mstamp delivered lost b
    else bbr_lt_bw_interval_done bw delivered_mstamp delivered lost b

-- `if (round_start) lt_rtt_cnt++`.
unfoldable pub count_round : Bbr → Bbr
count_round b = if b.round_start then record b { lt_rtt_cnt = next_lt_rtt_cnt b } else b

-- `bbr_lt_bw_sampling` while an interval is sampled.
unfoldable pub sample_interval : ℕ → ℕ → ℕ → Bool → Bbr → Bbr
unfolding count_round end_interval bbr_reset_lt_bw_sampling
sample_interval delivered_mstamp delivered lost is_app_limited b =
    let b' = count_round b in
    if is_app_limited
    then bbr_reset_lt_bw_sampling delivered_mstamp delivered lost b
    else if ltb b'.lt_rtt_cnt bbr_lt_intvl_min_rtts
    then b'
    else if ltb (4 * bbr_lt_intvl_min_rtts) b'.lt_rtt_cnt
    then bbr_reset_lt_bw_sampling delivered_mstamp delivered lost b'
    else if lost == 0
    then b'
    else end_interval delivered_mstamp delivered lost b'

-- `bbr_lt_bw_sampling` while the long-term bandwidth is in use.
unfoldable pub use_lt_bw : ℕ → ℕ → ℕ → Bbr → Bbr
unfolding bbr_reset_lt_bw_sampling bbr_reset_probe_bw_mode
use_lt_bw delivered_mstamp delivered lost b =
    let b' : Bbr = record b { lt_rtt_cnt = next_lt_rtt_cnt b } in
    if (mode_code b.mode == mode_code bbr_probe_bw) && b.round_start
    then (if leb bbr_lt_bw_max_rtts b'.lt_rtt_cnt
        then bbr_reset_probe_bw_mode delivered_mstamp
            (bbr_reset_lt_bw_sampling delivered_mstamp delivered lost b')
        else b')
    else b

unfoldable pub bbr_lt_bw_sampling : ℕ → ℕ → ℕ → Bool → Bbr → Bbr
unfolding use_lt_bw sample_interval bbr_reset_lt_bw_sampling_interval
bbr_lt_bw_sampling delivered_mstamp delivered lost is_app_limited b =
    let started = bbr_reset_lt_bw_sampling_interval delivered_mstamp delivered lost b in
    if b.lt_use_bw
    then use_lt_bw delivered_mstamp delivered lost b
    else if b.lt_is_sampling
    then sample_interval delivered_mstamp delivered lost is_app_limited b
    else if lost == 0
    then b
    else sample_interval delivered_mstamp delivered lost is_app_limited
        (record started { lt_is_sampling = true })
