-- ===== src/Bbr/Zeroed.antt =====
-- The block of net/controller/bbr/bbr.h in memory that was all zero before its constructor.
use hudp.Common.{false}
use hudp.MinMax.{minmax_reset}
use hudp.Bbr.Block.{Bbr, bbr_startup}

abbrev pub zeroed : Bbr
zeroed = record {
  min_rtt_us = 0;
  min_rtt_stamp = 0;
  probe_rtt_done_stamp = 0;
  bw = minmax_reset 0 0;
  rtt_cnt = 0;
  next_rtt_delivered = 0;
  cycle_mstamp = 0;
  mode = bbr_startup;
  round_start = false;
  idle_restart = false;
  probe_rtt_round_done = false;
  lt_is_sampling = false;
  lt_rtt_cnt = 0;
  lt_use_bw = false;
  lt_bw = 0;
  lt_last_delivered = 0;
  lt_last_stamp = 0;
  lt_last_lost = 0;
  pacing_gain = 0;
  cwnd_gain = 0;
  full_bw_reached = false;
  full_bw_cnt = 0;
  cycle_idx = 0;
  has_seen_rtt = false;
  prior_cwnd = 0;
  full_bw = 0;
}
