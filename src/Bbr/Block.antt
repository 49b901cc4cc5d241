-- ===== src/Bbr/Block.antt =====
-- The state and the constants of net/controller/bbr/bbr.h.
use hudp.Common.{ℕ, ◌+◌, ◌*◌, ◌/◌, Bool}
use hudp.MinMax.{MinMax}

abbrev pub bw_unit : ℕ
bw_unit = 16777216

abbrev pub bbr_unit : ℕ
bbr_unit = 256

abbrev pub cycle_len : ℕ
cycle_len = 8

abbrev pub bbr_bw_rtts : ℕ
bbr_bw_rtts = cycle_len + 2

abbrev pub bbr_min_rtt_win_sec : ℕ
bbr_min_rtt_win_sec = 10

abbrev pub bbr_probe_rtt_mode_ms : ℕ
bbr_probe_rtt_mode_ms = 200

abbrev pub bbr_min_tso_rate : ℕ
bbr_min_tso_rate = 1200000

abbrev pub bbr_high_gain : ℕ
bbr_high_gain = bbr_unit * 2885 / 1000 + 1

abbrev pub bbr_drain_gain : ℕ
bbr_drain_gain = bbr_unit * 1000 / 2885

abbrev pub bbr_cwnd_gain : ℕ
bbr_cwnd_gain = bbr_unit * 2

abbrev pub bbr_cwnd_min_target : ℕ
bbr_cwnd_min_target = 4

abbrev pub bbr_full_bw_thresh : ℕ
bbr_full_bw_thresh = bbr_unit * 5 / 4

abbrev pub bbr_full_bw_cnt : ℕ
bbr_full_bw_cnt = 3

abbrev pub bbr_lt_intvl_min_rtts : ℕ
bbr_lt_intvl_min_rtts = 4

abbrev pub bbr_lt_loss_thresh : ℕ
bbr_lt_loss_thresh = 50

abbrev pub bbr_lt_bw_ratio : ℕ
bbr_lt_bw_ratio = bbr_unit / 8

abbrev pub bbr_lt_bw_diff : ℕ
bbr_lt_bw_diff = 4000 / 8

abbrev pub bbr_lt_bw_max_rtts : ℕ
bbr_lt_bw_max_rtts = 48

-- Of net/controller/OsCommon.h and net/controller/TcpCommon.h.
abbrev pub usec_per_msec : ℕ
usec_per_msec = 1000

abbrev pub usec_per_sec : ℕ
usec_per_sec = 1000000

abbrev pub tcp_mss_default : ℕ
tcp_mss_default = 536

abbrev pub max_pacing_rate : ℕ
max_pacing_rate = 4294967295

abbrev pub tcp_init_cwnd : ℕ
tcp_init_cwnd = 10

abbrev pub max_send_wnd : ℕ
max_send_wnd = 65535

abbrev pub hz : ℕ
hz = 1000

-- `enum bbr_mode`.
pub data BbrMode : Type 0 where
  bbr_startup bbr_drain bbr_probe_bw bbr_probe_rtt : BbrMode

-- `mode == m`, by the numbers of the enumeration.
abbrev pub mode_code : BbrMode → ℕ
mode_code bbr_startup = 0
mode_code bbr_drain = 1
mode_code bbr_probe_bw = 2
mode_code bbr_probe_rtt = 3

-- The members of `CBbr`, its one-bit fields as Booleans. `packet_conservation` is never used.
pub record Bbr : Type 0 where
  pub min_rtt_us : ℕ
  pub min_rtt_stamp : ℕ
  pub probe_rtt_done_stamp : ℕ
  pub bw : MinMax
  pub rtt_cnt : ℕ
  pub next_rtt_delivered : ℕ
  pub cycle_mstamp : ℕ
  pub mode : BbrMode
  pub round_start : Bool
  pub idle_restart : Bool
  pub probe_rtt_round_done : Bool
  pub lt_is_sampling : Bool
  pub lt_rtt_cnt : ℕ
  pub lt_use_bw : Bool
  pub lt_bw : ℕ
  pub lt_last_delivered : ℕ
  pub lt_last_stamp : ℕ
  pub lt_last_lost : ℕ
  pub pacing_gain : ℕ
  pub cwnd_gain : ℕ
  pub full_bw_reached : Bool
  pub full_bw_cnt : ℕ
  pub cycle_idx : ℕ
  pub has_seen_rtt : Bool
  pub prior_cwnd : ℕ
  pub full_bw : ℕ
