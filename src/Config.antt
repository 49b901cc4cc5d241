-- ===== src/Config.antt =====
-- The constants of hudp/HudpConfig.h, the flag words of include/HudpFlag.h,
-- common/CommonFlag.h and interface/IMsg.h, and __max_id of common/CommonType.h.
use hudp.Common.{ℕ, ◌-◌}

abbrev pub mtu : ℕ
mtu = 440

abbrev pub hudp_header_size : ℕ
hudp_header_size = 40

abbrev pub max_length : ℕ
max_length = 65535

abbrev pub max_compare_num : ℕ
max_compare_num = 100

abbrev pub msg_body_size : ℕ
msg_body_size = mtu - hudp_header_size

abbrev pub pri_surplus : ℕ
pri_surplus = 2

abbrev pub msx_cache_msg_num : ℕ
msx_cache_msg_num = 256

abbrev pub init_send_wnd_size : ℕ
init_send_wnd_size = 6

abbrev pub quick_resend_limit : ℕ
quick_resend_limit = 3

abbrev pub init_mdev_max : ℕ
init_mdev_max = 15

abbrev pub init_cur_rto : ℕ
init_cur_rto = 150

abbrev pub pend_ack_send : ℕ
pend_ack_send = 100

abbrev pub two_msl_time : ℕ
two_msl_time = 30000

abbrev pub timer_empty_wait : ℕ
timer_empty_wait = 60000

abbrev pub defaule_pacing_rate : ℕ
defaule_pacing_rate = 0xFFFF

abbrev pub msg_discard_limit : ℕ
msg_discard_limit = 3

abbrev pub max_id : ℕ
max_id = 0xFFFF

-- hudp_tran_flag
abbrev pub htf_orderly : ℕ
htf_orderly = 0x01

abbrev pub htf_reliable : ℕ
htf_reliable = 0x02

abbrev pub htf_reliable_orderly : ℕ
htf_reliable_orderly = 0x04

abbrev pub htf_normal : ℕ
htf_normal = 0x08

-- hudp_pri_flag
abbrev pub hpf_low_pri : ℕ
hpf_low_pri = 0x10

abbrev pub hpf_nromal_pri : ℕ
hpf_nromal_pri = 0x20

abbrev pub hpf_high_pri : ℕ
hpf_high_pri = 0x40

abbrev pub hpf_highest_pri : ℕ
hpf_highest_pri = 0x80

-- hudp_proto_flag
abbrev pub hpf_reliable_ack_range : ℕ
hpf_reliable_ack_range = 0x000100

abbrev pub hpf_reliable_orderly_ack_range : ℕ
hpf_reliable_orderly_ack_range = 0x000200

abbrev pub hpf_fin : ℕ
hpf_fin = 0x000400

abbrev pub hpf_fin_ack : ℕ
hpf_fin_ack = 0x000800

abbrev pub hpf_with_id : ℕ
hpf_with_id = 0x001000

abbrev pub hpf_with_reliable_ack : ℕ
hpf_with_reliable_ack = 0x002000

abbrev pub hpf_with_reliable_orderly_ack : ℕ
hpf_with_reliable_orderly_ack = 0x004000

abbrev pub hpf_with_body : ℕ
hpf_with_body = 0x008000

abbrev pub hpf_msg_with_time_stamp : ℕ
hpf_msg_with_time_stamp = 0x010000

abbrev pub hpf_rst : ℕ
hpf_rst = 0x020000

abbrev pub hpf_upper : ℕ
hpf_upper = 0x040000

-- flag_type
abbrev pub msg_is_only_ack : ℕ
msg_is_only_ack = 0x0004

abbrev pub msg_with_out_id : ℕ
msg_with_out_id = 0x0008

abbrev pub msg_send : ℕ
msg_send = 0x0010

abbrev pub msg_recv : ℕ
msg_recv = 0x0020

abbrev pub msg_wait_2_msl : ℕ
msg_wait_2_msl = 0x0040

abbrev pub msg_pacing_send : ℕ
msg_pacing_send = 0x0080

abbrev pub msg_resend : ℕ
msg_resend = 0x0100

-- hudp_error_code
abbrev pub hec_success : ℕ
hec_success = 0

abbrev pub hec_closed : ℕ
hec_closed = 1

abbrev pub hec_failed : ℕ
hec_failed = 3

abbrev pub hec_invalid_param : ℕ
hec_invalid_param = 5

abbrev pub hec_break : ℕ
hec_break = 4
