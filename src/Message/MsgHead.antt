-- ===== src/Message/MsgHead.antt =====
-- The message header of common/MsgHead.h and common/MsgHead.cpp. An operation that returns a
-- bool and changes the header returns the header beside it; one that copies a vector out returns
-- what its output argument then holds.
use hudp.Common.{ℕ, Bool, true, false, List, []}
use hudp.Common.{with_bit, without_bit, if◌then◌else◌, is_empty, not}
use hudp.Config.{
  hpf_with_id, hpf_with_body, hpf_with_reliable_ack, hpf_with_reliable_orderly_ack,
  hpf_reliable_ack_range, hpf_reliable_orderly_ack_range, hpf_msg_with_time_stamp,
}

pub record Head : Type 0 where
  pub flag : ℕ
  pub id : ℕ
  pub body_len : ℕ
  pub send_time : ℕ
  pub ack_reliable_vec : List ℕ
  pub reliable_msg_send_time_vec : List ℕ
  pub ack_reliable_orderly_vec : List ℕ
  pub reliable_orderly_msg_send_time_vec : List ℕ

-- The constructor `Head()`.
abbrev pub empty_head : Head
empty_head = record {
  flag = 0;
  id = 0;
  body_len = 0;
  send_time = 0;
  ack_reliable_vec = [];
  reliable_msg_send_time_vec = [];
  ack_reliable_orderly_vec = [];
  reliable_orderly_msg_send_time_vec = [];
}

-- `Clear` keeps the send time.
unfoldable pub clear : Head → Head
clear h = record h {
  flag = 0;
  id = 0;
  body_len = 0;
  ack_reliable_vec = [];
  ack_reliable_orderly_vec = [];
  reliable_msg_send_time_vec = [];
  reliable_orderly_msg_send_time_vec = [];
}

unfoldable pub clear_ack : Head → Head
clear_ack h = record h {
  ack_reliable_vec = [];
  ack_reliable_orderly_vec = [];
  reliable_msg_send_time_vec = [];
  reliable_orderly_msg_send_time_vec = [];
  flag =
      without_bit
        (without_bit
          (without_bit (without_bit h.flag hpf_with_reliable_ack) hpf_with_reliable_orderly_ack)
          hpf_reliable_ack_range)
        hpf_reliable_orderly_ack_range;
}

unfoldable pub set_flag : ℕ → Head → Head
set_flag flag h = record h { flag = flag }

unfoldable pub set_body_length : ℕ → Head → Head
set_body_length length h = record h { body_len = length; flag = with_bit h.flag hpf_with_body }

unfoldable pub set_id : ℕ → Head → Head
set_id id h = record h { id = id; flag = with_bit h.flag hpf_with_id }

unfoldable pub set_send_time : ℕ → Head → Head
set_send_time time h = record h { send_time = time }

unfoldable pub add_reliable_orderly_ack : List ℕ → Bool → Head → Head × Bool
add_reliable_orderly_ack ack_vec continue_range h =
    if not (is_empty h.ack_reliable_orderly_vec)
    then (h, false)
    else if is_empty ack_vec
    then (h, false)
    else (
      record h {
        ack_reliable_orderly_vec = ack_vec;
        flag =
            with_bit
              (if continue_range then with_bit h.flag hpf_reliable_orderly_ack_range else h.flag)
              hpf_with_reliable_orderly_ack;
      },
      true,
    )

unfoldable pub get_reliable_orderly_ack : Head → List ℕ → List ℕ
get_reliable_orderly_ack h ack_vec =
    if is_empty h.ack_reliable_orderly_vec then ack_vec else h.ack_reliable_orderly_vec

unfoldable pub add_reliable_orderly_ack_time : List ℕ → Head → Head × Bool
add_reliable_orderly_ack_time time_vec h =
    if not (is_empty h.reliable_orderly_msg_send_time_vec)
    then (h, false)
    else if is_empty time_vec
    then (h, false)
    else (
      record h {
        reliable_orderly_msg_send_time_vec = time_vec;
        flag = with_bit h.flag hpf_msg_with_time_stamp;
      },
      true,
    )

unfoldable pub get_reliable_orderly_ack_time : Head → List ℕ → List ℕ
get_reliable_orderly_ack_time h time_vec =
    if is_empty h.reliable_orderly_msg_send_time_vec
    then time_vec
    else h.reliable_orderly_msg_send_time_vec

unfoldable pub add_reliable_ack : List ℕ → Bool → Head → Head × Bool
add_reliable_ack ack_vec continue_range h =
    if not (is_empty h.ack_reliable_vec)
    then (h, false)
    else if is_empty ack_vec
    then (h, false)
    else (
      record h {
        ack_reliable_vec = ack_vec;
        flag =
            with_bit (if continue_range then with_bit h.flag hpf_reliable_ack_range else h.flag)
              hpf_with_reliable_ack;
      },
      true,
    )

unfoldable pub get_reliable_ack : Head → List ℕ → List ℕ
get_reliable_ack h ack_vec = if is_empty h.ack_reliable_vec then ack_vec else h.ack_reliable_vec

unfoldable pub add_reliable_ack_time : List ℕ → Head → Head × Bool
add_reliable_ack_time time_vec h =
    if not (is_empty h.reliable_msg_send_time_vec)
    then (h, false)
    else if is_empty time_vec
    then (h, false)
    else (
      record h {
        reliable_msg_send_time_vec = time_vec;
        flag = with_bit h.flag hpf_msg_with_time_stamp;
      },
      true,
    )

unfoldable pub get_reliable_ack_time : Head → List ℕ → List ℕ
get_reliable_ack_time h time_vec =
    if is_empty h.reliable_msg_send_time_vec then time_vec else h.reliable_msg_send_time_vec
