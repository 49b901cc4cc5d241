-- ===== src/Message.antt =====
-- The message of common/MsgImpl.h and common/MsgImpl.cpp. `Head` is its wire header
-- (`Message/MsgHead.antt`). Messages are shared objects of the program: other modules hold a
-- pointer, `Ptr`, into a store of messages.
pub mod MsgHead
use Prim.Native.Nat.{bit_or}
use hudp.Common.{ℕ, ◌+◌, ◌*◌, ◌/◌, u16, u32, Bool, true, false, Option, none, List, []}
use hudp.Common.{has, with_bit, without_bit, if◌then◌else◌, length}
use hudp.Config.{msg_with_out_id, hpf_with_reliable_ack, hpf_with_reliable_orderly_ack}
use hudp.Config.{hpf_msg_with_time_stamp}
use MsgHead.{Head}

-- The members of `CMsgImpl`. The list links `_next` and `_prev` are pointers, which nothing but their
-- accessors reads or writes. `ip_port` is the text of the handle.
pub record Msg : Type 0 where
  pub head : Head
  pub body : List ℕ
  pub ip_port : List ℕ
  pub flag : ℕ
  pub upper_id : ℕ
  pub next : Option ℕ
  pub prev : Option ℕ
  pub time_id : ℕ
  pub backoff_factor : ℕ
  pub socket : Option ℕ

-- A pointer to a message, and the messages that pointers lead to.
abbrev pub Ptr : Type 0
Ptr = ℕ

abbrev pub Store : Type 0
Store = Ptr → Msg

-- The constructor `CMsgImpl()`.
abbrev pub new_msg : Msg
new_msg = record {
  head = MsgHead.empty_head;
  body = [];
  ip_port = [];
  flag = msg_with_out_id;
  upper_id = 0;
  next = none;
  prev = none;
  time_id = 0;
  backoff_factor = 1;
  socket = none;
}

unfoldable pub set_next : Option ℕ → Msg → Msg
set_next msg m = record m { next = msg }

unfoldable pub set_prev : Option ℕ → Msg → Msg
set_prev msg m = record m { prev = msg }

-- `Clear` leaves the links as they are.
unfoldable pub clear : Msg → Msg
clear m = record m {
  flag = msg_with_out_id;
  ip_port = [];
  head = MsgHead.clear m.head;
  socket = none;
  backoff_factor = 1;
  time_id = 0;
  body = [];
  upper_id = 0;
}

unfoldable pub clear_ack : Msg → Msg
clear_ack m = record m { head = MsgHead.clear_ack m.head }

unfoldable pub set_id : ℕ → Msg → Msg
set_id id m = record m {
  flag = without_bit m.flag msg_with_out_id;
  head = MsgHead.set_id id m.head;
}

unfoldable pub get_id : Msg → ℕ
get_id m = m.head.id

-- `_backoff_factor >> 2`.
unfoldable pub add_send_delay : Msg → Msg
add_send_delay m = record m { backoff_factor = m.backoff_factor / 4 }

-- The product of 32-bit words is cut to the 16 bits of the result.
unfoldable pub get_re_send_time : ℕ → Msg → ℕ
get_re_send_time rto m = u16 (u32 (rto * m.backoff_factor))

unfoldable pub set_header_flag : ℕ → Msg → Msg
set_header_flag flag m =
    let h = m.head in record m { head = record h { flag = bit_or h.flag flag } }

-- The source passes one mask of `flag_type` at a time.
unfoldable pub set_flag : ℕ → Msg → Msg
set_flag mask m = record m { flag = with_bit m.flag mask }

unfoldable pub set_body : List ℕ → Msg → Msg
set_body b m = record m { body = b; head = MsgHead.set_body_length (u16 (length b)) m.head }

-- The results of the `Add…` calls are dropped, as in the source.
unfoldable pub set_ack : ℕ → List ℕ → List ℕ → Bool → Msg → Msg
set_ack kind ack_vec time_vec continuity m =
    let r =
      if has kind hpf_with_reliable_ack
      then (MsgHead.add_reliable_ack_time time_vec
          (MsgHead.add_reliable_ack ack_vec continuity m.head).0).0
      else m.head in
    record m {
      head =
          if has kind hpf_with_reliable_orderly_ack
          then (MsgHead.add_reliable_orderly_ack_time time_vec
              (MsgHead.add_reliable_orderly_ack ack_vec continuity r).0).0
          else r;
    }

-- The argument `kind` is not read by the source. A second source of acks overwrites the first;
-- what the caller passed in is kept where a vector is empty.
unfoldable pub get_ack : Msg → List ℕ → List ℕ → List ℕ × List ℕ
get_ack m ack_vec time_vec =
    let (a, t) =
      if has m.head.flag hpf_with_reliable_ack
      then (MsgHead.get_reliable_ack m.head ack_vec, MsgHead.get_reliable_ack_time m.head time_vec)
      else (ack_vec, time_vec) in
    if has m.head.flag hpf_with_reliable_orderly_ack
    then (MsgHead.get_reliable_orderly_ack m.head a, MsgHead.get_reliable_orderly_ack_time m.head t)
    else (a, t)

-- `__msg_with_time` is true.
unfoldable pub set_send_time : ℕ → Msg → Msg
set_send_time time m =
    let h = MsgHead.set_send_time time m.head in
    record m { head = record h { flag = with_bit h.flag hpf_msg_with_time_stamp } }
