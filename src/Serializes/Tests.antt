-- ===== src/Serializes/Tests.antt =====
-- A message through common/Serializes.cpp and back, after utest/Ut_Serializes.cpp, and the theorems
-- at concrete messages.
use hudp.Common.{ℕ, ◌≡◌, ◌≤◌, ◌<◌, List, [], ◌∷◌, ◌++◌, some, arith, length}
use hudp.Message.{Msg, new_msg}
use hudp.Message.MsgHead.{Head, set_body_length}
use hudp.BitStream.{to_bytes}
use hudp.Serializes.{init_with_buffer, get_serialize_buffer, estimate_size, body_head}
use hudp.Serializes.Encoding.{encode_head, IsSendable}
use hudp.Serializes.Write.{get_serialize_buffer-lem}
use hudp.Serializes.RoundTrip.{IsSendableMsg, init_with_buffer-get_serialize_buffer}
use hudp.Serializes.Size.{estimate_size-exact}
use hudp.Serializes.Malformed.{init_with_buffer-malformed}

-- An id, a send time, a range of three ordered acks, two other acks, times for all, and a body.
abbrev head : Head
head = record {
  flag = 0x01F204;
  id = 1201;
  body_len = 5;
  send_time = 77777;
  ack_reliable_vec = 9 ∷ 4 ∷ [];
  reliable_msg_send_time_vec = 500 ∷ 400 ∷ [];
  ack_reliable_orderly_vec = 30 ∷ 31 ∷ 32 ∷ [];
  reliable_orderly_msg_send_time_vec = 100 ∷ 200 ∷ 300 ∷ [];
}

abbrev message : Msg
message = record new_msg { head = head; body = 104 ∷ 101 ∷ 108 ∷ 108 ∷ 111 ∷ [] }

message-IsSendableMsg : IsSendableMsg message
message-IsSendableMsg = ground arith

message-fits : length (encode_head message.head ++ message.body) ≤ 440
unfolding to_bytes
message-fits = omega arith

init_with_buffer-get_serialize_buffer_example :
    init_with_buffer (get_serialize_buffer message) new_msg
    ≡ some (record new_msg { head = message.head; body = message.body })
init_with_buffer-get_serialize_buffer_example =
    init_with_buffer-get_serialize_buffer message message-IsSendableMsg message-fits

estimate_size-exact_example : estimate_size message ≡ length (get_serialize_buffer message)
estimate_size-exact_example = estimate_size-exact message message-IsSendableMsg message-fits

body_head-IsSendable : IsSendable (body_head message)
unfolding body_head set_body_length
body_head-IsSendable = message-IsSendableMsg.head_in

get_serialize_buffer-lem_example :
    let bytes = encode_head (body_head message) ++ message.body in
    (length bytes ≤ 440 → get_serialize_buffer message ≡ bytes)
    × (440 < length bytes → get_serialize_buffer message ≡ [])
get_serialize_buffer-lem_example =
    get_serialize_buffer-lem message body_head-IsSendable (omega arith)

abbrev short : List ℕ
short = 1 ∷ 2 ∷ []

init_with_buffer-malformed_example :
    (length short < 4 → init_with_buffer short new_msg ≡ some new_msg)
    × (440 < length short → length short < 65536 → init_with_buffer short new_msg ≡ some new_msg)
init_with_buffer-malformed_example = init_with_buffer-malformed short
