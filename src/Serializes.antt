-- ===== src/Serializes.antt =====
-- The wire format of common/Serializes.cpp, and the two conversions of common/MsgImpl.cpp that use
-- it. A step that the source ends by `return false` is `none`.
pub mod Encoding
pub mod Write
pub mod ReadAcks
pub mod Read
pub mod RoundTrip
pub mod Size
pub mod Malformed
mod Tests
use hudp.Common.{
  ℕ, zero, suc, ◌+◌, ◌*◌, Bool, true, false, Option, none, some, List, [], ◌∷◌, ltb, if◌then◌else◌,
  has, u16, length, take, get_or, ids_from, ◌>>=◌,
}
use hudp.Config.{
  hpf_with_id, hpf_with_body, hpf_with_reliable_ack, hpf_with_reliable_orderly_ack,
  hpf_reliable_ack_range, hpf_reliable_orderly_ack_range, hpf_msg_with_time_stamp,
}
use hudp.Message.MsgHead.{
  Head, set_flag, set_id, set_send_time, set_body_length, add_reliable_ack, add_reliable_ack_time,
  add_reliable_orderly_ack, add_reliable_orderly_ack_time, get_reliable_ack, get_reliable_ack_time,
  get_reliable_orderly_ack, get_reliable_orderly_ack_time,
}
use hudp.Message.{Msg}
use hudp.BitStream.{BitStream, new_stream, init, write, write_word, read, read_word}

-- The loops over a vector. Beyond its end, where the source has no defined behaviour, the result
-- is `none`.
unfoldable pub write_each : ℕ → ℕ → List ℕ → BitStream → Option BitStream
write_each width zero vec s = some s
write_each width (suc n) [] s = none
write_each width (suc n) (v ∷ vec) s = write_word width v s >>= λ s. write_each width n vec s

-- The block of `SerializesHead` for one kind of ack; the source has it twice.
unfoldable pub write_acks : Bool → Bool → List ℕ → List ℕ → BitStream → Option BitStream
unfolding write_each
write_acks range timed ack_vec time_vec s =
    let len = u16 (length ack_vec) in
    (if ltb 0 len
      then (write_word 2 len s >>= λ s.
          if range then write_word 2 (get_or ack_vec 0 0) s else write_each 2 len ack_vec s)
      else some s)
    >>= λ s. if timed then write_each 8 len time_vec s else some s

-- `SerializesHead` behind the flag.
unfoldable pub write_fields : Head → BitStream → Option BitStream
unfolding write_acks
write_fields h s =
    let timed = has h.flag hpf_msg_with_time_stamp in
    (if has h.flag hpf_with_id then write_word 2 h.id s else some s) >>= λ s.
    (if timed then write_word 8 h.send_time s else some s) >>= λ s.
    (if has h.flag hpf_with_reliable_orderly_ack
      then write_acks (has h.flag hpf_reliable_orderly_ack_range) timed
          (get_reliable_orderly_ack h []) (get_reliable_orderly_ack_time h []) s
      else some s)
    >>= λ s.
        (if has h.flag hpf_with_reliable_ack
          then write_acks (has h.flag hpf_reliable_ack_range) timed (get_reliable_ack h [])
              (get_reliable_ack_time h []) s
          else some s)
        >>= λ s. if has h.flag hpf_with_body then write_word 2 h.body_len s else some s

-- The result of writing the flag is not looked at.
unfoldable pub serializes_head : Head → BitStream → Option BitStream
unfolding write_fields
serializes_head h s =
    if ltb 0 s.cur_length
    then none
    else write_fields h (elim (write_word 4 h.flag s) [ none ↦ s | some s' ↦ s' ])

-- The head that `Serializes` leaves in the message.
unfoldable pub body_head : Msg → Head
body_head m =
    let len = u16 (length m.body) in if ltb 0 len then set_body_length len m.head else m.head

unfoldable pub serializes : Msg → BitStream → Msg × Option BitStream
unfolding body_head serializes_head
serializes m s = (
  record m { head = body_head m },
  serializes_head (body_head m) s >>= λ s. write (take (u16 (length m.body)) m.body) s,
)

-- `GetSerializeBuffer`.
unfoldable pub get_serialize_buffer : Msg → List ℕ
unfolding serializes
get_serialize_buffer m = elim (serializes m new_stream).1 [
  | none ↦ []
  | some s ↦ take s.cur_length s.data_buf
]

-- The size of one ack block in `EstimateSize`.
unfoldable pub estimate_acks : Bool → Bool → List ℕ → ℕ
estimate_acks range timed ack_vec =
    let len = u16 (length ack_vec) in
    (if ltb 0 len then 2 + (if range then 2 else 2 * len) else 0) + (if timed then 8 * len else 0)

unfoldable pub estimate_size : Msg → ℕ
unfolding estimate_acks
estimate_size m =
    let h = m.head in
    let timed = has h.flag hpf_msg_with_time_stamp in
    4
    + (if has h.flag hpf_with_id then 2 else 0)
    + (if timed then 8 else 0)
    + (if has h.flag hpf_with_reliable_orderly_ack
        then estimate_acks (has h.flag hpf_reliable_orderly_ack_range) timed
            (get_reliable_orderly_ack h [])
        else 0)
    + (if has h.flag hpf_with_reliable_ack
        then estimate_acks (has h.flag hpf_reliable_ack_range) timed (get_reliable_ack h [])
        else 0)
    + (if has h.flag hpf_with_body then 2 + h.body_len else 0)

unfoldable pub read_each : ℕ → ℕ → BitStream → Option (List ℕ × BitStream)
read_each width zero s = some ([], s)
read_each width (suc n) s =
    read_word width s >>= λ r. read_each width n r.1 >>= λ t. some (r.0 ∷ t.0, t.1)

-- The block of `DeserialiHead` for one kind of ack: the ids and the times that it collects.
unfoldable pub read_acks : Bool → Bool → BitStream → Option ((List ℕ × List ℕ) × BitStream)
unfolding read_each
read_acks range timed s = read_word 2 s >>= λ len.
    (if range
      then (read_word 2 len.1 >>= λ tmp. some (ids_from tmp.0 len.0, tmp.1))
      else read_each 2 len.0 len.1)
    >>= λ acks. (if timed then read_each 8 len.0 acks.1 else some ([], acks.1)) >>= λ times.
        some ((acks.0, times.0), times.1)

-- What the block does to the head.
unfoldable pub put_orderly_acks : Bool → Bool → List ℕ × List ℕ → Head → Head
put_orderly_acks range timed v h =
    let h = (add_reliable_orderly_ack v.0 range h).0 in
    if timed then (add_reliable_orderly_ack_time v.1 h).0 else h

unfoldable pub put_acks : Bool → Bool → List ℕ × List ℕ → Head → Head
put_acks range timed v h =
    let h = (add_reliable_ack v.0 range h).0 in if timed then (add_reliable_ack_time v.1 h).0 else h

-- The five optional blocks of `DeserialiHead`, each on the head so far.
unfoldable pub read_id : ℕ → Head → BitStream → Option (Head × BitStream)
read_id flag p s =
    if has flag hpf_with_id then (read_word 2 s >>= λ r. some (set_id r.0 p, r.1)) else some (p, s)

unfoldable pub read_time : ℕ → Head → BitStream → Option (Head × BitStream)
read_time flag p s =
    if has flag hpf_msg_with_time_stamp
    then (read_word 8 s >>= λ r. some (set_send_time r.0 p, r.1))
    else some (p, s)

unfoldable pub read_orderly_acks : ℕ → Head → BitStream → Option (Head × BitStream)
unfolding read_acks put_orderly_acks
read_orderly_acks flag p s =
    let range = has flag hpf_reliable_orderly_ack_range in
    let timed = has flag hpf_msg_with_time_stamp in
    if has flag hpf_with_reliable_orderly_ack
    then (read_acks range timed s >>= λ r. some (put_orderly_acks range timed r.0 p, r.1))
    else some (p, s)

unfoldable pub read_reliable_acks : ℕ → Head → BitStream → Option (Head × BitStream)
unfolding read_acks put_acks
read_reliable_acks flag p s =
    let range = has flag hpf_reliable_ack_range in
    let timed = has flag hpf_msg_with_time_stamp in
    if has flag hpf_with_reliable_ack
    then (read_acks range timed s >>= λ r. some (put_acks range timed r.0 p, r.1))
    else some (p, s)

unfoldable pub read_body_len : ℕ → Head → BitStream → Option (Head × BitStream)
read_body_len flag p s =
    if has flag hpf_with_body
    then (read_word 2 s >>= λ r. some (set_body_length r.0 p, r.1))
    else some (p, s)

-- `DeserialiHead` behind the flag, on the head with its flag set.
unfoldable pub read_fields : ℕ → Head → BitStream → Option (Head × BitStream)
unfolding read_id read_time read_orderly_acks read_reliable_acks read_body_len
read_fields flag h s = read_id flag h s >>= λ p. read_time flag p.0 p.1 >>= λ p.
    read_orderly_acks flag p.0 p.1 >>= λ p.
    read_reliable_acks flag p.0 p.1 >>= λ p. read_body_len flag p.0 p.1

-- The result of reading the flag is not looked at: it stays 0 if there are too few bytes.
unfoldable pub deseriali_head : Head → BitStream → Option (Head × BitStream)
unfolding read_fields
deseriali_head h s =
    let start : ℕ × BitStream = elim (read_word 4 s) [ none ↦ (0, s) | some r ↦ r ] in
    read_fields start.0 (set_flag start.0 h) start.1

-- On failure the source leaves a message that is filled in part; that message is not modelled.
unfoldable pub deseriali : Msg → BitStream → Option (Msg × BitStream)
unfolding deseriali_head
deseriali m s = deseriali_head m.head s >>= λ p.
    read p.0.body_len p.1 >>= λ r. some (record m { head = p.0; body = r.0 }, r.1)

-- `InitWithBuffer`. The result of `Init` is not looked at.
unfoldable pub init_with_buffer : List ℕ → Msg → Option Msg
unfolding deseriali
init_with_buffer bytes m =
    let s : BitStream = elim (init (take (u16 (length bytes)) bytes) new_stream) [
      | none ↦ new_stream
      | some s ↦ s
    ] in
    deseriali m s >>= λ r. some r.0
