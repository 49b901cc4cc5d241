-- ===== src/Serializes/Size.antt =====
-- `EstimateSize` of common/Serializes.cpp against the bytes that are written.
use hudp.Common.{
  ℕ, ◌+◌, ◌*◌, ◌≤◌, ◌≡◌, refl, ◌∙◌, Bool, true, false, List, [], ◌∷◌, ◌++◌, arith, if◌then◌else◌,
  has, length, get_or, length-append,
}
use hudp.Config.{
  hpf_with_id, hpf_with_body, hpf_with_reliable_ack, hpf_with_reliable_orderly_ack,
  hpf_reliable_ack_range, hpf_reliable_orderly_ack_range, hpf_msg_with_time_stamp,
}
use hudp.Message.{Msg}
use hudp.Message.MsgHead.{Head, get_reliable_ack, get_reliable_orderly_ack}
use hudp.BitStream.{to_bytes}
use hudp.BitStream.Writer.{length-to_bytes}
use hudp.Serializes.{estimate_acks, estimate_size, get_serialize_buffer}
use hudp.Serializes.Encoding.{words, encode_acks, encode_fields, encode_head, IsSendableAcks}
use hudp.Serializes.RoundTrip.{IsSendableMsg, written}

length-words : (width : ℕ) (vec : List ℕ) → length (words width vec) ≡ width * length vec
length-words width [] = omega arith
length-words width (v ∷ vec) = omega (
  arith,
  length-append (to_bytes width v) (words width vec),
  length-to_bytes width v,
  length-words width vec,
)

length-encode_acks :
    (flagged range timed : Bool) (acks times : List ℕ)
    → IsSendableAcks flagged range timed acks times
    → length (if flagged then encode_acks range timed acks times else [])
      ≡ (if flagged then estimate_acks range timed acks else 0)
unfolding estimate_acks
length-encode_acks flagged range timed acks times a = ground (
  arith,
  a.present,
  a.short,
  a.with_times,
  length-append
      (to_bytes 2 (length acks) ++ (if range then to_bytes 2 (get_or acks 0 0) else words 2 acks))
      (if timed then words 8 times else []),
  length-append (to_bytes 2 (length acks))
      (if range then to_bytes 2 (get_or acks 0 0) else words 2 acks),
  length-to_bytes 2 (length acks),
  length-to_bytes 2 (get_or acks 0 0),
  length-words 2 acks,
  length-words 8 times,
)

length-optional :
    (b : Bool) (n v : ℕ) → length (if b then to_bytes n v else []) ≡ (if b then n else 0)
length-optional true n v = length-to_bytes n v
length-optional false n v = refl

length-join5 :
    (a b c d e : List ℕ)
    → length (a ++ (b ++ (c ++ (d ++ e)))) ≡ length a + length b + length c + length d + length e
length-join5 a b c d e = omega (
  arith,
  length-append a (b ++ (c ++ (d ++ e))),
  length-append b (c ++ (d ++ e)),
  length-append c (d ++ e),
  length-append d e,
)

-- The vectors that the accessors of the head return.
get_acks :
    (h : Head)
    → (get_reliable_orderly_ack h [] ≡ h.ack_reliable_orderly_vec)
      × (get_reliable_ack h [] ≡ h.ack_reliable_vec)
unfolding get_reliable_orderly_ack get_reliable_ack
get_acks h = ground arith

-- `EstimateSize` is exactly the number of bytes that `GetSerializeBuffer` returns, for a message
-- that is fit to be sent and whose wire format is at most 440 bytes.
pub estimate_size-exact :
    (m : Msg)
    → IsSendableMsg m
    → length (encode_head m.head ++ m.body) ≤ 440
    → estimate_size m ≡ length (get_serialize_buffer m)
unfolding estimate_size
estimate_size-exact m w fits =
    rw (written m w fits, (get_acks h).0, (get_acks h).1)
      (omega (
        arith,
        length-append (encode_head h) m.body,
        length-append (to_bytes 4 h.flag) (encode_fields h),
        length-to_bytes 4 h.flag,
        fields,
        len,
      ))
  where
    h : Head
    h = m.head

    timed : Bool
    timed = has h.flag hpf_msg_with_time_stamp

    orderly : ℕ
    orderly =
        if has h.flag hpf_with_reliable_orderly_ack
        then estimate_acks (has h.flag hpf_reliable_orderly_ack_range) timed
            h.ack_reliable_orderly_vec
        else 0

    unordered : ℕ
    unordered =
        if has h.flag hpf_with_reliable_ack
        then estimate_acks (has h.flag hpf_reliable_ack_range) timed h.ack_reliable_vec
        else 0

    fields :
        length (encode_fields h)
        ≡ (if has h.flag hpf_with_id then 2 else 0)
          + (if timed then 8 else 0)
          + orderly
          + unordered
          + (if has h.flag hpf_with_body then 2 else 0)
    fields =
        let id_bytes = if has h.flag hpf_with_id then to_bytes 2 h.id else [] in
        let time_bytes = if timed then to_bytes 8 h.send_time else [] in
        let orderly_bytes =
          if has h.flag hpf_with_reliable_orderly_ack
          then encode_acks (has h.flag hpf_reliable_orderly_ack_range) timed
              h.ack_reliable_orderly_vec h.reliable_orderly_msg_send_time_vec
          else [] in
        let acks_bytes =
          if has h.flag hpf_with_reliable_ack
          then encode_acks (has h.flag hpf_reliable_ack_range) timed h.ack_reliable_vec
              h.reliable_msg_send_time_vec
          else [] in
        let body_bytes = if has h.flag hpf_with_body then to_bytes 2 h.body_len else [] in
        length-join5 id_bytes time_bytes orderly_bytes acks_bytes body_bytes
        ∙ omega (
          arith,
          length-optional (has h.flag hpf_with_id) 2 h.id,
          length-optional timed 8 h.send_time,
          length-optional (has h.flag hpf_with_body) 2 h.body_len,
          length-encode_acks _ _ _ _ _ w.head_in.orderly,
          length-encode_acks _ _ _ _ _ w.head_in.unordered,
        )

    len :
        (if has h.flag hpf_with_body then 2 + h.body_len else 0)
        ≡ (if has h.flag hpf_with_body then 2 else 0) + length m.body
    len = ground (arith, w.with_length, w.without_body)
