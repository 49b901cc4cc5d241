-- ===== src/Serializes/Encoding.antt =====
-- The wire format of common/Serializes.cpp as a plain function from a head to its bytes, and the
-- heads for which it is meant.
use hudp.Common.{
  ℕ, ◌<◌, ◌≡◌, Bool, true, false, List, [], ◌∷◌, ◌++◌, if◌then◌else◌, has, length, get_or, ids_from,
}
use hudp.Config.{
  hpf_with_id, hpf_with_body, hpf_with_reliable_ack, hpf_with_reliable_orderly_ack,
  hpf_reliable_ack_range, hpf_reliable_orderly_ack_range, hpf_msg_with_time_stamp,
}
use hudp.Message.MsgHead.{Head}
use hudp.BitStream.{to_bytes}

-- The words of a vector, one behind another.
abbrev pub words : ℕ → List ℕ → List ℕ
words width [] = []
words width (v ∷ vec) = to_bytes width v ++ words width vec

-- One kind of ack: the number, the first id or all ids, the times.
abbrev pub encode_acks : Bool → Bool → List ℕ → List ℕ → List ℕ
encode_acks range timed acks times =
    (to_bytes 2 (length acks) ++ (if range then to_bytes 2 (get_or acks 0 0) else words 2 acks))
    ++ (if timed then words 8 times else [])

abbrev pub encode_fields : Head → List ℕ
encode_fields h =
    let timed = has h.flag hpf_msg_with_time_stamp in
    (if has h.flag hpf_with_id then to_bytes 2 h.id else [])
    ++ ((if timed then to_bytes 8 h.send_time else [])
        ++ ((if has h.flag hpf_with_reliable_orderly_ack
              then encode_acks (has h.flag hpf_reliable_orderly_ack_range) timed
                  h.ack_reliable_orderly_vec h.reliable_orderly_msg_send_time_vec
              else [])
            ++ ((if has h.flag hpf_with_reliable_ack
                  then encode_acks (has h.flag hpf_reliable_ack_range) timed h.ack_reliable_vec
                      h.reliable_msg_send_time_vec
                  else [])
                ++ (if has h.flag hpf_with_body then to_bytes 2 h.body_len else []))))

abbrev pub encode_head : Head → List ℕ
encode_head h = to_bytes 4 h.flag ++ encode_fields h

-- Every element lies below a bound.
abbrev pub AllBelow : ℕ → List ℕ → Type 0
AllBelow bound [] = Unit
AllBelow bound (v ∷ vec) = (v < bound) × AllBelow bound vec

-- One kind of ack of a head that is fit to be sent: its flag is up exactly if there are acks, a
-- range is a run of consecutive ids, and there is a time for each ack exactly if times are sent.
pub record IsSendableAcks (flagged range timed : Bool) (acks times : List ℕ) : Type 0 where
  pub absent : flagged ≡ false → (acks ≡ []) × (times ≡ [])
  pub present : flagged ≡ true → 0 < length acks
  pub short : length acks < 65536
  pub ids_in : AllBelow 65536 acks
  pub times_in : AllBelow 18446744073709551616 times
  pub run : range ≡ true → acks ≡ ids_from (get_or acks 0 0) (length acks)
  pub with_times : flagged ≡ true → timed ≡ true → length times ≡ length acks
  pub without_times : timed ≡ false → times ≡ []

-- A head that is fit to be sent: its fields are words of their widths, and a field whose flag is
-- down has its initial value.
pub record IsSendable (h : Head) : Type 0 where
  pub flag_in : h.flag < 4294967296
  pub id_in : h.id < 65536
  pub time_in : h.send_time < 18446744073709551616
  pub len_in : h.body_len < 65536
  pub no_id : has h.flag hpf_with_id ≡ false → h.id ≡ 0
  pub no_time : has h.flag hpf_msg_with_time_stamp ≡ false → h.send_time ≡ 0
  pub no_body : has h.flag hpf_with_body ≡ false → h.body_len ≡ 0
  pub orderly :
      IsSendableAcks
        (has h.flag hpf_with_reliable_orderly_ack)
        (has h.flag hpf_reliable_orderly_ack_range)
        (has h.flag hpf_msg_with_time_stamp)
        h.ack_reliable_orderly_vec
        h.reliable_orderly_msg_send_time_vec
  pub unordered :
      IsSendableAcks
        (has h.flag hpf_with_reliable_ack)
        (has h.flag hpf_reliable_ack_range)
        (has h.flag hpf_msg_with_time_stamp)
        h.ack_reliable_vec
        h.reliable_msg_send_time_vec
