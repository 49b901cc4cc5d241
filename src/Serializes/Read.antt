-- ===== src/Serializes/Read.antt =====
-- The parser of common/Serializes.cpp reads the wire format.
use hudp.Common.{ℕ, ◌≡◌, Bool, true, Option, some, List, [], if◌then◌else◌, ◌>>=◌, has}
use hudp.Config.{
  hpf_with_id, hpf_with_body, hpf_with_reliable_ack, hpf_with_reliable_orderly_ack,
  hpf_reliable_ack_range, hpf_reliable_orderly_ack_range, hpf_msg_with_time_stamp,
}
use hudp.Message.MsgHead.{Head, empty_head, set_flag, set_id, set_send_time, set_body_length}
use hudp.BitStream.{BitStream, read_word, to_bytes}
use hudp.BitStream.Reader.{Reads, return-Reads, bind-Reads}
use hudp.Serializes.{
  read_acks, put_acks, put_orderly_acks, read_fields, read_id, read_time, read_orderly_acks,
  read_reliable_acks, read_body_len,
}
use hudp.Serializes.Encoding.{encode_acks, encode_fields, IsSendable}
use hudp.Serializes.ReadAcks.{map-Reads, choose-Reads, word2, word8, read_acks-Reads}

-- The head after each block of the parser, for the values that it reads.
abbrev pub with_id : Head → Head → Head
with_id h p = if has h.flag hpf_with_id then set_id h.id p else p

abbrev pub with_time : Head → Head → Head
with_time h p = if has h.flag hpf_msg_with_time_stamp then set_send_time h.send_time p else p

abbrev pub with_orderly : Head → Head → Head
with_orderly h p =
    if has h.flag hpf_with_reliable_orderly_ack
    then put_orderly_acks (has h.flag hpf_reliable_orderly_ack_range)
        (has h.flag hpf_msg_with_time_stamp)
        (h.ack_reliable_orderly_vec, h.reliable_orderly_msg_send_time_vec) p
    else p

abbrev pub with_acks : Head → Head → Head
with_acks h p =
    if has h.flag hpf_with_reliable_ack
    then put_acks (has h.flag hpf_reliable_ack_range) (has h.flag hpf_msg_with_time_stamp)
        (h.ack_reliable_vec, h.reliable_msg_send_time_vec) p
    else p

abbrev pub with_body : Head → Head → Head
with_body h p = if has h.flag hpf_with_body then set_body_length h.body_len p else p

-- One optional block.
block-Reads :
    {A : Type 0} (b : Bool) (f : BitStream → Option (A × BitStream)) (xs : List ℕ) (a : A)
    (put : A → Head → Head) (p : Head)
    → (b ≡ true → Reads f xs a)
    → Reads
        (λ s. if b then (f s >>= λ r. some (put r.0 p, r.1)) else some (p, s))
        (if b then xs else [])
        (if b then put a p else p)
block-Reads b f xs a put p rf =
    choose-Reads b (λ s. f s >>= λ r. some (put r.0 p, r.1)) (λ s. some (p, s)) xs [] (put a p) p
      (λ up. map-Reads f xs a (λ v. put v p) (rf up)) (λ _. return-Reads p)

module _ (h : Head) (w : IsSendable h) where
  abbrev id_bytes : List ℕ
  id_bytes = if has h.flag hpf_with_id then to_bytes 2 h.id else []

  abbrev time_bytes : List ℕ
  time_bytes = if has h.flag hpf_msg_with_time_stamp then to_bytes 8 h.send_time else []

  abbrev orderly_bytes : List ℕ
  orderly_bytes =
      if has h.flag hpf_with_reliable_orderly_ack
      then encode_acks (has h.flag hpf_reliable_orderly_ack_range)
          (has h.flag hpf_msg_with_time_stamp) h.ack_reliable_orderly_vec
          h.reliable_orderly_msg_send_time_vec
      else []

  abbrev acks_bytes : List ℕ
  acks_bytes =
      if has h.flag hpf_with_reliable_ack
      then encode_acks (has h.flag hpf_reliable_ack_range) (has h.flag hpf_msg_with_time_stamp)
          h.ack_reliable_vec h.reliable_msg_send_time_vec
      else []

  abbrev body_bytes : List ℕ
  body_bytes = if has h.flag hpf_with_body then to_bytes 2 h.body_len else []

  read_id-Reads : (p : Head) → Reads (read_id h.flag p) id_bytes (with_id h p)
  unfolding read_id
  read_id-Reads p =
      block-Reads (has h.flag hpf_with_id) (read_word 2) (to_bytes 2 h.id) h.id set_id p
        (λ _. word2 h.id w.id_in)

  read_time-Reads : (p : Head) → Reads (read_time h.flag p) time_bytes (with_time h p)
  unfolding read_time
  read_time-Reads p =
      block-Reads (has h.flag hpf_msg_with_time_stamp) (read_word 8) (to_bytes 8 h.send_time)
        h.send_time set_send_time p (λ _. word8 h.send_time w.time_in)

  read_orderly_acks-Reads :
      (p : Head) → Reads (read_orderly_acks h.flag p) orderly_bytes (with_orderly h p)
  unfolding read_orderly_acks
  read_orderly_acks-Reads p =
      let range = has h.flag hpf_reliable_orderly_ack_range in
      let timed = has h.flag hpf_msg_with_time_stamp in
      let acks = h.ack_reliable_orderly_vec in
      let times = h.reliable_orderly_msg_send_time_vec in
      block-Reads (has h.flag hpf_with_reliable_orderly_ack) (read_acks range timed)
        (encode_acks range timed acks times) (acks, times) (put_orderly_acks range timed) p
        (λ up. read_acks-Reads _ range timed acks times up w.orderly)

  read_reliable_acks-Reads :
      (p : Head) → Reads (read_reliable_acks h.flag p) acks_bytes (with_acks h p)
  unfolding read_reliable_acks
  read_reliable_acks-Reads p =
      let range = has h.flag hpf_reliable_ack_range in
      let timed = has h.flag hpf_msg_with_time_stamp in
      let acks = h.ack_reliable_vec in
      let times = h.reliable_msg_send_time_vec in
      block-Reads (has h.flag hpf_with_reliable_ack) (read_acks range timed)
        (encode_acks range timed acks times) (acks, times) (put_acks range timed) p
        (λ up. read_acks-Reads _ range timed acks times up w.unordered)

  read_body_len-Reads : (p : Head) → Reads (read_body_len h.flag p) body_bytes (with_body h p)
  unfolding read_body_len
  read_body_len-Reads p =
      block-Reads (has h.flag hpf_with_body) (read_word 2) (to_bytes 2 h.body_len) h.body_len
        set_body_length p (λ _. word2 h.body_len w.len_in)

  pub read_fields-Reads :
      (p : Head)
      → Reads
          (read_fields h.flag p)
          (encode_fields h)
          (with_body h (with_acks h (with_orderly h (with_time h (with_id h p)))))
  unfolding read_fields
  read_fields-Reads p =
      let p1 = with_id h p in
      let p2 = with_time h p1 in
      let p3 = with_orderly h p2 in
      let p4 = with_acks h p3 in
      let g4 = λ (p : Head) (s : BitStream). read_body_len h.flag p s in
      let g3 = λ (p : Head) (s : BitStream). read_reliable_acks h.flag p s >>= λ q. g4 q.0 q.1 in
      let g2 = λ (p : Head) (s : BitStream). read_orderly_acks h.flag p s >>= λ q. g3 q.0 q.1 in
      let g1 = λ (p : Head) (s : BitStream). read_time h.flag p s >>= λ q. g2 q.0 q.1 in
      bind-Reads (read_id h.flag p) g1 id_bytes _ p1 (with_body h p4) (read_id-Reads p) (
        bind-Reads (read_time h.flag p1) g2 time_bytes _ p2 (with_body h p4) (read_time-Reads p1) (
          bind-Reads (read_orderly_acks h.flag p2) g3 orderly_bytes _ p3 (with_body h p4)
            (read_orderly_acks-Reads p2)
            (bind-Reads (read_reliable_acks h.flag p3) g4 acks_bytes body_bytes p4 (with_body h p4)
              (read_reliable_acks-Reads p3) (read_body_len-Reads p4))))

-- On a new head those blocks rebuild the whole head.
abbrev pub rebuilt : Head → Head
rebuilt h =
    with_body h
      (with_acks h (with_orderly h (with_time h (with_id h (set_flag h.flag empty_head)))))
