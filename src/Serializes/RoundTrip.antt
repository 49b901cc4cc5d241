-- ===== src/Serializes/RoundTrip.antt =====
-- A message survives common/Serializes.cpp: what is serialized is parsed back unchanged, and its
-- size was estimated exactly.
use hudp.Common.{
  ℕ, ◌≤◌, ◌<◌, ◌≡◌, sym, ap, ◌∙◌, subst, true, false, some, List, [], ◌++◌, arith, has, length,
  length-append, append_assoc, append-nil, overwrite, overwrite-front, replicate, drop,
}
use hudp.Config.{hpf_with_body}
use hudp.Message.{Msg, new_msg}
use hudp.Message.MsgHead.{
  Head, empty_head, set_flag, set_id, set_send_time, set_body_length, add_reliable_ack,
  add_reliable_ack_time, add_reliable_orderly_ack, add_reliable_orderly_ack_time,
}
use hudp.BitStream.{BitStream, new_stream, init, read, read_word, to_bytes}
use hudp.BitStream.Reader.{Left, read-Reads, read_word-Reads}
use hudp.Serializes.{
  put_acks, put_orderly_acks, body_head, read_fields, deseriali_head, deseriali, init_with_buffer,
  get_serialize_buffer,
}
use hudp.Serializes.Encoding.{IsSendable, encode_head, encode_fields}
use hudp.Serializes.Write.{take_word, get_serialize_buffer-lem}
use hudp.Serializes.Read.{
  with_id, with_time, with_orderly, with_acks, with_body, rebuilt, read_fields-Reads,
}

-- A head with the flag of another, whose fields up to a block are its fields.
abbrev filled1 : Head → Head
filled1 h = record (record empty_head { flag = h.flag }) { id = h.id }

abbrev filled2 : Head → Head
filled2 h = record (filled1 h) { send_time = h.send_time }

abbrev filled3 : Head → Head
filled3 h = record (filled2 h) {
  ack_reliable_orderly_vec = h.ack_reliable_orderly_vec;
  reliable_orderly_msg_send_time_vec = h.reliable_orderly_msg_send_time_vec;
}

abbrev filled4 : Head → Head
filled4 h = record (filled3 h) {
  ack_reliable_vec = h.ack_reliable_vec;
  reliable_msg_send_time_vec = h.reliable_msg_send_time_vec;
}

module _ (h : Head) (w : IsSendable h) where
  step1 : with_id h (set_flag h.flag empty_head) ≡ filled1 h
  unfolding set_id set_flag
  step1 = ground (arith, w.no_id)

  step2 : with_time h (filled1 h) ≡ filled2 h
  unfolding set_send_time
  step2 = ground (arith, w.no_time)

  step3 : with_orderly h (filled2 h) ≡ filled3 h
  unfolding put_orderly_acks add_reliable_orderly_ack add_reliable_orderly_ack_time
  step3 =
      ground
        (arith, w.orderly.absent, w.orderly.present, w.orderly.with_times, w.orderly.without_times)

  step4 : with_acks h (filled3 h) ≡ filled4 h
  unfolding put_acks add_reliable_ack add_reliable_ack_time
  step4 = ground (
    arith, w.unordered.absent, w.unordered.present, w.unordered.with_times,
    w.unordered.without_times,
  )

  step5 : with_body h (filled4 h) ≡ h
  unfolding set_body_length
  step5 = ground (arith, w.no_body)

  rebuilt-eq : rebuilt h ≡ h
  rebuilt-eq = rw (step1, step2, step3, step4, step5)

-- A message that is fit to be sent: its head is, and the length in it is that of its body.
pub record IsSendableMsg (m : Msg) : Type 0 where
  pub head_in : IsSendable m.head
  pub with_length : has m.head.flag hpf_with_body ≡ true → m.head.body_len ≡ length m.body
  pub without_body : has m.head.flag hpf_with_body ≡ false → m.body ≡ []

body_head-eq : (m : Msg) → IsSendableMsg m → body_head m ≡ m.head
unfolding body_head set_body_length
body_head-eq m w = ground (arith, w.head_in.len_in, w.with_length, w.without_body)

started-Left :
    (bytes : List ℕ)
    → length bytes ≤ 440
    → (s : BitStream) × (init bytes new_stream ≡ some s) × Left s bytes
unfolding init
started-Left bytes fits = (
  record new_stream { data_buf = overwrite (replicate 440 0) 0 bytes; cur_length = length bytes },
  ground arith,
  record {
    junk = drop (length bytes) (replicate 440 0);
    content = overwrite-front (replicate 440 0) bytes fits;
    count = omega arith;
  },
)

module _ (m : Msg) (w : IsSendableMsg m) where
  abbrev wire : List ℕ
  wire = encode_head m.head ++ m.body

  parsed :
      (s0 : BitStream)
      → Left s0 wire
      → (s : BitStream) × (deseriali new_msg s0
          ≡ some (record new_msg { head = m.head; body = m.body }, s))
  unfolding deseriali deseriali_head
  parsed s0 left = (s3, run)
    where
      h : Head
      h = m.head

      one :
          (s : BitStream) × (read_word 4 s0 ≡ some (h.flag, s)) × Left s (encode_fields h ++ m.body)
      one =
          read_word-Reads 4 h.flag w.head_in.flag_in s0 (encode_fields h ++ m.body)
            (subst (Left s0) (append_assoc (to_bytes 4 h.flag) (encode_fields h) m.body) left)

      two :
          (s : BitStream) × (read_fields h.flag (set_flag h.flag empty_head) one.0 ≡ some (h, s))
          × Left s m.body
      two =
          let r = read_fields-Reads h w.head_in (set_flag h.flag empty_head) one.0 m.body one.2 in
          (r.0, r.1 ∙ ap (λ k. some (k, r.0)) (rebuilt-eq h w.head_in), r.2)

      three : (s : BitStream) × (read (length m.body) two.0 ≡ some (m.body, s)) × Left s []
      three = read-Reads m.body two.0 [] (subst (Left two.0) (sym (append-nil m.body)) two.2)

      s3 : BitStream
      s3 = three.0

      len : h.body_len ≡ length m.body
      len = ground (arith, w.with_length, w.without_body, w.head_in.no_body)

      run : deseriali new_msg s0 ≡ some (record new_msg { head = m.head; body = m.body }, s3)
      run = ground (arith, one.1, two.1, three.1, len)

pub written :
    (m : Msg)
    → IsSendableMsg m
    → length (encode_head m.head ++ m.body) ≤ 440
    → get_serialize_buffer m ≡ encode_head m.head ++ m.body
written m w fits =
    let same = body_head-eq m w in
    let short : length m.body < 65536 = omega (arith, length-append (encode_head m.head) m.body) in
    (get_serialize_buffer-lem m (subst IsSendable (sym same) w.head_in) short).0
      (subst (λ h. length (encode_head h ++ m.body) ≤ 440) (sym same) fits)
    ∙ ap (λ h. encode_head h ++ m.body) same

-- A message that is fit to be sent, and whose wire format is at most 440 bytes, survives: parsing
-- what `GetSerializeBuffer` returns fills a new message with the same head and the same body.
pub init_with_buffer-get_serialize_buffer :
    (m : Msg)
    → IsSendableMsg m
    → length (encode_head m.head ++ m.body) ≤ 440
    → init_with_buffer (get_serialize_buffer m) new_msg
      ≡ some (record new_msg { head = m.head; body = m.body })
unfolding init_with_buffer
init_with_buffer-get_serialize_buffer m w fits =
    let (s0, e0, left) = started-Left (wire m w) fits in
    let (s1, e1) = parsed m w s0 left in
    let whole = take_word (wire m w) (omega arith) in
    ap (λ b. init_with_buffer b new_msg) (written m w fits) ∙ ground (arith, whole, e0, e1)
