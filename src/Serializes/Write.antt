-- ===== src/Serializes/Write.antt =====
-- The serializer of common/Serializes.cpp writes the wire format.
use hudp.Common.{
  ℕ, ◌+◌, ◌≤◌, ◌<◌, ◌≡◌, refl, sym, ap, ◌∙◌, subst, Bool, true, false, Option, none, some, List, [],
  ◌∷◌, ◌++◌, arith, if◌then◌else◌, ◌>>=◌, u16, length, get_or, take, ltb, take_all, append_assoc,
  length-append,
}
use hudp.Config.{}
use hudp.Message.{Msg}
use hudp.Message.MsgHead.{
  Head, get_reliable_ack, get_reliable_ack_time, get_reliable_orderly_ack,
  get_reliable_orderly_ack_time,
}
use hudp.BitStream.{BitStream, write, write_word, to_bytes, new_stream}
use hudp.BitStream.Writer.{
  Holds, Writes, write-Writes, write_word-Writes, skip-Writes, if-Writes, bind-Writes,
  new_stream-Holds, length-to_bytes,
}
use hudp.Serializes.{
  write_each, write_acks, write_fields, body_head, serializes, get_serialize_buffer,
}
use hudp.Serializes.Encoding.{
  words, encode_acks, encode_fields, encode_head, IsSendable, IsSendableAcks,
}

write_each-Writes :
    (width : ℕ) (vec : List ℕ) → Writes (write_each width (length vec) vec) (words width vec)
unfolding write_each
write_each-Writes width [] = skip-Writes
write_each-Writes width (v ∷ vec) =
    bind-Writes (write_word width v) (write_each width (length vec) vec) (to_bytes width v)
      (words width vec) (write_word-Writes width v) (write_each-Writes width vec)

choose-Writes :
    (b : Bool) (f g : BitStream → Option BitStream) (xs ys : List ℕ)
    → Writes f xs
    → Writes g ys
    → Writes (λ s. if b then f s else g s) (if b then xs else ys)
choose-Writes true f g xs ys wf wg = wf
choose-Writes false f g xs ys wf wg = wg

times-Writes :
    (timed : Bool) (n : ℕ) (times : List ℕ)
    → (timed ≡ true → length times ≡ n)
    → Writes
        (λ s. if timed then write_each 8 n times s else some s)
        (if timed then words 8 times else [])
times-Writes true n times h =
    subst (λ n. Writes (write_each 8 n times) (words 8 times)) (h refl) (write_each-Writes 8 times)
times-Writes false n times h = skip-Writes

-- `write_acks`, over the length and the test that it computes first.
abbrev acks_step : Bool → ℕ → Bool → Bool → List ℕ → List ℕ → BitStream → Option BitStream
acks_step some_acks len range timed acks times s =
    (if some_acks
      then (write_word 2 len s >>= λ s.
          if range then write_word 2 (get_or acks 0 0) s else write_each 2 len acks s)
      else some s)
    >>= λ s. if timed then write_each 8 len times s else some s

acks_step-Writes :
    (range timed : Bool) (acks times : List ℕ)
    → (timed ≡ true → length times ≡ length acks)
    → Writes
        (acks_step true (length acks) range timed acks times)
        (encode_acks range timed acks times)
acks_step-Writes range timed acks times h =
    bind-Writes _ _ _ _
      (bind-Writes _ _ _ _ (write_word-Writes 2 (length acks)) (
        choose-Writes range (write_word 2 (get_or acks 0 0)) (write_each 2 (length acks) acks) _ _
          (write_word-Writes 2 (get_or acks 0 0)) (write_each-Writes 2 acks)))
      (times-Writes timed (length acks) times h)

write_acks-Writes :
    (flagged range timed : Bool) (acks times : List ℕ)
    → flagged ≡ true
    → IsSendableAcks flagged range timed acks times
    → Writes (write_acks range timed acks times) (encode_acks range timed acks times)
unfolding write_acks
write_acks-Writes flagged range timed acks times up a =
    let len : u16 (length acks) ≡ length acks = omega (arith, a.short) in
    let test : ltb 0 (length acks) ≡ true = ground (arith, a.present up) in
    subst
      (λ len.
        Writes (acks_step (ltb 0 len) len range timed acks times)
          (encode_acks range timed acks times))
      (sym len)
      (subst
        (λ b.
          Writes (acks_step b (length acks) range timed acks times)
            (encode_acks range timed acks times))
        (sym test) (acks_step-Writes range timed acks times (a.with_times up)))

flagged_acks-Writes :
    (flagged range timed : Bool) (acks times : List ℕ)
    → IsSendableAcks flagged range timed acks times
    → Writes
        (λ s. if flagged then write_acks range timed acks times s else some s)
        (if flagged then encode_acks range timed acks times else [])
flagged_acks-Writes true range timed acks times a =
    write_acks-Writes true range timed acks times refl a
flagged_acks-Writes false range timed acks times a = skip-Writes

-- What the accessors of the head give the serializer.
get_vectors :
    (h : Head)
    → (get_reliable_orderly_ack h [] ≡ h.ack_reliable_orderly_vec)
      × (get_reliable_orderly_ack_time h [] ≡ h.reliable_orderly_msg_send_time_vec)
      × (get_reliable_ack h [] ≡ h.ack_reliable_vec)
      × (get_reliable_ack_time h [] ≡ h.reliable_msg_send_time_vec)
unfolding get_reliable_orderly_ack get_reliable_orderly_ack_time get_reliable_ack
    get_reliable_ack_time
get_vectors h = ground arith

pub write_fields-Writes : (h : Head) → IsSendable h → Writes (write_fields h) (encode_fields h)
unfolding write_fields
write_fields-Writes h w =
    let (o, ot, r, rt) = get_vectors h in
    rw (o, ot, r, rt)
      (bind-Writes _ _ _ _ (if-Writes _ _ _ (write_word-Writes 2 h.id)) (
        bind-Writes _ _ _ _ (if-Writes _ _ _ (write_word-Writes 8 h.send_time)) (
          bind-Writes _ _ _ _ (flagged_acks-Writes _ _ _ _ _ w.orderly) (
            bind-Writes _ _ _ _ (flagged_acks-Writes _ _ _ _ _ w.unordered)
              (if-Writes _ _ _ (write_word-Writes 2 h.body_len))))))

pub take_word : (body : List ℕ) → length body < 65536 → take (u16 (length body)) body ≡ body
take_word body h =
    ap (λ n. take n body) {x = u16 (length body)} {y = length body} (omega arith) ∙ take_all body

-- A message whose head is fit to be sent, and whose body is shorter than 65536 bytes, is
-- serialized to the wire format of its head followed by its body, if these are at most 440 bytes;
-- if they are more the buffer is empty.
pub get_serialize_buffer-lem :
    (m : Msg)
    → IsSendable (body_head m)
    → length m.body < 65536
    → let bytes = encode_head (body_head m) ++ m.body in
      (length bytes ≤ 440 → get_serialize_buffer m ≡ bytes)
      × (440 < length bytes → get_serialize_buffer m ≡ [])
unfolding get_serialize_buffer
get_serialize_buffer-lem m w short = (
  λ fits.
      let (s2, e2, h2) = (tail s1 flag_bytes first.2).0 (omega (arith, total)) in
      content (run ∙ e2) ∙ (h2.content ∙ sym (append_assoc flag_bytes (encode_fields h) m.body)),
  λ long. content (run ∙ (tail s1 flag_bytes first.2).1 (omega (arith, total))),
)
  where
    h : Head
    h = body_head m

    flag_bytes : List ℕ
    flag_bytes = to_bytes 4 h.flag

    first : (s' : BitStream) × (write_word 4 h.flag new_stream ≡ some s') × Holds s' flag_bytes
    first =
        (write_word-Writes 4 h.flag new_stream [] new_stream-Holds).0
          (omega (arith, length-to_bytes 4 h.flag))

    s1 : BitStream
    s1 = first.0

    tail : Writes (λ s. write_fields h s >>= write m.body) (encode_fields h ++ m.body)
    tail = bind-Writes _ _ _ _ (write_fields-Writes h w) (write-Writes m.body)

    total :
        length (encode_head h ++ m.body) ≡ length flag_bytes + length (encode_fields h ++ m.body)
    total =
        ap length (append_assoc flag_bytes (encode_fields h) m.body)
        ∙ length-append flag_bytes (encode_fields h ++ m.body)

    run : (serializes m new_stream).1 ≡ (write_fields h s1 >>= write m.body)
    run =
        ap
          (λ o. write_fields h (elim o [ none ↦ new_stream | some s' ↦ s' ]) >>= λ s.
            write (take (u16 (length m.body)) m.body) s)
          first.1
        ∙ ap (λ b. write_fields h s1 >>= λ s. write b s) (take_word m.body short)

    content :
        {o : Option BitStream}
        → (serializes m new_stream).1 ≡ o
        → get_serialize_buffer m ≡ elim o [ none ↦ [] | some s ↦ take s.cur_length s.data_buf ]
    content e = ap (λ o. elim o [ none ↦ [] | some s ↦ take s.cur_length s.data_buf ]) e
