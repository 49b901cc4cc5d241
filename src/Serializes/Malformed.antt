-- ===== src/Serializes/Malformed.antt =====
-- What common/MsgImpl.cpp makes of bytes that are no message.
use hudp.Common.{
  ℕ, ◌+◌, ◌≤◌, ◌<◌, ◌≡◌, none, some, List, [], arith, length, u16, take, overwrite, Option, ap, ◌∙◌,
  ◌>>=◌,
}
use hudp.Message.{Msg, new_msg}
use hudp.Message.MsgHead.{set_flag}
use hudp.Serializes.Write.{take_word}
use hudp.BitStream.{BitStream, new_stream, init, read, read_word}
use hudp.Serializes.{init_with_buffer, deseriali, deseriali_head}

read_word-none : (s : BitStream) → s.cur_length < s.cur_point + 4 → read_word 4 s ≡ none
unfolding read_word
read_word-none s few = ground arith

read-nothing :
    (s : BitStream)
    → s.cur_point ≤ s.cur_length
    → read 0 s ≡ some ([], record s { cur_point = s.cur_point + 0 })
unfolding read
read-nothing s le = ground arith

deseriali-too_few :
    (s : BitStream)
    → s.cur_point ≤ s.cur_length
    → s.cur_length < s.cur_point + 4
    → deseriali new_msg s ≡ some (new_msg, record s { cur_point = s.cur_point + 0 })
unfolding deseriali set_flag
deseriali-too_few s le few = rw (read_word-none s few, deseriali_head) (rw (read-nothing s le))

init-accepts :
    (bytes : List ℕ)
    → length bytes ≤ 440
    → init bytes new_stream
      ≡ some (record new_stream {
        data_buf = overwrite new_stream.data_buf 0 bytes;
        cur_length = length bytes;
      })
unfolding init
init-accepts bytes h = ground arith

init-refuses :
    (bytes : List ℕ) (s : BitStream)
    → s.length_limit < s.cur_length + length bytes
    → init bytes s ≡ none
unfolding init
init-refuses bytes s h = ground arith

-- Fewer than 4 bytes, or more than 440 (and fewer than 65536), are parsed with success: the result
-- is the message with no flag, no id and an empty body, whatever the bytes are.
pub init_with_buffer-malformed :
    (bytes : List ℕ)
    → (length bytes < 4 → init_with_buffer bytes new_msg ≡ some new_msg)
      × (440 < length bytes → length bytes < 65536 → init_with_buffer bytes new_msg ≡ some new_msg)
unfolding init_with_buffer
init_with_buffer-malformed bytes = (λ short. first short, λ long word. second long word)
  where
    stream : BitStream
    stream = record new_stream {
      data_buf = overwrite new_stream.data_buf 0 bytes;
      cur_length = length bytes;
    }

    finish : Option (Msg × BitStream) → Option Msg
    finish r = r >>= λ r. some r.0

    parse : Option BitStream → Option Msg
    parse o =
        let s : BitStream = elim o [ none ↦ new_stream | some s ↦ s ] in
        finish (deseriali new_msg s)

    run :
        (b : List ℕ)
        → take (u16 (length b)) b ≡ b
        → parse (init b new_stream) ≡ some new_msg
        → init_with_buffer b new_msg ≡ some new_msg
    run b whole e = ap (λ b. parse (init b new_stream)) whole ∙ e

    first : length bytes < 4 → init_with_buffer bytes new_msg ≡ some new_msg
    first short =
        let whole = take_word bytes (omega arith) in
        let accepted = init-accepts bytes (omega arith) in
        run bytes whole
          (ap parse accepted ∙ ap finish (deseriali-too_few stream (omega arith) (omega arith)))

    second :
        440 < length bytes → length bytes < 65536 → init_with_buffer bytes new_msg ≡ some new_msg
    second long word =
        let whole = take_word bytes word in
        let refused = init-refuses bytes new_stream (omega arith) in
        run bytes whole
          (ap parse refused ∙ ap finish (deseriali-too_few new_stream (omega arith) (omega arith)))
