-- ===== src/BitStream.antt =====
-- The byte streams of common/BitStream.h and common/BitStream.cpp. A write or a read that the
-- source refuses by `false`, without a change to the stream, is `none`. Words are copied in the
-- little-endian order of the supported machines.
pub mod Writer
pub mod Reader
use hudp.Common.{
  ℕ, zero, suc, ◌+◌, ◌-◌, ◌*◌, ◌/◌, ◌%◌, Option, none, some, List, [], ◌∷◌, ltb, if◌then◌else◌, u16,
  length, take, drop, overwrite, replicate,
}
use hudp.Config.{mtu, max_length}

-- `_data` is the buffer of `_length` bytes; `_cur_point` is an offset into it.
pub record BitStream : Type 0 where
  pub data_buf : List ℕ
  pub cur_point : ℕ
  pub length_limit : ℕ
  pub cur_length : ℕ

abbrev pub new_stream : BitStream
new_stream = record {
  data_buf = replicate mtu 0;
  cur_point = 0;
  length_limit = mtu;
  cur_length = 0;
}

unfoldable pub clear : BitStream → BitStream
clear s = record s { data_buf = replicate s.length_limit 0; cur_point = 0; cur_length = 0 }

-- `CheckBufferExpend`, with `__must_less_mtu` true: the buffer never grows.
unfoldable pub check_buffer_expend : ℕ → BitStream → Option BitStream
check_buffer_expend len s =
    if ltb (max_length - s.cur_length) len
    then none
    else if ltb s.length_limit (s.cur_length + len)
    then none
    else some s

-- `Init`.
unfoldable pub init : List ℕ → BitStream → Option BitStream
unfolding check_buffer_expend
init value s = elim (check_buffer_expend (length value) s) [
  | none ↦ none
  | some s ↦ some (record s { data_buf = overwrite s.data_buf 0 value; cur_length = length value })
]

-- `CopyMemory`.
unfoldable pub copy_memory : List ℕ → BitStream → BitStream
copy_memory value s = record s {
  data_buf = overwrite s.data_buf s.cur_point value;
  cur_point = s.cur_point + length value;
  cur_length = u16 (s.cur_length + length value);
}

-- The `Write` functions: all check and then copy.
unfoldable pub write : List ℕ → BitStream → Option BitStream
unfolding check_buffer_expend copy_memory
write value s = elim (check_buffer_expend (length value) s) [
  | none ↦ none
  | some s ↦ some (copy_memory value s)
]

-- The bytes of a word of `n` bytes, and back.
unfoldable pub to_bytes : ℕ → ℕ → List ℕ
to_bytes zero value = []
to_bytes (suc n) value = value % 256 ∷ to_bytes n (value / 256)

unfoldable pub of_bytes : List ℕ → ℕ
of_bytes [] = 0
of_bytes (b ∷ bytes) = b + 256 * of_bytes bytes

-- `Write(const T&)` for a type of `n` bytes.
unfoldable pub write_word : ℕ → ℕ → BitStream → Option BitStream
unfolding to_bytes write
write_word n value s = write (to_bytes n value) s

-- `Read(std::string&, len)`.
unfoldable pub read : ℕ → BitStream → Option (List ℕ × BitStream)
read len s =
    if ltb s.cur_length (s.cur_point + len)
    then none
    else some (take len (drop s.cur_point s.data_buf), record s { cur_point = s.cur_point + len })

-- `Read(T&)` for a type of `n` bytes.
unfoldable pub read_word : ℕ → BitStream → Option (ℕ × BitStream)
unfolding read of_bytes
read_word n s = elim (read n s) [ none ↦ none | some (bytes, s') ↦ some (of_bytes bytes, s') ]
