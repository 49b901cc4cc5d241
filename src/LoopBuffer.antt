-- ===== src/LoopBuffer.antt =====
-- The circular buffer of base/LoopBuffer.h and base/LoopBuffer.cpp: its state and the operations on
-- it. A pointer into the block is its distance from `_buffer_start`, the block is the list of its
-- bytes, and a length is not negative.
mod Tests
pub mod Find
pub mod Searching
pub mod Contents
pub mod Reading
pub mod Stored
pub mod Writing
pub mod Queue
pub mod Refines
pub mod Blocks
use hudp.Common.{
  ℕ, ◌+◌, ◌-◌, Bool, true, false, not, ◌&&◌, Option, none, some, List, [], ◌++◌, if◌then◌else◌, ltb,
  leb, ◌==◌, take, drop, overwrite,
}

pub record LoopBuffer : Type 0 where
  pub memory : List ℕ
  pub total_size : ℕ
  pub read : ℕ
  pub write : ℕ
  pub can_read : Bool

-- The constructor, on the block that the pool hands out.
abbrev pub new_loop_buffer : ℕ → List ℕ → LoopBuffer
new_loop_buffer length memory = record {
  memory = memory;
  total_size = length;
  read = 0;
  write = 0;
  can_read = false;
}

abbrev pub reset : LoopBuffer → LoopBuffer
reset b = record b { read = 0; write = 0; can_read = false }

-- `_Read`: what stands in `res`, the number of its bytes, and the buffer.
unfoldable pub read_bytes : ℕ → Bool → LoopBuffer → List ℕ × ℕ × LoopBuffer
read_bytes len clear b =
    let size = b.write - b.read in
    let size_end = b.total_size - b.read in
    let both = b.write + size_end in
    let left = len - size_end in
    if ltb b.read b.write
    then (if leb size len
        then (take size (drop b.read b.memory), size, (if clear then reset b else b))
        else (
          take len (drop b.read b.memory),
          len,
          (if clear then record b { read = b.read + len } else b),
        ))
    else if not b.can_read && (b.read == b.write)
    then ([], 0, b)
    else if leb both len
    then (
      take size_end (drop b.read b.memory) ++ take b.write b.memory,
      both,
      (if clear then reset b else b),
    )
    else if leb len size_end
    then (
      take len (drop b.read b.memory),
      len,
      (if clear then record b { read = b.read + len } else b),
    )
    else (
      take size_end (drop b.read b.memory) ++ take left b.memory,
      len,
      (if clear then record b { read = left } else b),
    )

-- `memcpy` behind the test of `write`.
abbrev pub copy : Bool → ℕ → List ℕ → List ℕ → List ℕ
copy write at bytes memory = if write then overwrite memory at bytes else memory

-- `_Write`: the number of the bytes that are taken in, and the buffer.
unfoldable pub write_bytes : List ℕ → ℕ → Bool → LoopBuffer → ℕ × LoopBuffer
write_bytes str len write b =
    let size_end = b.total_size - b.write in
    let left = len - size_end in
    let first = copy write b.write (take size_end str) b.memory in
    let can_save = b.read in
    let size = b.read - b.write in
    if ltb b.read b.write
    then (if leb (b.write + len) b.total_size
        then (
          len,
          record b { memory = copy write b.write (take len str) b.memory; write = b.write + len },
        )
        else if leb left b.read
        then (
          len,
          record b {
            memory = copy write 0 (take left (drop size_end str)) first;
            write = left;
            can_read = if left == b.read then true else b.can_read;
          },
        )
        else (
          can_save + size_end,
          record b {
            memory =
                if ltb 0 can_save && write
                then overwrite first 0 (take can_save (drop size_end str))
                else first;
            read = b.write;
            can_read = true;
          },
        ))
    else if ltb b.write b.read
    then (if leb len size
        then (
          len,
          record b {
            memory = copy write b.write (take len str) b.memory;
            write = b.write + len;
            can_read = if b.write + len == b.read then true else b.can_read;
          },
        )
        else (
          size,
          record b {
            memory = copy write b.write (take size str) b.memory;
            write = b.write + size;
            can_read = true;
          },
        ))
    else if b.can_read
    then (0, b)
    else if leb b.total_size len
    then (
      b.total_size,
      record b {
        memory = copy write 0 (take b.total_size str) b.memory;
        read = 0;
        write = 0;
        can_read = true;
      },
    )
    else (
      len,
      record b { memory = copy write 0 (take len str) b.memory; read = 0; write = 0 + len },
    )

-- `Read`, `ReadNotClear`, `Write` and `MoveWritePt`, with a pointer that is not null.
abbrev pub read_not_clear : ℕ → LoopBuffer → List ℕ × ℕ × LoopBuffer
read_not_clear len b = read_bytes len false b

abbrev pub read_clear : ℕ → LoopBuffer → List ℕ × ℕ × LoopBuffer
read_clear len b = read_bytes len true b

abbrev pub write_str : List ℕ → ℕ → LoopBuffer → ℕ × LoopBuffer
write_str str len b = write_bytes str len true b

abbrev pub move_write_pt : ℕ → LoopBuffer → ℕ × LoopBuffer
move_write_pt len b = write_bytes [] len false b

-- `Clear`, on a buffer that has its block.
unfoldable pub clear : ℕ → LoopBuffer → ℕ × LoopBuffer
clear len b =
    let size = b.write - b.read in
    let size_end = b.total_size - b.read in
    let both = b.write + size_end in
    if len == 0
    then (0, reset b)
    else if ltb b.read b.write
    then (if leb size len then (size, reset b) else (len, record b { read = b.read + len }))
    else if not b.can_read && (b.read == b.write)
    then (0, b)
    else if leb both len
    then (both, reset b)
    else if leb len size_end
    then (len, record b { read = b.read + len })
    else (len, record b { read = len - size_end })

unfoldable pub get_free_length : LoopBuffer → ℕ
get_free_length b =
    if ltb b.read b.write
    then (b.total_size - b.write) + b.read
    else if ltb b.write b.read
    then b.read - b.write
    else if b.can_read
    then 0
    else b.total_size

unfoldable pub get_can_read_length : LoopBuffer → ℕ
get_can_read_length b =
    if ltb b.read b.write
    then b.write - b.read
    else if ltb b.write b.read
    then (b.total_size - b.read) + b.write
    else if b.can_read
    then b.total_size
    else 0

-- `ReadUntil` of a number of bytes; nothing is read when there are fewer.
unfoldable pub read_until : ℕ → LoopBuffer → List ℕ × ℕ × LoopBuffer
unfolding get_can_read_length read_bytes
read_until len b = if ltb (get_can_read_length b) len then ([], 0, b) else read_clear len b

-- A block of memory: where it starts, or `none` for a null pointer, and its length.
abbrev pub Block : Type 0
Block = Option ℕ × ℕ

-- `GetFreeMemoryBlock` and `GetUseMemoryBlock`: the answer and the two blocks.
unfoldable pub get_free_memory_block : LoopBuffer → Bool × Block × Block
get_free_memory_block b =
    if leb b.read b.write
    then (if b.can_read && (b.write == b.read) then (false, (none, 0), (none, 0)) else (
      true,
      (some b.write, b.total_size - b.write),
      ((if ltb 0 b.read then some 0 else none), b.read),
    ))
    else (true, (some b.write, b.read - b.write), (none, 0))

unfoldable pub get_use_memory_block : LoopBuffer → Bool × Block × Block
get_use_memory_block b =
    if leb b.write b.read
    then (if not b.can_read && (b.write == b.read) then (false, (none, 0), (none, 0)) else (
      true,
      (some b.read, b.total_size - b.read),
      ((if ltb 0 b.write then some 0 else none), b.write),
    ))
    else (true, (some b.read, b.write - b.read), (none, 0))
