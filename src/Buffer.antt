-- ===== src/Buffer.antt =====
-- The buffer of base/Buffer.h and base/Buffer.cpp, a chain of circular buffers. `nodes` are those from
-- `_buffer_read` on, each the next of the one before; `write` and `end` tell how far from there
-- `_buffer_write` and `_buffer_end` are. Without a node all three pointers are null.
mod Tests
pub mod Chain
pub mod Reading
pub mod Writing
use hudp.Common.{
  ℕ, zero, suc, ◌+◌, ◌-◌, Bool, true, false, List, [], ◌∷◌, ◌++◌, if◌then◌else◌, ltb, leb, ◌==◌,
  take, drop, length,
}
use hudp.LoopBuffer.{
  LoopBuffer, new_loop_buffer, read_bytes, write_bytes, read_clear, read_not_clear, write_str,
  move_write_pt, get_free_length, get_can_read_length,
}
use hudp.LoopBuffer
use hudp.LoopBuffer.Find.{find_str}

pub record Buffer : Type 0 where
  pub nodes : List LoopBuffer
  pub write : ℕ
  pub end : ℕ
  pub buff_count : ℕ

-- The constructor.
abbrev pub new_buffer : Buffer
new_buffer = record { nodes = []; write = 0; end = 0; buff_count = 0 }

-- What a read leaves at `res`: each node's bytes are put at its start.
abbrev pub put_front : List ℕ → List ℕ → List ℕ
put_front bytes res = bytes ++ drop (length bytes) res

-- The loop of `Read`: what stands at `res`, the number of the bytes, and the buffer. A node that is
-- read up is deleted, and where it is the one to write to, the next one takes its place.
unfoldable pub read_nodes : ℕ → ℕ → List ℕ → List LoopBuffer → ℕ → ℕ → ℕ → List ℕ × ℕ × Buffer
unfolding read_bytes
read_nodes len cur_len res [] write end count =
    (res, cur_len, record { nodes = []; write = write; end = end; buff_count = count })
read_nodes len cur_len res (b ∷ bs) write end count =
    let (bytes, n, c) = read_clear (len - cur_len) b in
    let sum = cur_len + n in
    let put = put_front bytes res in
    let rest = read_nodes len sum put bs (write - 1) (end - 1) (count - 1) in
    if leb len sum
    then (put, sum, record { nodes = c ∷ bs; write = write; end = end; buff_count = count })
    else rest

unfoldable pub read : ℕ → List ℕ → Buffer → List ℕ × ℕ × Buffer
unfolding read_nodes
read len res b = read_nodes len 0 res b.nodes b.write b.end b.buff_count

-- The loop of `ReadNotClear`, up to the node that is written to.
unfoldable pub peek_nodes : ℕ → ℕ → List ℕ → List LoopBuffer → ℕ → List ℕ × ℕ
unfolding read_bytes
peek_nodes len cur_len res [] write = (res, cur_len)
peek_nodes len cur_len res (b ∷ bs) write =
    let (bytes, n, c) = read_not_clear (len - cur_len) b in
    let sum = cur_len + n in
    let put = put_front bytes res in
    let rest = peek_nodes len sum put bs (write - 1) in
    if ltb cur_len len then (if write == 0 then (put, sum) else rest) else (res, cur_len)

unfoldable pub peek : ℕ → List ℕ → Buffer → List ℕ × ℕ
unfolding peek_nodes
peek len res b = peek_nodes len 0 res b.nodes b.write

-- The loop of `Clear`.
unfoldable pub clear_nodes : ℕ → ℕ → List LoopBuffer → ℕ → ℕ → ℕ → Buffer
unfolding LoopBuffer.clear
clear_nodes len cur_len [] write end count = record {
  nodes = [];
  write = write;
  end = end;
  buff_count = count;
}
clear_nodes len cur_len (b ∷ bs) write end count =
    let (n, c) = LoopBuffer.clear (len - cur_len) b in
    let rest = clear_nodes len (cur_len + n) bs (write - 1) (end - 1) (count - 1) in
    if leb len (cur_len + n)
    then record { nodes = c ∷ bs; write = write; end = end; buff_count = count }
    else rest

-- `Clear`; to clear nothing is to clear all.
unfoldable pub clear : ℕ → Buffer → Buffer
unfolding clear_nodes
clear len b =
    if len == 0
    then record { nodes = []; write = 0; end = 0; buff_count = b.buff_count - length b.nodes }
    else clear_nodes len 0 b.nodes b.write b.end b.buff_count

-- The bytes up to the node that is written to.
unfoldable pub can_read_nodes : List LoopBuffer → ℕ → ℕ
unfolding get_can_read_length
can_read_nodes [] write = 0
can_read_nodes (b ∷ bs) zero = get_can_read_length b
can_read_nodes (b ∷ bs) (suc write) = get_can_read_length b + can_read_nodes bs write

-- `GetCanReadLength` and `GetFreeLength`.
abbrev pub can_read_length : Buffer → ℕ
can_read_length b = can_read_nodes b.nodes b.write

unfoldable pub free_nodes : List LoopBuffer → ℕ → ℕ
unfolding get_free_length
free_nodes [] end = 0
free_nodes (b ∷ bs) zero = get_free_length b
free_nodes (b ∷ bs) (suc end) = get_free_length b + free_nodes bs end

unfoldable pub free_length : Buffer → ℕ
unfolding free_nodes
free_length b = free_nodes (drop b.write b.nodes) (b.end - b.write)

-- `FindStr`. Where the string is in no node, the answer counts the nodes but the last.
unfoldable pub find_nodes : List ℕ → List ℕ → List LoopBuffer → ℕ → ℕ
unfolding find_str get_can_read_length
find_nodes behind s [] write = 0
find_nodes behind s (b ∷ bs) zero = find_str behind s b
find_nodes behind s (b ∷ bs) (suc write) =
    let found = find_str behind s b in
    if ltb 0 found then found else get_can_read_length b + find_nodes behind s bs write

-- `ReadUntil` of a number of bytes, and up to a string; `need_len` comes last.
unfoldable pub read_until : ℕ → List ℕ → Buffer → List ℕ × ℕ × Buffer
unfolding read can_read_nodes
read_until len res b = if ltb (can_read_length b) len then (res, 0, b) else read len res b

unfoldable pub read_until_str :
    List ℕ → ℕ → List ℕ → ℕ → List ℕ → Buffer → (List ℕ × ℕ × Buffer) × ℕ
unfolding read find_nodes
read_until_str behind len find need_len res b =
    let size = find_nodes behind find b.nodes b.write in
    if size == 0
    then ((res, 0, b), need_len)
    else if leb size len
    then (read size res b, need_len)
    else ((res, 0, b), size)

-- The loop of `MoveWritePt` from a node on: the number, the nodes, and how far it goes.
unfoldable pub move_nodes : ℕ → List LoopBuffer → ℕ → ℕ × List LoopBuffer × ℕ
unfolding write_bytes
move_nodes len [] end = (0, [], 0)
move_nodes len (b ∷ bs) end =
    let (n, c) = move_write_pt len b in
    let (m, rest, steps) = move_nodes (len - n) bs (end - 1) in
    if end == 0
    then (n, c ∷ bs, 0)
    else if leb len n
    then (n, c ∷ bs, 0)
    else (n + m, c ∷ rest, suc steps)

unfoldable pub move_write : ℕ → Buffer → ℕ × Buffer
unfolding move_nodes
move_write len b =
    let (n, rest, steps) = move_nodes len (drop b.write b.nodes) (b.end - b.write) in
    (n, record b { nodes = take b.write b.nodes ++ rest; write = b.write + steps })

-- What the loop of `Write` does from a node on: the nodes, how far it goes, the number of the bytes,
-- and `_buff_count`.
abbrev pub Written : Type 0
Written = List LoopBuffer × ℕ × ℕ × ℕ

-- `memory` is what stands in a new block of the pool.
module _ (total_size : ℕ) (memory : ℕ → List ℕ) where
  -- The rounds on new nodes.
  unfoldable pub grow : ℕ → List ℕ → ℕ → Written
  unfolding write_bytes
  grow zero str count = ([], 0, 0, count)
  grow (suc fuel) str count =
      let (n, c) = write_str str (length str) (new_loop_buffer total_size (memory count)) in
      let (bs, steps, m, last) = grow fuel (drop n str) (count + 1) in
      if leb (length str) n then (c ∷ [], 0, n, count + 1) else (c ∷ bs, suc steps, n + m, last)

  -- A round on a new node takes a byte at least.
  unfoldable pub fill : List ℕ → List LoopBuffer → ℕ → Written
  unfolding grow
  fill str [] count = grow (suc (length str)) str count
  fill str (b ∷ bs) count =
      let (n, c) = write_str str (length str) b in
      let (rest, steps, m, last) = fill (drop n str) bs count in
      if leb (length str) n then (c ∷ bs, 0, n, count) else (c ∷ rest, suc steps, n + m, last)

  -- The loop begins at the node that is written to.
  unfoldable pub write_nodes : List ℕ → List LoopBuffer → ℕ → ℕ → Written
  unfolding fill
  write_nodes str bs zero count = fill str bs count
  write_nodes str [] (suc write) count = fill str [] count
  write_nodes str (b ∷ bs) (suc write) count =
      let (rest, steps, n, last) = write_nodes str bs write count in (b ∷ rest, suc steps, n, last)

  -- `Write`; the last of the new nodes is the end.
  unfoldable pub write : List ℕ → Buffer → ℕ × Buffer
  unfolding write_nodes
  write str b =
      let (nodes, at, n, count) = write_nodes str b.nodes b.write b.buff_count in
      (
        n,
        record {
          nodes = nodes;
          write = at;
          end = if count == b.buff_count then b.end else length nodes - 1;
          buff_count = count;
        },
      )
