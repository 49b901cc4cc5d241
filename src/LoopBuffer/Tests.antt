-- ===== src/LoopBuffer/Tests.antt =====
-- The circular buffer of base/LoopBuffer.cpp on small blocks.
use hudp.Common.{◌≡◌, refl, true, false, [], ◌∷◌, arith}
use hudp.LoopBuffer.{
  LoopBuffer, new_loop_buffer, read_bytes, write_bytes, get_free_length, get_can_read_length, clear,
}
use hudp.LoopBuffer.Find.{find_str_in_mem, find_str, read_until_str}
use hudp.LoopBuffer.Contents.{contents}
use hudp.LoopBuffer.Writing.{Writes, write_bytes-Writes}
use hudp.LoopBuffer.Searching.{Finds, find_str_in_mem-Finds}
use hudp.LoopBuffer.Queue.{read_op, peek_op, clear_op, write_op}
use hudp.LoopBuffer.Queue
use hudp.LoopBuffer.Refines.{calls, calls-run}

methods : Unit {0}
unfolding read_bytes write_bytes clear get_free_length get_can_read_length contents find_str
    find_str_in_mem read_until_str
methods = tt

-- Three bytes in a block of five, behind two that are read already.
abbrev straight : LoopBuffer
straight = record {
  memory = 0 ∷ 0 ∷ 1 ∷ 2 ∷ 9 ∷ [];
  total_size = 5;
  read = 2;
  write = 4;
  can_read = false;
}

-- The same with bytes that go round.
abbrev round : LoopBuffer
round = record {
  memory = 3 ∷ 0 ∷ 0 ∷ 1 ∷ 2 ∷ [];
  total_size = 5;
  read = 3;
  write = 1;
  can_read = false;
}

-- Where not all of a write fits, the bytes that are taken in are read before those that were there.
overflow_order :
    contents (write_bytes (3 ∷ 4 ∷ 5 ∷ 6 ∷ []) 4 true straight).1 ≡ 3 ∷ 4 ∷ 5 ∷ 1 ∷ 2 ∷ []
unfolding methods
overflow_order = refl

-- The answer counts bytes that the buffer does not hold.
found_outside : find_str [] (2 ∷ 9 ∷ []) straight ≡ 3
unfolding methods
found_outside = refl

-- A string that goes round the end of the block is not found.
not_found_round : find_str (7 ∷ []) (2 ∷ 3 ∷ []) round ≡ 0
unfolding methods
not_found_round = refl

-- All that is there is read, and not only the bytes up to the end of the string.
read_too_far : (read_until_str [] 5 (1 ∷ []) 0 straight).0.0 ≡ 1 ∷ 2 ∷ []
unfolding methods
read_too_far = refl

write_bytes-Writes_example :
    Writes (3 ∷ 4 ∷ 5 ∷ 6 ∷ []) straight (write_bytes (3 ∷ 4 ∷ 5 ∷ 6 ∷ []) 4 true straight)
write_bytes-Writes_example =
    write_bytes-Writes (3 ∷ 4 ∷ 5 ∷ 6 ∷ []) straight (refl, omega arith, omega arith)

find_str_in_mem-Finds_example :
    Finds (2 ∷ 3 ∷ []) (1 ∷ 2 ∷ 2 ∷ 3 ∷ []) 4 (find_str_in_mem (1 ∷ 2 ∷ 2 ∷ 3 ∷ []) 4 (2 ∷ 3 ∷ []))
find_str_in_mem-Finds_example = find_str_in_mem-Finds 2 (3 ∷ []) (1 ∷ 2 ∷ 2 ∷ 3 ∷ []) 4

calls-run_example :
    let (outs, b) =
      calls
        (write_op (1 ∷ 2 ∷ 3 ∷ [])
          ∷ read_op 2
          ∷ write_op (4 ∷ 5 ∷ [])
          ∷ peek_op 9
          ∷ clear_op 0
          ∷ [])
        (new_loop_buffer 4 (0 ∷ 0 ∷ 0 ∷ 0 ∷ [])) in
    (outs, contents b)
    ≡ Queue.run
        (write_op (1 ∷ 2 ∷ 3 ∷ [])
          ∷ read_op 2
          ∷ write_op (4 ∷ 5 ∷ [])
          ∷ peek_op 9
          ∷ clear_op 0
          ∷ [])
        []
calls-run_example =
    calls-run
      (write_op (1 ∷ 2 ∷ 3 ∷ []) ∷ read_op 2 ∷ write_op (4 ∷ 5 ∷ []) ∷ peek_op 9 ∷ clear_op 0 ∷ [])
      (0 ∷ 0 ∷ 0 ∷ 0 ∷ []) (omega arith, (tt, (omega arith, (tt, (tt, tt)))))
