-- ===== src/Buffer/Tests.antt =====
-- The chain of base/Buffer.cpp with blocks of three bytes.
use hudp.Common.{ℕ, ◌≡◌, ◌+◌, ◌++◌, refl, true, false, List, [], ◌∷◌, arith, replicate, min, drop}
use hudp.LoopBuffer.{read_bytes, write_bytes, get_free_length, get_can_read_length}
use hudp.LoopBuffer.Find.{find_str, find_str_in_mem}
use hudp.LoopBuffer.Contents.{contents}
use hudp.Buffer.{Buffer, new_buffer, read, write, can_read_length, can_read_nodes, find_nodes}
use hudp.Buffer.Chain.{held, IsValid}
use hudp.Buffer.Reading.{read-held}
use hudp.Buffer.Writing.{disturbs, write-held}

methods : Unit {0}
unfolding write read read_bytes write_bytes get_free_length get_can_read_length can_read_nodes
    find_nodes find_str find_str_in_mem contents
methods = tt

abbrev memory : ℕ → List ℕ
memory k = replicate 3 0

-- Five bytes in two nodes.
abbrev five : Buffer
five = record {
  nodes =
      record { memory = 1 ∷ 2 ∷ 3 ∷ []; total_size = 3; read = 0; write = 0; can_read = true }
      ∷ record { memory = 4 ∷ 5 ∷ 0 ∷ []; total_size = 3; read = 0; write = 2; can_read = false }
      ∷ [];
  write = 1;
  end = 1;
  buff_count = 2;
}

five-IsValid : IsValid five.nodes five.write
five-IsValid = ((refl, omega arith, omega arith), ((refl, omega arith, omega arith), tt))

written : (write 3 memory (1 ∷ 2 ∷ 3 ∷ 4 ∷ 5 ∷ []) new_buffer).1 ≡ five
unfolding methods
written = refl

-- The bytes of the second node are put over those of the first.
overwritten : (read 5 [] five).0 ≡ 4 ∷ 5 ∷ 3 ∷ []
unfolding methods
overwritten = refl

-- A string that is nowhere is found at the end of the first node.
found_nowhere : find_nodes [] (9 ∷ []) five.nodes five.write ≡ 3
unfolding methods
found_nowhere = refl

-- Two bytes more: the node has room for one of them at its end, which is read before the others.
disordered :
    (let (n, c) = write 3 memory (6 ∷ 7 ∷ []) five in held c.nodes c.write)
    ≡ 1 ∷ 2 ∷ 3 ∷ 6 ∷ 4 ∷ 5 ∷ 7 ∷ []
unfolding methods
disordered = refl

read-held_example :
    let (out, n, c) = read 4 [] five in
    (n ≡ min 4 (can_read_length five))
    × (held c.nodes c.write ≡ drop n (held five.nodes five.write))
    × (can_read_length c + n ≡ can_read_length five)
    × IsValid c.nodes c.write
read-held_example = read-held 4 [] five five-IsValid

write-held_example :
    let (n, c) = write 3 memory (6 ∷ []) five in
    (n ≡ 1)
    × (can_read_length c ≡ can_read_length five + 1)
    × IsValid c.nodes c.write
    × (disturbs five.nodes five.write (6 ∷ []) ≡ false
        → held c.nodes c.write ≡ held five.nodes five.write ++ (6 ∷ []))
write-held_example = write-held 3 memory (6 ∷ []) five (λ k. refl) (omega arith) five-IsValid
