-- ===== src/LoopBuffer/Blocks.antt =====
-- The blocks of memory that base/LoopBuffer.cpp hands out for reading and for writing.
use hudp.Common.{
  ℕ, ◌+◌, ◌-◌, ◌<◌, ◌≡◌, ◌∙◌, inl, inr, refl, sym, ap₂, true, false, some, none, List, [], ◌++◌,
  append-nil, take, drop, take_long, length-drop, arith, ltb, leb, not, ◌&&◌, ◌==◌, if◌then◌else◌,
  ◌⊎◌, zero, suc,
}
use hudp.LoopBuffer.{
  LoopBuffer, Block, get_free_memory_block, get_use_memory_block, get_free_length,
}
use hudp.LoopBuffer.Contents.{
  IsWf, contents, IsWrapped, IsEmpty, shape, contents-straight, contents_empty, contents_wrapped,
}

-- The bytes that a block of memory has.
abbrev pub bytes_of : Block → List ℕ → List ℕ
bytes_of (none, n) memory = []
bytes_of (some p, n) memory = take n (drop p memory)

-- The two blocks of a buffer that is not empty.
use_wrapped :
    (b : LoopBuffer)
    → IsWrapped b
    → get_use_memory_block b ≡ (
      true,
      (some b.read, b.total_size - b.read),
      ((if ltb 0 b.write then some 0 else none), b.write),
    )
unfolding get_use_memory_block
use_wrapped b h =
    let ge : leb b.write b.read ≡ true = ground (arith, h.0) in
    let there : not b.can_read && (b.write == b.read) ≡ false = ground (arith, h) in
    rw (ge, there) refl

second :
    (w : ℕ) (memory : List ℕ)
    → bytes_of ((if ltb 0 w then some 0 else none), w) memory ≡ take w memory
second zero memory = refl
second (suc w) memory = let e : ltb 0 (suc w) ≡ true = ground arith in rw e refl

-- The two blocks that are handed out for reading hold, one after the other, the bytes that the
-- buffer holds. The blocks for writing have room for as many bytes as there is room in the buffer;
-- with none, the call says so.
pub get_use_memory_block-contents :
    (b : LoopBuffer)
    → IsWf b
    → let (used, u1, u2) = get_use_memory_block b in
      let (free, f1, f2) = get_free_memory_block b in
      (bytes_of u1 b.memory ++ bytes_of u2 b.memory ≡ contents b)
      × (f1.1 + f2.1 ≡ get_free_length b)
      × (free ≡ false → get_free_length b ≡ 0)
unfolding get_use_memory_block get_free_memory_block get_free_length
get_use_memory_block-contents b v = (used (shape b), ground (arith, v), ground (arith, v))
  where
    used :
        (b.read < b.write) ⊎ (IsEmpty b ⊎ IsWrapped b)
        → let (used, u1, u2) = get_use_memory_block b in
          bytes_of u1 b.memory ++ bytes_of u2 b.memory ≡ contents b
    used (inl h) =
        let lt : leb b.write b.read ≡ false = ground (arith, h) in
        rw lt (
          append-nil (take (b.write - b.read) (drop b.read b.memory)) ∙ sym (contents-straight b h))
    used (inr (inl h)) =
        let ge : leb b.write b.read ≡ true = ground (arith, h) in
        let no : not b.can_read && (b.write == b.read) ≡ true = ground (arith, h) in
        rw (ge, no) (sym (contents_empty b h))
    used (inr (inr h)) = rw (use_wrapped b h) (
        ap₂ ◌++◌
          (take_long (b.total_size - b.read) (drop b.read b.memory)
            (omega (arith, length-drop b.read b.memory, v)))
          (second b.write b.memory)
        ∙ sym (contents_wrapped b h))
