-- ===== src/LoopBuffer/Contents.antt =====
-- The bytes that the circular buffer of base/LoopBuffer.cpp holds, in the order they are read in.
use hudp.Common.{
  ℕ, ◌+◌, ◌-◌, ◌≤◌, ◌<◌, ◌≡◌, ◌⊎◌, inl, inr, false, not, ◌&&◌, List, [], ◌++◌, if◌then◌else◌, ltb,
  ◌==◌, take, drop, length, length-append, length-take, length-drop, arith,
}
use hudp.LoopBuffer.{LoopBuffer, get_can_read_length, get_free_length}

-- The two pointers stand in the block or at its end, and the block has the size it is taken for.
abbrev pub IsWf : LoopBuffer → Type 0
IsWf b = (length b.memory ≡ b.total_size) × (b.read ≤ b.total_size) × (b.write ≤ b.total_size)

unfoldable pub contents : LoopBuffer → List ℕ
contents b =
    if ltb b.read b.write
    then take (b.write - b.read) (drop b.read b.memory)
    else if not b.can_read && (b.read == b.write)
    then []
    else drop b.read b.memory ++ take b.write b.memory

-- The bytes go round the end of the block.
abbrev pub IsWrapped : LoopBuffer → Type 0
IsWrapped b = (b.write ≤ b.read) × (not b.can_read && (b.read == b.write) ≡ false)

abbrev pub IsEmpty : LoopBuffer → Type 0
IsEmpty b = (b.can_read ≡ false) × (b.read ≡ b.write)

pub shape : (b : LoopBuffer) → (b.read < b.write) ⊎ (IsEmpty b ⊎ IsWrapped b)
shape b = ground arith

pub contents-straight :
    (b : LoopBuffer)
    → b.read < b.write
    → contents b ≡ take (b.write - b.read) (drop b.read b.memory)
unfolding contents
contents-straight b h = ground (arith, h)

pub contents_empty : (b : LoopBuffer) → IsEmpty b → contents b ≡ []
unfolding contents
contents_empty b h = ground (arith, h)

pub contents_wrapped :
    (b : LoopBuffer) → IsWrapped b → contents b ≡ drop b.read b.memory ++ take b.write b.memory
unfolding contents
contents_wrapped b h = ground (arith, h)

pub length-contents_straight :
    (b : LoopBuffer) → IsWf b → b.read < b.write → length (contents b) ≡ b.write - b.read
length-contents_straight b v h = rw (contents-straight b h) (
    omega (
      arith,
      length-take (b.write - b.read) (drop b.read b.memory),
      length-drop b.read b.memory,
      v,
      h,
    ))

pub length-contents_wrapped :
    (b : LoopBuffer)
    → IsWf b
    → IsWrapped b
    → length (contents b) ≡ (b.total_size - b.read) + b.write
length-contents_wrapped b v h =
    rw
      (
        contents_wrapped b h,
        length-append (drop b.read b.memory) (take b.write b.memory),
        length-drop b.read b.memory,
        length-take b.write b.memory,
        v.0,
      )
      (omega (arith, v))

-- `GetCanReadLength` is the number of the bytes that are held, and with `GetFreeLength` it makes up
-- the size of the block.
pub get_can_read_length-contents :
    (b : LoopBuffer)
    → IsWf b
    → (get_can_read_length b ≡ length (contents b))
      × (get_can_read_length b + get_free_length b ≡ b.total_size)
unfolding get_can_read_length get_free_length
get_can_read_length-contents b v = elim (shape b) [
  | inl h ↦ ground (arith, h, v, length-contents_straight b v h)
  | inr (inl h) ↦ rw (contents_empty b h) (ground (arith, h, v))
  | inr (inr h) ↦ ground (arith, h, v, length-contents_wrapped b v h)
]
