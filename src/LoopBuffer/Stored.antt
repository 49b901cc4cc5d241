-- ===== src/LoopBuffer/Stored.antt =====
-- What the writes of base/LoopBuffer.cpp leave in the block, in the order that it is read in.
use hudp.Common.{
  ℕ, ◌+◌, ◌-◌, ◌≤◌, ◌<◌, ◌≡◌, ◌∙◌, refl, sym, ap, ap₂, Bool, true, false, List, [], ◌++◌,
  append-nil, append_assoc, ◌∷◌, take, drop, length, overwrite, length-overwrite, take-overwrite,
  overwrite-front, length-drop, take_long, drop_long, take-append_ge, drop-overwrite_le,
  drop-overwrite_ge, take-overwrite_le, arith,
}
use hudp.LoopBuffer.{LoopBuffer}
use hudp.LoopBuffer.Contents.{
  IsWf, contents, IsWrapped, contents-straight, contents_empty, contents_wrapped,
}

abbrev part : LoopBuffer → List ℕ
part b = take (b.write - b.read) (drop b.read b.memory)

-- The bytes that stand from the read pointer on after a write up to the end of the block.
drop-overwrite_tail :
    (b : LoopBuffer) (s : List ℕ)
    → IsWf b
    → b.read < b.write
    → b.write + length s ≡ b.total_size
    → drop b.read (overwrite b.memory b.write s) ≡ part b ++ s
drop-overwrite_tail b s v h e =
    let mem = drop b.read b.memory in
    let i = b.write - b.read in
    let l : length mem ≡ b.total_size - b.read = omega (arith, length-drop b.read b.memory, v) in
    drop-overwrite_le b.read b.memory b.write s (omega (arith, h))
    ∙ (sym (
          take_long (i + length s) (overwrite mem i s)
            (omega (arith, length-overwrite mem i s, l, e, h)))
        ∙ take-overwrite mem i s (omega (arith, l, e, h)))

pub straight_fits :
    (str : List ℕ) (b : LoopBuffer)
    → IsWf b
    → b.read < b.write
    → b.write + length str ≤ b.total_size
    → let c : LoopBuffer = record b {
      memory = overwrite b.memory b.write str;
      write = b.write + length str;
    } in
      contents c ≡ contents b ++ str
straight_fits str b v h l =
    let mem = drop b.read b.memory in
    let i = b.write - b.read in
    let c : LoopBuffer = record b {
      memory = overwrite b.memory b.write str;
      write = b.write + length str;
    } in
    let n : length mem ≡ b.total_size - b.read = omega (arith, length-drop b.read b.memory, v) in
    contents-straight c (omega (arith, h))
    ∙ (ap (take (b.write + length str - b.read))
          (drop-overwrite_le b.read b.memory b.write str (omega (arith, h)))
        ∙ (ap (λ k. take k (overwrite mem i str)) {x = b.write + length str - b.read}
              {y = i + length str} (omega (arith, h))
            ∙ (take-overwrite mem i str (omega (arith, n, h, l))
                ∙ ap (λ t. t ++ str) (sym (contents-straight b h)))))

-- The write goes round the end of the block.
pub straight_round :
    (s1 s2 : List ℕ) (can_read : Bool) (b : LoopBuffer)
    → IsWf b
    → b.read < b.write
    → b.write + length s1 ≡ b.total_size
    → length s2 ≤ b.read
    → (length s2 ≡ b.read → can_read ≡ true)
    → let c : LoopBuffer = record b {
      memory = overwrite (overwrite b.memory b.write s1) 0 s2;
      write = length s2;
      can_read = can_read;
    } in
      contents c ≡ contents b ++ (s1 ++ s2)
straight_round s1 s2 can_read b v h e l full =
    let first = overwrite b.memory b.write s1 in
    let c : LoopBuffer = record b {
      memory = overwrite first 0 s2;
      write = length s2;
      can_read = can_read;
    } in
    let n : length first ≡ b.total_size = omega (arith, length-overwrite b.memory b.write s1, v) in
    contents_wrapped c (l, ground (arith, full))
    ∙ (ap₂ ◌++◌
          (drop-overwrite_ge b.read first 0 s2 (omega (arith, l)) ∙ drop-overwrite_tail b s1 v h e)
          (ap (λ k. take k (overwrite first 0 s2)) {x = length s2} {y = 0 + length s2} (omega arith)
            ∙ take-overwrite first 0 s2 (omega (arith, n, l, v)))
        ∙ (append_assoc (part b) s1 s2 ∙ ap (λ t. t ++ (s1 ++ s2)) (sym (contents-straight b h))))

-- Not all fits: the read pointer is moved to the write pointer, in place of the other way round.
pub straight_over :
    (s1 s2 : List ℕ) (b : LoopBuffer)
    → IsWf b
    → b.read < b.write
    → b.write + length s1 ≡ b.total_size
    → length s2 ≡ b.read
    → let c : LoopBuffer = record b {
      memory = overwrite (overwrite b.memory b.write s1) 0 s2;
      read = b.write;
      can_read = true;
    } in
      contents c ≡ (s1 ++ s2) ++ contents b
straight_over s1 s2 b v h e l =
    let first = overwrite b.memory b.write s1 in
    let second = overwrite first 0 s2 in
    let c : LoopBuffer = record b { memory = second; read = b.write; can_read = true } in
    let n : length first ≡ b.total_size = omega (arith, length-overwrite b.memory b.write s1, v) in
    let mem = drop b.write b.memory in
    let m : length mem ≡ length s1 = omega (arith, length-drop b.write b.memory, v, e) in
    let i = b.write - b.read in
    contents_wrapped c (omega arith, refl)
    ∙ (ap₂ ◌++◌
          (drop-overwrite_ge b.write first 0 s2 (omega (arith, l, h))
            ∙ (drop-overwrite_le b.write b.memory b.write s1 (omega arith)
                ∙ (ap (λ k. overwrite mem k s1) {x = b.write - b.write} {y = 0} (omega arith)
                    ∙ (overwrite-front mem s1 (omega (arith, m))
                        ∙ (ap (λ t. s1 ++ t) (drop_long (length s1) mem (omega (arith, m)))
                            ∙ append-nil s1)))))
          (ap (take b.write) (overwrite-front first s2 (omega (arith, n, l, v)))
            ∙ (take-append_ge b.write s2 (drop (length s2) first) (omega (arith, l, h))
                ∙ ap (λ t. s2 ++ t)
                    (ap (λ k. take (b.write - k) (drop k first)) l
                      ∙ (ap (take i)
                            (drop-overwrite_le b.read b.memory b.write s1 (omega (arith, h)))
                          ∙ (take-overwrite_le i (drop b.read b.memory) i s1 (omega arith)
                              ∙ sym (contents-straight b h))))))
        ∙ sym (append_assoc s1 s2 (contents b)))

pub wrapped_fits :
    (s : List ℕ) (can_read : Bool) (b : LoopBuffer)
    → IsWf b
    → IsWrapped b
    → b.write + length s ≤ b.read
    → (b.write + length s ≡ b.read → can_read ≡ true)
    → let c : LoopBuffer = record b {
      memory = overwrite b.memory b.write s;
      write = b.write + length s;
      can_read = can_read;
    } in
      contents c ≡ contents b ++ s
wrapped_fits s can_read b v h l full =
    let c : LoopBuffer = record b {
      memory = overwrite b.memory b.write s;
      write = b.write + length s;
      can_read = can_read;
    } in
    contents_wrapped c (l, ground (arith, full))
    ∙ (ap₂ ◌++◌ (drop-overwrite_ge b.read b.memory b.write s l)
          (take-overwrite b.memory b.write s (omega (arith, v, l)))
        ∙ (sym (append_assoc (drop b.read b.memory) (take b.write b.memory) s)
            ∙ ap (λ t. t ++ s) (sym (contents_wrapped b h))))

-- The block is filled from its start.
pub filled :
    (s : List ℕ) (b : LoopBuffer)
    → length s ≡ length b.memory
    → contents (record b { memory = overwrite b.memory 0 s; read = 0; write = 0; can_read = true })
      ≡ s
filled s b e =
    let c : LoopBuffer = record b {
      memory = overwrite b.memory 0 s;
      read = 0;
      write = 0;
      can_read = true;
    } in
    contents_wrapped c (omega arith, refl)
    ∙ (append-nil (overwrite b.memory 0 s)
        ∙ (overwrite-front b.memory s (omega (arith, e))
            ∙ (ap (λ t. s ++ t) (drop_long (length s) b.memory (omega (arith, e))) ∙ append-nil s)))

pub started :
    (s : List ℕ) (b : LoopBuffer)
    → length s ≤ length b.memory
    → contents (record b {
      memory = overwrite b.memory 0 s;
      read = 0;
      write = 0 + length s;
      can_read = false;
    })
      ≡ s
started [] b e =
    contents_empty
      (record b { memory = overwrite b.memory 0 []; read = 0; write = 0 + 0; can_read = false })
      (refl, omega arith)
started (x ∷ s) b e =
    let m = overwrite b.memory 0 (x ∷ s) in
    let n = length (x ∷ s) in
    contents-straight (record b { memory = m; read = 0; write = 0 + n; can_read = false })
      (omega arith)
    ∙ (ap (λ k. take k m) {x = 0 + n - 0} {y = 0 + n} (omega arith)
        ∙ take-overwrite b.memory 0 (x ∷ s) (omega (arith, e)))
