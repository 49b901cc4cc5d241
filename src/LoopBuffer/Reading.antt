-- ===== src/LoopBuffer/Reading.antt =====
-- Reading from the circular buffer of base/LoopBuffer.cpp takes the oldest bytes.
use hudp.Common.{
  ℕ, ◌+◌, ◌-◌, ◌≤◌, ◌<◌, ◌≡◌, ◌∙◌, inl, inr, refl, sym, ap, Bool, true, false, List, [], ◌++◌,
  if◌then◌else◌, leb, ltb, not, ◌&&◌, ◌==◌, Bool-cases, take, drop, length, length-take,
  length-drop, take_long, drop_long, take-take, drop-take, take-append_le, take-append_ge,
  drop-append_le, drop-append_ge, drop-drop, arith,
}
use hudp.LoopBuffer.{LoopBuffer, read_bytes, reset}
use hudp.LoopBuffer.Contents.{
  IsWf, contents, IsWrapped, IsEmpty, shape, contents-straight, contents_empty, contents_wrapped,
  length-contents_straight, length-contents_wrapped,
}

-- What a read of `len` bytes promises of what it answers.
pub record Reads (len : ℕ) (clear : Bool) (b : LoopBuffer) (r : List ℕ × ℕ × LoopBuffer)
    : Type 0 where
  pub bytes : r.0 ≡ take len (contents b)
  pub count : r.1 ≡ length r.0
  pub rest : contents r.2 ≡ (if clear then drop len (contents b) else contents b)
  pub whole : IsWf r.2

reset_lem : (b : LoopBuffer) → IsWf b → (contents (reset b) ≡ []) × IsWf (reset b)
reset_lem b v = (contents_empty (reset b) (refl, refl), (v.0, omega arith, omega arith))

-- All that is held is read.
all-Reads :
    (len n : ℕ) (clear : Bool) (res : List ℕ) (b : LoopBuffer)
    → IsWf b
    → res ≡ contents b
    → length (contents b) ≡ n
    → n ≤ len
    → Reads len clear b (res, n, (if clear then reset b else b))
all-Reads len n clear res b v e l h = record {
  bytes = e ∙ sym (take_long len (contents b) (omega (arith, l, h)));
  count = sym (ap length e ∙ l);
  rest = rest clear;
  whole = whole clear;
}
  where
    rest :
        (clear : Bool)
        → contents (if clear then reset b else b)
          ≡ (if clear then drop len (contents b) else contents b)
    rest true = (reset_lem b v).0 ∙ sym (drop_long len (contents b) (omega (arith, l, h)))
    rest false = refl

    whole : (clear : Bool) → IsWf (if clear then reset b else b)
    whole true = (reset_lem b v).1
    whole false = v

-- A part is read; the pointer moves to `at`.
part-Reads :
    (len at : ℕ) (clear : Bool) (res : List ℕ) (b : LoopBuffer)
    → IsWf b
    → res ≡ take len (contents b)
    → len ≤ length (contents b)
    → contents (record b { read = at }) ≡ drop len (contents b)
    → at ≤ b.total_size
    → Reads len clear b (res, len, (if clear then record b { read = at } else b))
part-Reads len at clear res b v e l d h = record {
  bytes = e;
  count = sym (ap length e ∙ (length-take len (contents b) ∙ omega (arith, l)));
  rest = rest clear;
  whole = whole clear;
}
  where
    rest :
        (clear : Bool)
        → contents (if clear then record b { read = at } else b)
          ≡ (if clear then drop len (contents b) else contents b)
    rest true = d
    rest false = refl

    whole : (clear : Bool) → IsWf (if clear then record b { read = at } else b)
    whole true = (v.0, h, v.2)
    whole false = v

straight_rest :
    (len : ℕ) (b : LoopBuffer)
    → b.read < b.write
    → len < b.write - b.read
    → contents (record b { read = b.read + len }) ≡ drop len (contents b)
straight_rest len b h l =
    contents-straight (record b { read = b.read + len }) (omega (arith, h, l))
    ∙ (ap (λ t. take (b.write - (b.read + len)) t) (sym (drop-drop len b.read b.memory))
        ∙ (ap (λ n. take n (drop len (drop b.read b.memory))) {x = b.write - (b.read + len)}
              {y = (b.write - b.read) - len} (omega arith)
            ∙ (sym (drop-take len (b.write - b.read) (drop b.read b.memory))
                ∙ ap (drop len) (sym (contents-straight b h)))))

-- The part in front of the end of the block is not yet used up.
near_rest :
    (len : ℕ) (b : LoopBuffer)
    → IsWf b
    → IsWrapped b
    → len ≤ b.total_size - b.read
    → contents (record b { read = b.read + len }) ≡ drop len (contents b)
near_rest len b v h l =
    let c : LoopBuffer = record b { read = b.read + len } in
    contents_wrapped c (ground (arith, h))
    ∙ (ap (λ t. t ++ take b.write b.memory) (sym (drop-drop len b.read b.memory))
        ∙ (sym (
              drop-append_le len (drop b.read b.memory) (take b.write b.memory)
                (omega (arith, length-drop b.read b.memory, v, l)))
            ∙ ap (drop len) (sym (contents_wrapped b h))))

far_rest :
    (len : ℕ) (b : LoopBuffer)
    → IsWf b
    → IsWrapped b
    → b.total_size - b.read < len
    → len < b.write + (b.total_size - b.read)
    → contents (record b { read = len - (b.total_size - b.read) }) ≡ drop len (contents b)
far_rest len b v h l k =
    let left = len - (b.total_size - b.read) in
    let c : LoopBuffer = record b { read = left } in
    let front = length-drop b.read b.memory in
    contents-straight c (omega (arith, l, k))
    ∙ (sym (drop-take left b.write b.memory)
        ∙ (ap (λ n. drop n (take b.write b.memory)) {x = left}
              {y = len - length (drop b.read b.memory)} (omega (arith, front, v))
            ∙ (sym (
                  drop-append_ge len (drop b.read b.memory) (take b.write b.memory)
                    (omega (arith, front, v, l)))
                ∙ ap (drop len) (sym (contents_wrapped b h)))))

straight-Reads :
    (len : ℕ) (clear : Bool) (b : LoopBuffer)
    → IsWf b
    → b.read < b.write
    → Reads len clear b (read_bytes len clear b)
unfolding read_bytes
straight-Reads len clear b v h =
    let size = b.write - b.read in
    let mem = drop b.read b.memory in
    let n = length-contents_straight b v h in
    let lt : ltb b.read b.write ≡ true = ground (arith, h) in
    elim (Bool-cases (leb size len)) [
      | inl e ↦
          rw (lt, e)
            (all-Reads len size clear (take size mem) b v (sym (contents-straight b h)) n
              (ground (arith, e)))
      | inr e ↦
          let below : len < size = ground (arith, e) in
          rw (lt, e)
            (part-Reads len (b.read + len) clear (take len mem) b v
              (sym (take-take len size mem (omega (arith, below)))
                ∙ ap (take len) (sym (contents-straight b h)))
              (omega (arith, n, below)) (straight_rest len b h below) (omega (arith, below, v, h)))
    ]

wrapped-Reads :
    (len : ℕ) (clear : Bool) (b : LoopBuffer)
    → IsWf b
    → IsWrapped b
    → Reads len clear b (read_bytes len clear b)
unfolding read_bytes
wrapped-Reads len clear b v h =
    let size_end = b.total_size - b.read in
    let both = b.write + size_end in
    let mem = drop b.read b.memory in
    let front = length-drop b.read b.memory in
    let all = sym (contents_wrapped b h) in
    let n : length (contents b) ≡ both = omega (arith, length-contents_wrapped b v h) in
    let ge : ltb b.read b.write ≡ false = ground (arith, h.0) in
    let end : take size_end mem ≡ mem = take_long size_end mem (omega (arith, front, v)) in
    elim (Bool-cases (leb both len)) [
      | inl e ↦
          rw (ge, h.1, e)
            (all-Reads len both clear (take size_end mem ++ take b.write b.memory) b v
              (ap (λ t. t ++ take b.write b.memory) end ∙ all) n (ground (arith, e)))
      | inr e ↦ elim (Bool-cases (leb len size_end)) [
        | inl f ↦
            let near : len ≤ size_end = ground (arith, f) in
            rw (ge, h.1, e, f)
              (part-Reads len (b.read + len) clear (take len mem) b v
                (sym
                    (take-append_le len mem (take b.write b.memory) (omega (arith, front, v, near)))
                  ∙ ap (take len) all)
                (omega (arith, n, near)) (near_rest len b v h near) (omega (arith, near, v)))
        | inr f ↦
            let far : size_end < len = ground (arith, f) in
            let below : len < both = ground (arith, e) in
            let left = len - size_end in
            rw (ge, h.1, e, f)
              (part-Reads len left clear (take size_end mem ++ take left b.memory) b v
                (ap (λ t. t ++ take left b.memory) end
                  ∙ (ap (λ t. mem ++ t)
                        (sym (take-take left b.write b.memory (omega (arith, far, below)))
                          ∙ ap (λ k. take k (take b.write b.memory)) {x = left}
                              {y = len - length mem} (omega (arith, front, v)))
                      ∙ (sym (
                            take-append_ge len mem (take b.write b.memory)
                              (omega (arith, front, v, far)))
                          ∙ ap (take len) all)))
                (omega (arith, n, below)) (far_rest len b v h far below)
                (omega (arith, far, below, v)))
      ]
    ]

empty-Reads :
    (len : ℕ) (clear : Bool) (b : LoopBuffer)
    → IsWf b
    → IsEmpty b
    → Reads len clear b (read_bytes len clear b)
unfolding read_bytes
empty-Reads len clear b v h =
    let nothing = contents_empty b h in
    let ge : ltb b.read b.write ≡ false = ground (arith, h.1) in
    let no : not b.can_read && (b.read == b.write) ≡ true = ground (arith, h) in
    rw (ge, no)
      (record {
        bytes = sym (ap (take len) nothing ∙ take_long len [] (omega arith));
        count = refl;
        rest = rest clear;
        whole = v;
      })
  where
    rest : (clear : Bool) → contents b ≡ (if clear then drop len (contents b) else contents b)
    rest true =
        let e = contents_empty b h in e ∙ sym (ap (drop len) e ∙ drop_long len [] (omega arith))
    rest false = refl

-- On every well-formed buffer a read of any number of bytes answers the oldest bytes that are held,
-- as many as were asked for and are there, with their number; a read that clears leaves just the
-- rest of them, and one that does not clear leaves what was held. The buffer stays well-formed.
pub read_bytes-Reads :
    (len : ℕ) (clear : Bool) (b : LoopBuffer) → IsWf b → Reads len clear b (read_bytes len clear b)
read_bytes-Reads len clear b v = elim (shape b) [
  | inl h ↦ straight-Reads len clear b v h
  | inr (inl h) ↦ empty-Reads len clear b v h
  | inr (inr h) ↦ wrapped-Reads len clear b v h
]
