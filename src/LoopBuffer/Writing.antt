-- ===== src/LoopBuffer/Writing.antt =====
-- Writing to the circular buffer of base/LoopBuffer.cpp.
use hudp.Common.{
  ℕ, ◌+◌, ◌-◌, ◌≤◌, ◌<◌, ◌≡◌, ◌∙◌, inl, inr, refl, sym, ap, Bool, true, false, ◌&&◌, List, [], ◌++◌,
  append-nil, if◌then◌else◌, leb, ltb, ◌==◌, Bool-cases, leb→le, zero, suc, ◌∷◌, min, take, drop,
  length, overwrite, length-overwrite, length-take, length-drop, take_long, take_add, arith,
}
use hudp.LoopBuffer.{LoopBuffer, write_bytes, get_free_length}
use hudp.LoopBuffer.Contents.{IsWf, contents, IsWrapped, IsEmpty, shape, contents_empty}
use hudp.LoopBuffer.Stored.{
  straight_fits, straight_round, straight_over, wrapped_fits, filled, started,
}

-- What a write of a string promises of what it answers: the bytes that fit are taken in, behind
-- what is held, or in front of it where the bytes ran to the end of the block and not all fit.
pub record Writes (str : List ℕ) (b : LoopBuffer) (r : ℕ × LoopBuffer) : Type 0 where
  pub count : r.0 ≡ min (length str) (get_free_length b)
  pub held : contents r.1 ≡ (
      if ltb b.read b.write && ltb (get_free_length b) (length str)
      then take r.0 str ++ contents b
      else contents b ++ take r.0 str)
  pub whole : IsWf r.1

whole_after :
    (m : List ℕ) (read write : ℕ) (can_read : Bool) (b : LoopBuffer)
    → length m ≡ length b.memory
    → IsWf b
    → read ≤ b.total_size
    → write ≤ b.total_size
    → IsWf (record b { memory = m; read = read; write = write; can_read = can_read })
whole_after m read write can_read b e v r w = (e ∙ v.0, r, w)

-- The bytes up to the end of the block and those at its start make up what is taken.
two_parts :
    (str : List ℕ) (n k : ℕ)
    → n + k ≤ length str
    → (length (take n str) ≡ n)
      × (length (take k (drop n str)) ≡ k)
      × (take n str ++ take k (drop n str) ≡ take (n + k) str)
two_parts str n k h = (
  omega (arith, length-take n str, h),
  omega (arith, length-take k (drop n str), length-drop n str, h),
  take_add n k str,
)

free_straight :
    (b : LoopBuffer) → b.read < b.write → get_free_length b ≡ (b.total_size - b.write) + b.read
unfolding get_free_length
free_straight b h = ground (arith, h)

free_wrapped : (b : LoopBuffer) → IsWrapped b → get_free_length b ≡ b.read - b.write
unfolding get_free_length
free_wrapped b h = ground (arith, h)

free_empty : (b : LoopBuffer) → IsEmpty b → get_free_length b ≡ b.total_size
unfolding get_free_length
free_empty b h = ground (arith, h)

-- The bytes are taken in behind those that are held.
behind :
    (str : List ℕ) (n : ℕ) (b c : LoopBuffer)
    → n ≡ min (length str) (get_free_length b)
    → ltb b.read b.write && ltb (get_free_length b) (length str) ≡ false
    → contents c ≡ contents b ++ take n str
    → IsWf c
    → Writes str b (n, c)
behind str n b c e f h v = record { count = e; held = rw f h; whole = v }

-- Nothing is copied to the start of the block where there is no room.
saved :
    (r : ℕ) (first rest : List ℕ)
    → (if ltb 0 r && true then overwrite first 0 (take r rest) else first)
      ≡ overwrite first 0 (take r rest)
saved zero [] rest = refl
saved zero (x ∷ first) rest = refl
saved (suc r) first rest = let e : ltb 0 (suc r) && true ≡ true = ground arith in rw e refl

round-Writes :
    (str : List ℕ) (b : LoopBuffer)
    → IsWf b
    → b.read < b.write
    → b.total_size < b.write + length str
    → length str - (b.total_size - b.write) ≤ b.read
    → Writes str b (write_bytes str (length str) true b)
unfolding write_bytes
round-Writes str b v h big near =
    let len = length str in
    let size_end = b.total_size - b.write in
    let left = len - size_end in
    let s1 = take size_end str in
    let s2 = take left (drop size_end str) in
    let first = overwrite b.memory b.write s1 in
    let (l1, l2, both) = two_parts str size_end left (omega (arith, big, v)) in
    let full : Bool = if left == b.read then true else b.can_read in
    let free = free_straight b h in
    let lt : ltb b.read b.write ≡ true = ground (arith, h) in
    let e : leb (b.write + len) b.total_size ≡ false = ground (arith, big) in
    let f : leb left b.read ≡ true = ground (arith, near) in
    let len_is : size_end + left ≡ len = omega (arith, big, v) in
    rw (lt, e, f)
      (behind str len b _ (omega (arith, free, near, big)) (ground (arith, free, near, big))
        (ap (λ k. contents (record b { memory = overwrite first 0 s2; write = k; can_read = full }))
            (sym l2)
          ∙ (straight_round s1 s2 full b v h (omega (arith, l1, v)) (omega (arith, l2, near))
                (λ q. ground (arith, q, l2))
              ∙ ap (λ t. contents b ++ t) (both ∙ ap (λ k. take k str) len_is)))
        (whole_after _ b.read left full b
          (length-overwrite first 0 s2 ∙ length-overwrite b.memory b.write s1) v v.1
          (omega (arith, near, v))))

over-Writes :
    (str : List ℕ) (b : LoopBuffer)
    → IsWf b
    → b.read < b.write
    → b.total_size < b.write + length str
    → b.read < length str - (b.total_size - b.write)
    → Writes str b (write_bytes str (length str) true b)
unfolding write_bytes
over-Writes str b v h big far =
    let len = length str in
    let size_end = b.total_size - b.write in
    let left = len - size_end in
    let s1 = take size_end str in
    let s2 = take b.read (drop size_end str) in
    let first = overwrite b.memory b.write s1 in
    let (l1, l2, both) = two_parts str size_end b.read (omega (arith, big, far, v)) in
    let free = free_straight b h in
    let lt : ltb b.read b.write ≡ true = ground (arith, h) in
    let e : leb (b.write + len) b.total_size ≡ false = ground (arith, big) in
    let f : leb left b.read ≡ false = ground (arith, far) in
    let over : ltb b.read b.write && ltb (get_free_length b) len ≡ true =
      ground (arith, free, far, h, big) in
    rw (lt, e, f, saved b.read first (drop size_end str))
      (record {
        count = omega (arith, free, far, big);
        held = rw over (
            straight_over s1 s2 b v h (omega (arith, l1, v)) l2
            ∙ ap (λ t. t ++ contents b)
                (both
                  ∙ ap (λ k. take k str) {x = size_end + b.read} {y = b.read + size_end}
                      (omega arith)));
        whole =
            whole_after _ b.write b.write true b
              (length-overwrite first 0 s2 ∙ length-overwrite b.memory b.write s1) v v.2 v.2;
      })

straight-Writes :
    (str : List ℕ) (b : LoopBuffer)
    → IsWf b
    → b.read < b.write
    → Writes str b (write_bytes str (length str) true b)
unfolding write_bytes
straight-Writes str b v h =
    let len = length str in
    let size_end = b.total_size - b.write in
    let left = len - size_end in
    let free = free_straight b h in
    let lt : ltb b.read b.write ≡ true = ground (arith, h) in
    let all : take len str ≡ str = take_long len str (omega arith) in
    elim (Bool-cases (leb (b.write + len) b.total_size)) [
      | inl e ↦
          let fits : b.write + len ≤ b.total_size = ground (arith, e) in
          rw (lt, e, all)
            (behind str len b _ (omega (arith, free, fits)) (ground (arith, free, fits))
              (straight_fits str b v h fits ∙ ap (λ t. contents b ++ t) (sym all))
              (whole_after _ b.read (b.write + len) b.can_read b
                (length-overwrite b.memory b.write str) v v.1 fits))
      | inr e ↦
          let big : b.total_size < b.write + len = ground (arith, e) in
          elim (Bool-cases (leb left b.read)) [
            | inl f ↦ round-Writes str b v h big (ground (arith, f))
            | inr f ↦ over-Writes str b v h big (ground (arith, f))
          ]
    ]

wrapped-Writes :
    (str : List ℕ) (b : LoopBuffer)
    → IsWf b
    → b.write < b.read
    → Writes str b (write_bytes str (length str) true b)
unfolding write_bytes
wrapped-Writes str b v h =
    let len = length str in
    let size = b.read - b.write in
    let w : IsWrapped b = (omega (arith, h), ground (arith, h)) in
    let free = free_wrapped b w in
    let ge : ltb b.read b.write ≡ false = ground (arith, h) in
    let lt : ltb b.write b.read ≡ true = ground (arith, h) in
    let not_over : ltb b.read b.write && ltb (get_free_length b) len ≡ false = rw ge refl in
    let all : take len str ≡ str = take_long len str (omega arith) in
    elim (Bool-cases (leb len size)) [
      | inl e ↦
          let fits : len ≤ size = ground (arith, e) in
          let full : Bool = if b.write + len == b.read then true else b.can_read in
          rw (ge, lt, e, all)
            (behind str len b _ (omega (arith, free, fits)) not_over
              (wrapped_fits str full b v w (omega (arith, fits, h)) (λ q. ground (arith, q))
                ∙ ap (λ t. contents b ++ t) (sym all))
              (whole_after _ b.read (b.write + len) full b (length-overwrite b.memory b.write str) v
                v.1 (omega (arith, fits, h, v))))
      | inr e ↦
          let over : size < len = ground (arith, e) in
          let s = take size str in
          let l : length s ≡ size = omega (arith, length-take size str, over) in
          rw (ge, lt, e)
            (behind str size b _ (omega (arith, free, over)) not_over
              (ap
                  (λ k. contents (record b {
                    memory = overwrite b.memory b.write s;
                    write = b.write + k;
                    can_read = true;
                  }))
                  (sym l)
                ∙ wrapped_fits s true b v w (omega (arith, l, h)) (λ q. refl))
              (whole_after _ b.read (b.write + size) true b (length-overwrite b.memory b.write s) v
                v.1 (omega (arith, h, v))))
    ]

-- The buffer is full, its pointers being the same.
full-Writes :
    (str : List ℕ) (b : LoopBuffer)
    → IsWf b
    → b.read ≡ b.write
    → b.can_read ≡ true
    → Writes str b (write_bytes str (length str) true b)
unfolding write_bytes
full-Writes str b v h c =
    let w : IsWrapped b = (omega (arith, h), ground (arith, c)) in
    let free = free_wrapped b w in
    let ge : ltb b.read b.write ≡ false = ground (arith, h) in
    let le : ltb b.write b.read ≡ false = ground (arith, h) in
    simp (ge, le, c)
      (behind str 0 b b (omega (arith, free, h)) (rw ge refl) (sym (append-nil (contents b))) v)

empty-Writes :
    (str : List ℕ) (b : LoopBuffer)
    → IsWf b
    → IsEmpty b
    → Writes str b (write_bytes str (length str) true b)
unfolding write_bytes
empty-Writes str b v h =
    let len = length str in
    let free = free_empty b h in
    let nothing = contents_empty b h in
    let ge : ltb b.read b.write ≡ false = ground (arith, h) in
    let le : ltb b.write b.read ≡ false = ground (arith, h) in
    let not_over : ltb b.read b.write && ltb (get_free_length b) len ≡ false = rw ge refl in
    let all : take len str ≡ str = take_long len str (omega arith) in
    let held : (t : List ℕ) → t ≡ contents b ++ t = λ t. rw nothing refl in
    elim (Bool-cases (leb b.total_size len)) [
      | inl e ↦
          let n = b.total_size in
          let s = take n str in
          let l : length s ≡ n = omega (arith, length-take n str, leb→le n len e) in
          let c : LoopBuffer = record b {
            memory = overwrite b.memory 0 s;
            read = 0;
            write = 0;
            can_read = true;
          } in
          simp (ge, le, h.0, e)
            (behind str n b c (omega (arith, free, leb→le n len e)) not_over
              (filled s b (omega (arith, l, v)) ∙ held s)
              (whole_after _ 0 0 true b (length-overwrite b.memory 0 s) v (omega arith)
                (omega arith)))
      | inr e ↦
          let below : len < b.total_size = ground (arith, e) in
          let c : LoopBuffer = record b {
            memory = overwrite b.memory 0 str;
            read = 0;
            write = 0 + len;
            can_read = false;
          } in
          simp (ge, le, h.0, e, all)
            (behind str len b c (omega (arith, free, below)) not_over
              (started str b (omega (arith, below, v))
                ∙ (held str ∙ ap (λ t. contents b ++ t) (sym all)))
              (whole_after _ 0 (0 + len) false b (length-overwrite b.memory 0 str) v (omega arith)
                (omega (arith, below))))
    ]

-- A write to a well-formed buffer takes as many bytes as there is room for and tells their number.
pub write_bytes-Writes :
    (str : List ℕ) (b : LoopBuffer) → IsWf b → Writes str b (write_bytes str (length str) true b)
write_bytes-Writes str b v = elim (shape b) [
  | inl h ↦ straight-Writes str b v h
  | inr (inl h) ↦ empty-Writes str b v h
  | inr (inr h) ↦ elim (Bool-cases (ltb b.write b.read)) [
    | inl e ↦ wrapped-Writes str b v (ground (arith, e))
    | inr e ↦ full-Writes str b v (ground (arith, e, h)) (ground (arith, e, h))
  ]
]
