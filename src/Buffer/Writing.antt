-- ===== src/Buffer/Writing.antt =====
-- Writing to the chain of base/Buffer.cpp.
use hudp.Common.{
  ℕ, zero, suc, ◌+◌, ◌≤◌, ◌<◌, ◌≡◌, ◌∙◌, inl, inr, refl, sym, ap, ap₂, subst, Bool, true, false,
  List, [], ◌∷◌, ◌++◌, leb, leb→le, ltb, ◌&&◌, Bool-cases, take, drop, length, length-append,
  length-drop, take_long, take-append-drop, append_assoc, arith, if◌then◌else◌,
}
use hudp.LoopBuffer.{LoopBuffer, write_bytes, new_loop_buffer, get_free_length}
use hudp.LoopBuffer.Contents.{IsWf, IsEmpty, contents, contents_empty}
use hudp.LoopBuffer.Writing.{write_bytes-Writes}
use hudp.Buffer.{Buffer, Written, grow, fill, write_nodes, write, can_read_length}
use hudp.Buffer.Chain.{held, AllEmpty, IsValid, can_read_nodes-held}

-- What is written from a node on: all of a string, behind what the node holds unless that is
-- disturbed.
record Puts (disturbed : Bool) (str kept : List ℕ) (r : Written) : Type 0 where
  count : r.2 ≡ length str
  size : length (held r.0 r.1) ≡ length kept + length str
  bytes : disturbed ≡ false → held r.0 r.1 ≡ kept ++ str
  valid : IsValid r.0 r.1

-- The node to write to has its bytes in one piece, the read pointer before the write pointer, and less
-- room than a string needs.
abbrev pub disturbs : List LoopBuffer → ℕ → List ℕ → Bool
disturbs [] write str = false
disturbs (b ∷ bs) zero str = ltb b.read b.write && ltb (get_free_length b) (length str)
disturbs (b ∷ bs) (suc write) str = disturbs bs write str

empty_calm : (b : LoopBuffer) (n : ℕ) → IsEmpty b → ltb b.read b.write && ltb n n ≡ false
empty_calm b n e = ground (arith, e)

length-either :
    (d : Bool) (new old : List ℕ)
    → length (if d then new ++ old else old ++ new) ≡ length old + length new
length-either true new old = omega (arith, length-append new old)
length-either false new old = length-append old new

-- One round of the loop, with what the rest of it does.
round-Puts :
    (str : List ℕ) (b : LoopBuffer) (behind : List LoopBuffer) (rest : Written) (count : ℕ)
    → IsWf b
    → AllEmpty behind
    → (let n = (write_bytes str (length str) true b).0 in
        n < length str → Puts false (drop n str) [] rest)
    → let (n, c) = write_bytes str (length str) true b in
      let disturbed = ltb b.read b.write && ltb (get_free_length b) (length str) in
      Puts disturbed str (contents b) (
        if leb (length str) n
        then (c ∷ behind, 0, n, count)
        else (c ∷ rest.0, suc rest.1, n + rest.2, rest.3))
round-Puts str b behind rest count v e more =
    let w = write_bytes-Writes str b v in
    let (n, c) = write_bytes str (length str) true b in
    let disturbed = ltb b.read b.write && ltb (get_free_length b) (length str) in
    let bytes : disturbed ≡ false → contents c ≡ contents b ++ take n str = λ calm.
      w.held ∙ ap (λ d. if d then take n str ++ contents b else contents b ++ take n str) calm in
    let size : length (contents c) ≡ length (contents b) + length (take n str) =
      ap length w.held ∙ length-either disturbed (take n str) (contents b) in
    elim (Bool-cases (leb (length str) n)) [
      | inl f ↦
          let all = leb→le (length str) n f in
          rw f (record {
            count = omega (arith, all, w.count);
            size = omega (arith, size, ap length (take_long n str all));
            bytes = λ calm. bytes calm ∙ ap (λ t. contents b ++ t) (take_long n str all);
            valid = (w.whole, e);
          })
      | inr f ↦
          let p = more (ground (arith, f)) in
          rw f (record {
            count = omega (arith, p.count, length-drop n str, w.count);
            size =
                length-append (contents c) (held rest.0 rest.1)
                ∙ omega (
                  arith,
                  size,
                  p.size,
                  ap length (take-append-drop n str),
                  length-append (take n str) (drop n str),
                );
            bytes = λ calm.
                ap₂ ◌++◌ (bytes calm) (p.bytes refl)
                ∙ (append_assoc (contents b) (take n str) (drop n str)
                    ∙ ap (λ t. contents b ++ t) (take-append-drop n str));
            valid = (w.whole, p.valid);
          })
    ]

-- What is not disturbed.
calmed :
    {d : Bool} {str kept : List ℕ} {r : Written}
    → d ≡ false
    → Puts d str kept r
    → Puts false str kept r
calmed calm p = record {
  count = p.count;
  size = p.size;
  bytes = λ h. p.bytes calm;
  valid = p.valid;
}

free_new : (total : ℕ) (memory : List ℕ) → get_free_length (new_loop_buffer total memory) ≡ total
unfolding get_free_length
free_new total memory = refl

module _ (total_size : ℕ) (memory : ℕ → List ℕ) where
  grow-Puts :
      (fuel : ℕ) (str : List ℕ) (count : ℕ)
      → ((k : ℕ) → length (memory k) ≡ total_size)
      → 1 ≤ total_size
      → length str < fuel
      → Puts false str [] (grow total_size memory fuel str count)
  unfolding grow
  grow-Puts zero str count sizes one h = absurd (omega (arith, h))
  grow-Puts (suc fuel) str count sizes one h =
      let b = new_loop_buffer total_size (memory count) in
      let v : IsWf b = (sizes count, omega arith, omega arith) in
      let n = (write_bytes str (length str) true b).0 in
      let w = write_bytes-Writes str b v in
      let p =
        round-Puts str b [] (grow total_size memory fuel (drop n str) (count + 1)) (count + 1) v tt
          (λ l. grow-Puts fuel (drop n str) (count + 1) sizes one (
            omega (
              arith,
              l,
              h,
              length-drop n str,
              w.count,
              free_new total_size (memory count),
              one,
            ))) in
      subst (λ k. Puts false str k (grow total_size memory (suc fuel) str count))
        (contents_empty b (refl, refl)) p

  fill-Puts :
      (str : List ℕ) (bs : List LoopBuffer) (count : ℕ)
      → ((k : ℕ) → length (memory k) ≡ total_size)
      → 1 ≤ total_size
      → AllEmpty bs
      → Puts false str [] (fill total_size memory str bs count)
  unfolding fill
  fill-Puts str [] count sizes one e =
      grow-Puts (suc (length str)) str count sizes one (omega arith)
  fill-Puts str (b ∷ bs) count sizes one (v, e, h) =
      let n = (write_bytes str (length str) true b).0 in
      let p =
        round-Puts str b bs (fill total_size memory (drop n str) bs count) count v h
          (λ l. fill-Puts (drop n str) bs count sizes one h) in
      subst (λ k. Puts false str k (fill total_size memory str (b ∷ bs) count)) (contents_empty b e)
        (calmed (ground (arith, e)) p)

  write_nodes-Puts :
      (str : List ℕ) (bs : List LoopBuffer) (write count : ℕ)
      → ((k : ℕ) → length (memory k) ≡ total_size)
      → 1 ≤ total_size
      → IsValid bs write
      → Puts
          (disturbs bs write str)
          str
          (held bs write)
          (write_nodes total_size memory str bs write count)
  unfolding write_nodes fill
  write_nodes-Puts str [] zero count sizes one v = fill-Puts str [] count sizes one tt
  write_nodes-Puts str [] (suc write) count sizes one v = fill-Puts str [] count sizes one tt
  write_nodes-Puts str (b ∷ bs) zero count sizes one v =
      let n = (write_bytes str (length str) true b).0 in
      round-Puts str b bs (fill total_size memory (drop n str) bs count) count v.0 v.1
        (λ l. fill-Puts (drop n str) bs count sizes one v.1)
  write_nodes-Puts str (b ∷ bs) (suc write) count sizes one v =
      let p = write_nodes-Puts str bs write count sizes one v.1 in
      let n = write_nodes total_size memory str bs write count in
      record {
        count = p.count;
        size =
            length-append (contents b) (held n.0 n.1)
            ∙ omega (arith, p.size, length-append (contents b) (held bs write));
        bytes = λ calm.
            ap (λ t. contents b ++ t) (p.bytes calm)
            ∙ sym (append_assoc (contents b) (held bs write) str);
        valid = (v.0, p.valid);
      }

  -- Where the blocks of the pool have a byte or more, a write to a valid chain comes to an end and
  -- takes in the whole string, on as many new nodes as it needs; the number of bytes that can be read
  -- goes up by its length and the chain stays valid. The string stands behind the bytes that were held,
  -- unless the node to write to has its bytes in one piece, with the read pointer before the write
  -- pointer, and less room than the string needs; in that case nothing is said of the order.
  pub write-held :
      (str : List ℕ) (b : Buffer)
      → ((k : ℕ) → length (memory k) ≡ total_size)
      → 1 ≤ total_size
      → IsValid b.nodes b.write
      → let (n, c) = write total_size memory str b in
        (n ≡ length str)
        × (can_read_length c ≡ can_read_length b + length str)
        × IsValid c.nodes c.write
        × (disturbs b.nodes b.write str ≡ false
            → held c.nodes c.write ≡ held b.nodes b.write ++ str)
  unfolding write
  write-held str b sizes one v =
      let p = write_nodes-Puts str b.nodes b.write b.buff_count sizes one v in
      let (n, c) = write total_size memory str b in
      (
        p.count,
        omega (
          arith,
          can_read_nodes-held c.nodes c.write p.valid,
          can_read_nodes-held b.nodes b.write v,
          p.size,
        ),
        p.valid,
        p.bytes,
      )
