-- ===== src/Buffer/Reading.antt =====
-- Reading from the chain of base/Buffer.cpp.
use hudp.Common.{
  ℕ, zero, suc, ◌+◌, ◌-◌, ◌≤◌, ◌<◌, ◌≡◌, ◌∙◌, inl, inr, refl, sym, ap, subst, true, List, [], ◌∷◌,
  ◌++◌, leb, leb→le, Bool-cases, min, drop, length, length-append, length-take, length-drop,
  drop_long, drop-append_le, drop-append_ge, append-nil, arith,
}
use hudp.LoopBuffer.{LoopBuffer, read_bytes}
use hudp.LoopBuffer.Contents.{IsWf, contents}
use hudp.LoopBuffer.Reading.{read_bytes-Reads}
use hudp.Buffer.{Buffer, put_front, read_nodes, read, can_read_length}
use hudp.Buffer.Chain.{held, IsValid, AllEmpty-IsValid, can_read_nodes-held}

-- What a read promises that has `cur_len` bytes already and asks for `len`.
record Takes (len cur_len : ℕ) (q : List ℕ) (r : List ℕ × ℕ × Buffer) : Type 0 where
  count : r.1 ≡ cur_len + min (len - cur_len) (length q)
  rest : held r.2.nodes r.2.write ≡ drop (len - cur_len) q
  valid : IsValid r.2.nodes r.2.write

-- The nodes behind the one that is read.
abbrev behind : List LoopBuffer → ℕ → List ℕ
behind bs zero = []
behind bs (suc write) = held bs write

held-behind :
    (b : LoopBuffer) (bs : List LoopBuffer) (write : ℕ)
    → held (b ∷ bs) write ≡ contents b ++ behind bs write
held-behind b bs zero = sym (append-nil (contents b))
held-behind b bs (suc write) = refl

next_valid :
    (b : LoopBuffer) (bs : List LoopBuffer) (write : ℕ)
    → IsValid (b ∷ bs) write
    → IsWf b × IsValid bs (write - 1) × (held bs (write - 1) ≡ behind bs write)
next_valid b bs zero (v, e) = let (w, h) = AllEmpty-IsValid bs e in (v, w, h)
next_valid b bs (suc write) (v, w) =
    let (u, h) =
      subst (λ m. IsValid bs m × (held bs m ≡ held bs write)) {x = write} {y = suc write - 1}
        (omega arith) (w, refl) in
    (v, u, h)

kept :
    (b c : LoopBuffer) (bs : List LoopBuffer) (write : ℕ)
    → IsWf c
    → IsValid (b ∷ bs) write
    → IsValid (c ∷ bs) write
kept b c bs zero w v = (w, v.1)
kept b c bs (suc write) w v = (w, v.1)

read_nodes-Takes :
    (len cur_len : ℕ) (res : List ℕ) (bs : List LoopBuffer) (write end count : ℕ)
    → IsValid bs write
    → Takes len cur_len (held bs write) (read_nodes len cur_len res bs write end count)
unfolding read_nodes
read_nodes-Takes len cur_len res [] write end count v = record {
  count = omega arith;
  rest = sym (drop_long (len - cur_len) [] (omega arith));
  valid = tt;
}
read_nodes-Takes len cur_len res (b ∷ bs) write end count v =
    let want = len - cur_len in
    let (w, next, same) = next_valid b bs write v in
    let r = read_bytes-Reads want true b w in
    let (bytes, n, c) = read_bytes want true b in
    let q = behind bs write in
    let all = held-behind b bs write in
    let n_is : n ≡ min want (length (contents b)) =
      r.count ∙ (ap length r.bytes ∙ length-take want (contents b)) in
    let sizes = ap length all ∙ length-append (contents b) q in
    elim (Bool-cases (leb len (cur_len + n))) [
      | inl e ↦
          let done = leb→le len (cur_len + n) e in
          rw e (record {
            count = omega (arith, done, n_is, sizes);
            rest =
                held-behind c bs write
                ∙ (ap (λ t. t ++ q) r.rest
                    ∙ (sym (drop-append_le want (contents b) q (omega (arith, done, n_is)))
                        ∙ ap (drop want) (sym all)));
            valid = kept b c bs write r.whole v;
          })
      | inr e ↦
          let sum = cur_len + n in
          let put = put_front bytes res in
          let more : sum < len = ground (arith, e) in
          let h = read_nodes-Takes len sum put bs (write - 1) (end - 1) (count - 1) next in
          let l : want - length (contents b) ≡ len - sum = omega (arith, more, n_is) in
          rw e (record {
            count = omega (arith, h.count, ap length same, sizes, n_is, more);
            rest =
                h.rest
                ∙ (ap (drop (len - sum)) same
                    ∙ (ap (λ k. drop k q) (sym l)
                        ∙ (sym (drop-append_ge want (contents b) q (omega (arith, more, n_is)))
                            ∙ ap (drop want) (sym all))));
            valid = h.valid;
          })
    ]

-- A read on a valid chain counts as many bytes as were asked for and are there, leaves just the rest
-- of them in the chain however many nodes it is read over, and the number of bytes that can be read
-- goes down by what it counts. The chain stays valid.
pub read-held :
    (len : ℕ) (res : List ℕ) (b : Buffer)
    → IsValid b.nodes b.write
    → let (out, n, c) = read len res b in
      (n ≡ min len (can_read_length b))
      × (held c.nodes c.write ≡ drop n (held b.nodes b.write))
      × (can_read_length c + n ≡ can_read_length b)
      × IsValid c.nodes c.write
unfolding read
read-held len res b v =
    let (out, n, c) = read len res b in
    let q = held b.nodes b.write in
    let t = read_nodes-Takes len 0 res b.nodes b.write b.end b.buff_count v in
    let all = can_read_nodes-held b.nodes b.write v in
    let left = can_read_nodes-held c.nodes c.write t.valid in
    let n_is : n ≡ min len (length q) = omega (arith, t.count) in
    let rest : held c.nodes c.write ≡ drop n q =
      t.rest ∙ drop_min (len - 0) n q (omega (arith, n_is)) in
    (
      omega (arith, n_is, all),
      rest,
      omega (arith, left, ap length rest, length-drop n q, all, n_is),
      t.valid,
    )
  where
    drop_min : (m n : ℕ) (q : List ℕ) → n ≡ min m (length q) → drop m q ≡ drop n q
    drop_min m n q e = elim (Bool-cases (leb m (length q))) [
      | inl f ↦ ap (λ k. drop k q) {x = m} {y = n} (omega (arith, e, leb→le m (length q) f))
      | inr f ↦
          let long : length q ≤ m = ground (arith, f) in
          drop_long m q long ∙ sym (drop_long n q (omega (arith, e, long)))
    ]
