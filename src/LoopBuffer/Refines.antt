-- ===== src/LoopBuffer/Refines.antt =====
-- The circular buffer of base/LoopBuffer.cpp does what a queue of bytes does.
use hudp.Common.{
  ℕ, ◌+◌, ◌≤◌, ◌≡◌, ◌≢◌, ◌∙◌, refl, ap, ap₂, true, false, List, [], ◌∷◌, ◌++◌, ltb, zero, suc, ◌&&◌,
  ◌==◌, take, drop, length, take_long, arith, if◌then◌else◌,
}
use hudp.LoopBuffer.{
  LoopBuffer, new_loop_buffer, read_bytes, write_bytes, read_clear, write_str, read_not_clear,
  clear, reset, get_free_length,
}
use hudp.LoopBuffer.Contents.{IsWf, contents, contents_empty, get_can_read_length-contents}
use hudp.LoopBuffer.Reading.{read_bytes-Reads}
use hudp.LoopBuffer.Writing.{write_bytes-Writes}
use hudp.LoopBuffer.Queue.{Op, read_op, peek_op, clear_op, write_op, Fits, AllFit}
use hudp.LoopBuffer.Queue

-- One call, and calls in their order, with the answers.
abbrev pub call : Op → LoopBuffer → (List ℕ × ℕ) × LoopBuffer
call (read_op len) b = let (res, n, c) = read_clear len b in ((res, n), c)
call (peek_op len) b = let (res, n, c) = read_not_clear len b in ((res, n), c)
call (clear_op len) b = let (n, c) = clear len b in (([], n), c)
call (write_op str) b = let (n, c) = write_str str (length str) b in (([], n), c)

abbrev pub calls : List Op → LoopBuffer → List (List ℕ × ℕ) × LoopBuffer
calls [] b = ([], b)
calls (op ∷ ops) b = let (out, c) = call op b in let (outs, d) = calls ops c in (out ∷ outs, d)

clear-read_bytes :
    (len : ℕ) (b : LoopBuffer)
    → len ≢ 0
    → let (n, c) = clear len b in (n ≡ (read_bytes len true b).1) × (c ≡ (read_bytes len true b).2)
unfolding clear read_bytes
clear-read_bytes len b h = ground (arith, h)

clear_all : (b : LoopBuffer) → clear 0 b ≡ (0, reset b)
unfolding clear
clear_all b = refl

size-read_bytes :
    (len : ℕ) (clear : _) (b : LoopBuffer) → (read_bytes len clear b).2.total_size ≡ b.total_size
unfolding read_bytes
size-read_bytes len clear b = ground arith

size-write_bytes :
    (str : List ℕ) (len : ℕ) (b : LoopBuffer)
    → (write_bytes str len true b).1.total_size ≡ b.total_size
unfolding write_bytes
size-write_bytes str len b = ground arith

-- A buffer that holds the bytes of a queue.
record Holds (total : ℕ) (q : List ℕ) (b : LoopBuffer) : Type 0 where
  whole : IsWf b
  bytes : contents b ≡ q
  size : b.total_size ≡ total

record Follows (total : ℕ) (op : Op) (q : List ℕ) (b : LoopBuffer) : Type 0 where
  answer : (call op b).0 ≡ (Queue.apply op q).0
  next : Holds total (Queue.apply op q).1 (call op b).1

read-Holds :
    {total : ℕ} (len : ℕ) {q : List ℕ} {b : LoopBuffer}
    → Holds total q b
    → ((read_bytes len true b).0 ≡ take len q)
      × ((read_bytes len true b).1 ≡ length (take len q))
      × Holds total (drop len q) (read_bytes len true b).2
read-Holds len {q} {b} h =
    let r = read_bytes-Reads len true b h.whole in
    let e = r.bytes ∙ ap (take len) h.bytes in
    (
      e,
      r.count ∙ ap length e,
      record {
        whole = r.whole;
        bytes = r.rest ∙ ap (drop len) h.bytes;
        size = size-read_bytes len true b ∙ h.size;
      },
    )

clear-Follows :
    {total : ℕ} (len : ℕ) {q : List ℕ} {b : LoopBuffer}
    → Holds total q b
    → Follows total (clear_op len) q b
clear-Follows zero {q} {b} h = record {
  answer = ap (λ r. ([], r.0)) (clear_all b);
  next = rw (clear_all b) (record {
    whole = (h.whole.0, omega arith, omega arith);
    bytes = contents_empty (reset b) (refl, refl);
    size = h.size;
  });
}
clear-Follows (suc n) {q} {b} h =
    let (same, left) = clear-read_bytes (suc n) b (λ e. absurd (omega (arith, e))) in
    let (e, count, k) = read-Holds (suc n) h in
    let some_bytes : suc n == 0 ≡ false = ground arith in
    record {
      answer = rw some_bytes (ap (λ m. ([], m)) (same ∙ count));
      next = rw (some_bytes, left) k;
    }

-- A write that fits goes behind what is held.
write-Holds :
    {total : ℕ} (str : List ℕ) {q : List ℕ} {b : LoopBuffer}
    → length q + length str ≤ total
    → Holds total q b
    → ((write_bytes str (length str) true b).0 ≡ length str)
      × Holds total (q ++ str) (write_bytes str (length str) true b).1
write-Holds {total} str {q} {b} f h =
    let len = length str in
    let w = write_bytes-Writes str b h.whole in
    let (can, both) = get_can_read_length-contents b h.whole in
    let room : len ≤ get_free_length b = omega (arith, can, both, ap length h.bytes, h.size, f) in
    let count = (write_bytes str len true b).0 in
    let n : count ≡ len = omega (arith, w.count, room) in
    let fits : ltb b.read b.write && ltb (get_free_length b) len ≡ false = ground (arith, room) in
    (
      n,
      record {
        whole = w.whole;
        bytes =
            w.held
            ∙ (ap (λ c. if c then take count str ++ contents b else contents b ++ take count str)
                  fits
                ∙ ap₂ ◌++◌ h.bytes (ap (λ k. take k str) n ∙ take_long len str (omega arith)));
        size = size-write_bytes str len b ∙ h.size;
      },
    )

call-Follows :
    {total : ℕ} (op : Op) {q : List ℕ} {b : LoopBuffer}
    → Fits total op q
    → Holds total q b
    → Follows total op q b
call-Follows (read_op len) f h =
    let (e, n, k) = read-Holds len h in record { answer = ap₂ (λ x y. (x, y)) e n; next = k }
call-Follows (peek_op len) {q} {b} f h =
    let r = read_bytes-Reads len false b h.whole in
    let e = r.bytes ∙ ap (take len) h.bytes in
    record {
      answer = ap₂ (λ x y. (x, y)) e (r.count ∙ ap length e);
      next = record {
        whole = r.whole;
        bytes = r.rest ∙ h.bytes;
        size = size-read_bytes len false b ∙ h.size;
      };
    }
call-Follows (clear_op len) f h = clear-Follows len h
call-Follows (write_op str) f h =
    let (n, k) = write-Holds str f h in record { answer = ap (λ m. ([], m)) n; next = k }

calls-Holds :
    {total : ℕ} (ops : List Op) {q : List ℕ} {b : LoopBuffer}
    → AllFit total ops q
    → Holds total q b
    → ((calls ops b).0 ≡ (Queue.run ops q).0) × Holds total (Queue.run ops q).1 (calls ops b).1
calls-Holds [] f h = (refl, h)
calls-Holds (op ∷ ops) f h =
    let step = call-Follows op f.0 h in
    let (outs, last) = calls-Holds ops f.1 step.next in (ap₂ ◌∷◌ step.answer outs, last)

-- For any calls of the operations on a new buffer, where each write finds the room it needs in the
-- block: the calls answer what a queue of bytes answers, the bytes that are read as well as their
-- numbers, and the buffer holds in the end what the queue holds.
pub calls-run :
    (ops : List Op) (memory : List ℕ)
    → AllFit (length memory) ops []
    → let (outs, b) = calls ops (new_loop_buffer (length memory) memory) in
      (outs, contents b) ≡ Queue.run ops []
calls-run ops memory f =
    let b = new_loop_buffer (length memory) memory in
    let start : Holds (length memory) [] b = record {
      whole = (refl, omega arith, omega arith);
      bytes = contents_empty b (refl, refl);
      size = refl;
    } in
    let (outs, last) = calls-Holds ops f start in ap₂ (λ x y. (x, y)) outs last.bytes
