-- ===== src/LoopBuffer/Queue.antt =====
-- A bounded queue of bytes, the contract of the circular buffer of base/LoopBuffer.h.
use hudp.Common.{ℕ, ◌+◌, ◌≤◌, List, [], ◌∷◌, ◌++◌, if◌then◌else◌, ◌==◌, take, drop, length}

-- Calls of `Read`, `ReadNotClear`, `Clear` and `Write`.
pub data Op : Type 0 where
  read_op peek_op clear_op : ℕ → Op
  write_op : List ℕ → Op

-- What one call answers, the bytes and their number, and what is left. To clear no bytes is to clear
-- all, and answers 0.
abbrev pub apply : Op → List ℕ → (List ℕ × ℕ) × List ℕ
apply (read_op len) q = ((take len q, length (take len q)), drop len q)
apply (peek_op len) q = ((take len q, length (take len q)), q)
apply (clear_op len) q = if len == 0 then (([], 0), []) else (([], length (take len q)), drop len q)
apply (write_op str) q = (([], length str), q ++ str)

abbrev pub run : List Op → List ℕ → List (List ℕ × ℕ) × List ℕ
run [] q = ([], q)
run (op ∷ ops) q = let (out, r) = apply op q in let (outs, t) = run ops r in (out ∷ outs, t)

-- A write finds the room that it needs in a block of a size.
abbrev pub Fits : ℕ → Op → List ℕ → Type 0
Fits total (write_op str) q = length q + length str ≤ total
Fits total (read_op len) q = Unit
Fits total (peek_op len) q = Unit
Fits total (clear_op len) q = Unit

abbrev pub AllFit : ℕ → List Op → List ℕ → Type 0
AllFit total [] q = Unit
AllFit total (op ∷ ops) q = Fits total op q × AllFit total ops (apply op q).1
