-- ===== src/MemoryPool/Cover.antt =====
-- How many times a byte of the memory is given out, free, or part of the chunk of base/MemoryPool.cpp.
use hudp.Common.{
  ℕ, zero, suc, ◌+◌, ◌-◌, ◌*◌, ◌≤◌, ◌<◌, ◌≡◌, ◌≢◌, sym, ◌∙◌, inl, inr, refl, false, ◌&&◌, List, [],
  ◌∷◌, ◌++◌, if◌then◌else◌, ltb, leb, ◌==◌, ==_iff, Bool-cases, arith, ap, ap₂,
}
use native.Mathlib.Numerals.{unary_clauses}
use hudp.MemoryPool.{Block, MemoryPool, set_list, nodes}

-- One for a byte of a block, and nothing for another one.
abbrev pub inside : ℕ → ℕ → ℕ → ℕ
inside x a n = if leb a x && ltb x (a + n) then 1 else 0

-- The blocks that a byte belongs to.
abbrev pub cover : ℕ → List Block → ℕ
cover x [] = 0
cover x ((a, n) ∷ blocks) = inside x a n + cover x blocks

-- The same for the blocks of one size.
abbrev pub cover_list : ℕ → ℕ → List ℕ → ℕ
cover_list x n [] = 0
cover_list x n (a ∷ l) = inside x a n + cover_list x n l

-- The same for the first free lists.
unfoldable pub cover_free : ℕ → ℕ → (ℕ → List ℕ) → ℕ
cover_free x zero f = 0
cover_free x (suc k) f = cover_free x k f + cover_list x (8 * (k + 1)) (f k)

-- The same for all that the pool holds, and with the blocks that it has given out.
abbrev pub held : ℕ → MemoryPool → ℕ
held x p = cover_free x 32 p.free_list + inside x p.pool_start (p.pool_end - p.pool_start)

pub cover-append : (x : ℕ) (u v : List Block) → cover x (u ++ v) ≡ cover x u + cover x v
cover-append x [] v = omega arith
cover-append x ((a, n) ∷ u) v = omega (arith, cover-append x u v)

-- A block in two parts.
pub inside_split : (x a n m : ℕ) → inside x a (n + m) ≡ inside x a n + inside x (a + n) m
inside_split x a n m = ground arith

cover_free-above :
    (x k i : ℕ) (l : List ℕ) (f : ℕ → List ℕ)
    → k ≤ i
    → cover_free x k (set_list i l f) ≡ cover_free x k f
unfolding cover_free
cover_free-above x zero i l f h = refl
cover_free-above x (suc k) i l f h =
    let no : (k == i) ≡ false = ground (arith, h) in
    ap₂ ◌+◌ (cover_free-above x k i l f (omega (arith, h)))
      (ap (λ b. cover_list x (8 * (k + 1)) (if b then l else f k)) no)

-- What is put in place of a free list goes to the account, and what stood there leaves it.
pub cover_free-set_list :
    (x k i : ℕ) (l : List ℕ) (f : ℕ → List ℕ)
    → i < k
    → cover_free x k (set_list i l f) + cover_list x (8 * (i + 1)) (f i)
      ≡ cover_free x k f + cover_list x (8 * (i + 1)) l
unfolding cover_free
cover_free-set_list x zero i l f h = absurd (omega (arith, h))
cover_free-set_list x (suc k) i l f h = elim (Bool-cases (k == i)) [
  | inl e ↦
      let q = (==_iff k i).0 e in
      omega (
        arith,
        cover_free-above x k i l f (omega (arith, q)),
        ap (λ b. cover_list x (8 * (k + 1)) (if b then l else f k)) e,
        ap (λ j. cover_list x (8 * (j + 1)) (f j)) q,
        ap (λ j. cover_list x (8 * (j + 1)) l) q,
      )
  | inr e ↦
      let ne : k ≢ i = λ q. absurd (ground (arith, e, q)) in
      omega (
        arith,
        cover_free-set_list x k i l f (omega (arith, h, ne)),
        ap (λ b. cover_list x (8 * (k + 1)) (if b then l else f k)) e,
      )
]

-- The blocks of a chain are one block.
pub cover_list-nodes :
    (x at size k : ℕ) → cover_list x size (nodes at size k) ≡ inside x at (size * k)
cover_list-nodes x at size zero = simp unary_clauses ground arith
cover_list-nodes x at size (suc k) =
    ap (λ c. inside x at size + c) (cover_list-nodes x (at + size) size k)
    ∙ (sym (inside_split x at size (size * k))
        ∙ ap (inside x at) {x = size + size * k} {y = size * suc k}
            (simp unary_clauses (omega arith)))
