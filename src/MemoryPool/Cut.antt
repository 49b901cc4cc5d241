-- ===== src/MemoryPool/Cut.antt =====
-- What cutting blocks from the chunk of base/MemoryPool.cpp does to the memory of the pool.
use hudp.Common.{
  ℕ, suc, ◌+◌, ◌-◌, ◌*◌, ◌/◌, ◌≤◌, ◌<◌, ◌≡◌, ◌∙◌, inl, inr, refl, sym, ap, subst, true, List, [],
  ◌∷◌, none, some, ltb, leb, ◌==◌, Bool-cases, leb→le, ==_iff, ◌⊎◌, arith,
}
use native.Mathlib.Nat.{mul-div-le, le-div_iff_mul-le, one-mul, mul-one}
use native.Mathlib.Numerals.{unary_clauses}
use hudp.MemoryPool.{
  MemoryPool, Block, cut, new_chunk, chunk_alloc, re_fill, set_list, nodes, free_list_index,
}
use hudp.MemoryPool.Cover.{
  inside, cover, cover_list, cover_free, held, inside_split, cover_free-set_list, cover_list-nodes,
}

-- `n` blocks of a size are cut from the front of the chunk.
record Cuts (size : ℕ) (p : MemoryPool) (r : ℕ × ℕ × MemoryPool) : Type 0 where
  front : r.0 ≡ p.pool_start
  rest : r.2 ≡ record p { pool_start = p.pool_start + size * r.1 }
  within : size * r.1 ≤ p.pool_end - p.pool_start
  one : 1 ≤ r.1

cut-Cuts :
    (size nums : ℕ) (p : MemoryPool)
    → 1 ≤ size
    → 1 ≤ nums
    → (cut size nums p ≡ none)
      ⊎ ((r : ℕ × ℕ × MemoryPool) × (cut size nums p ≡ some r) × Cuts size p r)
unfolding cut
cut-Cuts size nums p s n =
    let left = p.pool_end - p.pool_start in
    let k = left / size in
    elim (Bool-cases (leb (size * nums) left)) [
      | inl f ↦ inr (
        (p.pool_start, nums, record p { pool_start = p.pool_start + size * nums }),
        rw f refl,
        record { front = refl; rest = refl; within = leb→le (size * nums) left f; one = n },
      )
      | inr f ↦ elim (Bool-cases (leb size left)) [
        | inl g ↦ inr (
          (p.pool_start, k, record p { pool_start = p.pool_start + size * k }),
          rw (f, g) refl,
          record {
            front = refl;
            rest = refl;
            within = mul-div-le left size;
            one =
                (le-div_iff_mul-le s).1
                  (subst (λ m. m ≤ left) (sym (one-mul size)) (leb→le size left g));
          },
        )
        | inr g ↦ inl (rw (f, g) refl)
      ]
    ]

-- A chunk that has room for all of the blocks.
cut_all :
    (size nums : ℕ) (p : MemoryPool)
    → size * nums ≤ p.pool_end - p.pool_start
    → cut size nums p
      ≡ some (p.pool_start, nums, record p { pool_start = p.pool_start + size * nums })
unfolding cut
cut_all size nums p h =
    let f : leb (size * nums) (p.pool_end - p.pool_start) ≡ true = ground (arith, h) in rw f refl

-- The part that is cut off and the rest make up the chunk.
held-cut :
    (x n : ℕ) (p : MemoryPool)
    → n ≤ p.pool_end - p.pool_start
    → inside x p.pool_start n + held x (record p { pool_start = p.pool_start + n }) ≡ held x p
held-cut x n p h =
    let rest = p.pool_end - (p.pool_start + n) in
    omega (
      arith,
      inside_split x p.pool_start n rest,
      ap (inside x p.pool_start) {x = n + rest} {y = p.pool_end - p.pool_start} (omega (arith, h)),
    )

-- What `ReFill` does: no byte that it gives out, or keeps, is counted more often than before, but
-- for the memory that it has got from the system.
pub record Refills (size : ℕ) (p : MemoryPool) (r : ℕ × MemoryPool) : Type 0 where
  pub account :
      (x : ℕ) → (inside x r.0 size + held x r.1) + cover x p.heap ≤ held x p + cover x (r.1).heap

-- The blocks behind the first one are chained up in the list of their size.
chain :
    (x size i chunk k : ℕ) (f : ℕ → List ℕ)
    → i < 32
    → size ≡ 8 * (i + 1)
    → inside x chunk size
        + cover_free x 32 (set_list i (nodes (chunk + size) size k) f)
        + cover_list x size (f i)
      ≡ inside x chunk (size * suc k) + cover_free x 32 f
chain x size i chunk k f b s =
    let l = nodes (chunk + size) size k in
    omega (
      arith,
      cover_free-set_list x 32 i l f b,
      ap (λ m. cover_list x m (f i)) s,
      ap (λ m. cover_list x m l) s,
      cover_list-nodes x (chunk + size) size k,
      inside_split x chunk size (size * k),
      ap (inside x chunk) {x = size + size * k} {y = size * suc k}
          (simp unary_clauses (omega arith)),
    )

-- The first block is given out, and the others go to their list.
refilled :
    (size i chunk n : ℕ) (p q : MemoryPool)
    → i < 32
    → size ≡ 8 * (i + 1)
    → 1 ≤ n
    → ((x : ℕ)
        → (inside x chunk (size * n) + held x q) + cover x p.heap
          ≤ held x p + cover x q.heap + cover_list x size (q.free_list i))
    → Refills size p
        (chunk, record q { free_list = set_list i (nodes (chunk + size) size (n - 1)) q.free_list })
refilled size i chunk n p q b s h a = record {
  account = λ x. omega (
    arith,
    a x,
    chain x size i chunk (n - 1) q.free_list b s,
    ap (λ m. inside x chunk (size * m)) {x = suc (n - 1)} {y = n} (omega (arith, h)),
  );
}

module _ (malloc : List Block → ℕ → ℕ) where
  -- The memory that the system has allocated is what it was, or one block more.
  abbrev pub Grows : MemoryPool → MemoryPool → Type 0
  Grows p q = (q.heap ≡ p.heap) ⊎ ((n : ℕ) × (q.heap ≡ (malloc p.heap n, n) ∷ p.heap))

  -- A new chunk adds the memory that the system has given.
  new_chunk-account :
      (x size i num : ℕ) (p : MemoryPool)
      → i < 32
      → size ≡ 8 * (i + 1)
      → free_list_index size ≡ i
      → p.free_list i ≡ []
      → let q = new_chunk malloc size num p in
        held x q + cover x p.heap ≤ held x p + cover x q.heap + cover_list x size (q.free_list i)
  unfolding new_chunk
  new_chunk-account x size i num p b s e f =
      let left = p.pool_end - p.pool_start in
      let start = malloc p.heap (size * num) in
      let stuff = p.pool_start ∷ p.free_list (free_list_index left) in
      let whole =
        ap (inside x start) {x = start + size * num - start} {y = size * num} (omega arith) in
      let c = cover_free-set_list x 32 i stuff p.free_list b in
      let at : set_list i stuff p.free_list i ≡ stuff = ground arith in
      elim (Bool-cases (ltb 0 left)) [
        | inl h ↦
            rw (e, h)
              (omega (
                arith,
                c,
                whole,
                ap (cover_list x (8 * (i + 1))) f,
                ap (λ m. cover_list x m stuff) s,
                ap (cover_list x size) at,
              ))
        | inr h ↦ rw h (omega (arith, whole))
      ]

  new_chunk-room :
      (size num : ℕ) (p : MemoryPool)
      → let q = new_chunk malloc size num p in size * num ≤ q.pool_end - q.pool_start
  unfolding new_chunk
  new_chunk-room size num p = omega arith

  -- `ChunkAlloc` always comes to an end with one block or more.
  chunk_alloc-account :
      (size i num : ℕ) (p : MemoryPool)
      → i < 32
      → size ≡ 8 * (i + 1)
      → free_list_index size ≡ i
      → p.free_list i ≡ []
      → 2 ≤ num
      → (a : ℕ) × (n : ℕ) × (q : MemoryPool) × (chunk_alloc malloc size num p ≡ some (a, n, q))
        × (1 ≤ n)
        × (n ≡ 1 → q.free_list i ≡ [])
        × ((x : ℕ)
            → (inside x a (size * n) + held x q) + cover x p.heap
              ≤ held x p + cover x q.heap + cover_list x size (q.free_list i))
        × Grows p q
  unfolding chunk_alloc new_chunk
  chunk_alloc-account size i num p b s e f h =
      elim (cut-Cuts size num p (omega (arith, s)) (omega (arith, h))) [
        | inr ((a, n, q), cutting, c) ↦ (
          a,
          n,
          q,
          rw (chunk_alloc, cutting) refl,
          c.one,
          λ one. ap (λ (m : MemoryPool). m.free_list i) c.rest ∙ f,
          λ x. omega (
            arith,
            held-cut x (size * n) p c.within,
            ap (held x) c.rest,
            ap (λ m. inside x m (size * n)) c.front,
            ap (λ (m : MemoryPool). cover x m.heap) c.rest,
          ),
          inl (ap (λ (m : MemoryPool). m.heap) c.rest),
        )
        | inl nothing ↦
            let m = new_chunk malloc size num p in
            let room = new_chunk-room size num p in
            let q : MemoryPool = record m { pool_start = m.pool_start + size * num } in
            (
              m.pool_start,
              num,
              q,
              rw (chunk_alloc, nothing, cut_all size num m room) refl,
              omega (arith, h),
              λ one. absurd (omega (arith, one, h)),
              λ x.
                  omega (
                    arith,
                    held-cut x (size * num) m room,
                    new_chunk-account x size i num p b s e f,
                  ),
              inr (size * num, refl),
            )
      ]

  pub re_fill-Refills :
      (size i num : ℕ) (p : MemoryPool)
      → i < 32
      → size ≡ 8 * (i + 1)
      → free_list_index size ≡ i
      → p.free_list i ≡ []
      → 2 ≤ num
      → (r : ℕ × MemoryPool) × (re_fill malloc size num p ≡ some r) × Refills size p r × Grows p r.1
  unfolding re_fill
  re_fill-Refills size i num p b s e f h =
      let (a, n, q, made, one, empty, account, grows) =
        chunk_alloc-account size i num p b s e f h in
      elim (Bool-cases (n == 1)) [
        | inl g ↦
            let only = (==_iff n 1).0 g in
            (
              (a, q),
              rw (re_fill, made, g) refl,
              record {
                account = λ x. omega (
                  arith,
                  account x,
                  ap (λ m. inside x a m) {x = size * n} {y = size}
                      (ap (λ m. size * m) only ∙ mul-one size),
                  ap (cover_list x size) (empty only),
                );
              },
              grows,
            )
        | inr g ↦ (
          (a, record q { free_list = set_list i (nodes (a + size) size (n - 1)) (q.free_list) }),
          rw (re_fill, made, g, e) refl,
          refilled size i a n p q b s one account,
          grows,
        )
      ]
