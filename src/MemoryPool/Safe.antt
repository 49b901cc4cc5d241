-- ===== src/MemoryPool/Safe.antt =====
-- No two blocks that base/MemoryPool.cpp has given out share a byte.
use hudp.Common.{
  ℕ, zero, suc, ◌+◌, ◌-◌, ◌*◌, ◌≤◌, ◌<◌, ◌≡◌, ◌⊎◌, inl, inr, refl, ap, subst, false, List, [], ◌∷◌,
  ◌++◌, some, ltb, arith,
}
use hudp.MemoryPool.{
  MemoryPool, Block, new_pool, round_up, free_list_index, set_list, pool_malloc, pool_free,
}
use hudp.MemoryPool.Cover.{
  inside, cover, cover_list, cover_free, held, cover-append, cover_free-set_list,
}
use hudp.MemoryPool.Cut.{Refills, Grows, re_fill-Refills}

-- The sizes that the free lists serve.
abbrev pub IsSmall : ℕ → Type 0
IsSmall size = (1 ≤ size) × (size ≤ 256)

nodes_of : (l : List ℕ) → (l ≡ []) ⊎ ((a : ℕ) × (m : List ℕ) × (l ≡ a ∷ m))
nodes_of [] = inl refl
nodes_of (a ∷ m) = inr (a, m, refl)

-- The class of a size.
class :
    (size : ℕ)
    → IsSmall size
    → (free_list_index size < 32) × (round_up size ≡ 8 * (free_list_index size + 1))
class size h = (omega (arith, h), omega (arith, h))

cover_free-nothing : (x k : ℕ) → cover_free x k (λ i. []) + inside x 0 (0 - 0) ≡ 0
unfolding cover_free
cover_free-nothing x zero = ground arith
cover_free-nothing x (suc k) = omega (arith, cover_free-nothing x k)

module _ (malloc : List Block → ℕ → ℕ) where
  pool_malloc-Refills :
      (size : ℕ) (p : MemoryPool)
      → IsSmall size
      → (r : ℕ × MemoryPool) × (pool_malloc malloc size p ≡ some r)
        × Refills (round_up size) p r
        × Grows malloc p r.1
  unfolding pool_malloc
  pool_malloc-Refills size p h =
      let i = free_list_index size in
      let (below, whole) = class size h in
      let few : ltb 256 size ≡ false = ground (arith, h) in
      elim (nodes_of (p.free_list i)) [
        | inl e ↦
            let same : free_list_index (round_up size) ≡ i = omega (arith, h) in
            let (r, made, f, g) =
              re_fill-Refills malloc (round_up size) i 20 p below whole same e (omega arith) in
            (r, rw (pool_malloc, few, e, made) refl, f, g)
        | inr (a, m, e) ↦ (
          (a, record p { free_list = set_list i m p.free_list }),
          rw (pool_malloc, few, e) refl,
          record {
            account = λ x. omega (
              arith,
              cover_free-set_list x 32 i m p.free_list below,
              ap (cover_list x (8 * (i + 1))) e,
              ap (inside x a) whole,
            );
          },
          inl refl,
        )
      ]

  -- A pool after its constructor and some calls, with the blocks that are given out, each with its
  -- rounded size. A block is given back with a length of its own class. In between the rest of the
  -- program may get memory of the system.
  pub data Reached : MemoryPool → List Block → Type 0 where
    made : (heap : List Block) → ((x : ℕ) → cover x heap ≤ 1) → Reached (new_pool heap) []
    given :
        {p q : MemoryPool} {used : List Block} (size a : ℕ)
        → IsSmall size
        → pool_malloc malloc size p ≡ some (a, q)
        → Reached p used
        → Reached q ((a, round_up size) ∷ used)
    freed :
        {p : MemoryPool} (u v : List Block) (len m : ℕ)
        → IsSmall len
        → Reached p (u ++ ((m, round_up len) ∷ v))
        → Reached (pool_free m len p) (u ++ v)
    elsewhere :
        {p : MemoryPool} {used : List Block} (n : ℕ)
        → Reached p used
        → Reached (record p { heap = (malloc p.heap n, n) ∷ p.heap }) used

  Reached-account :
      {p : MemoryPool} {used : List Block} (x : ℕ)
      → Reached p used
      → cover x used + held x p ≤ cover x p.heap
  unfolding pool_free
  Reached-account x (made heap h) = omega (arith, cover_free-nothing x 32)
  Reached-account x (given {p} {q} size a s e r) =
      let (r', e', f, g) = pool_malloc-Refills size p s in
      let same : r' ≡ (a, q) = ground (arith, e, e') in
      omega (arith, Reached-account x r, (subst (Refills (round_up size) p) same f).account x)
  Reached-account x (freed {p} u v len m s r) =
      let i = free_list_index len in
      let few : ltb 256 len ≡ false = ground (arith, s) in
      let (below, whole) = class len s in
      rw few (
        omega (
          arith,
          Reached-account x r,
          cover-append x u ((m, round_up len) ∷ v),
          cover-append x u v,
          cover_free-set_list x 32 i (m ∷ p.free_list i) p.free_list below,
          ap (inside x m) whole,
        ))
  Reached-account x (elsewhere n r) = omega (arith, Reached-account x r)

  module _
      (fresh : (heap : List Block) (n x : ℕ)
        → inside x (malloc heap n) n ≡ 1
        → cover x heap ≡ 0) where
    grown : (x : ℕ) (p q : MemoryPool) → Grows malloc p q → cover x p.heap ≤ 1 → cover x q.heap ≤ 1
    grown x p q (inl e) h = omega (arith, ap (cover x) e, h)
    grown x p q (inr (n, e)) h = ground (arith, ap (cover x) e, h, fresh p.heap n x)

    Reached-heap :
        {p : MemoryPool} {used : List Block} (x : ℕ) → Reached p used → cover x p.heap ≤ 1
    unfolding pool_free
    Reached-heap x (made heap h) = h x
    Reached-heap x (given {p} {q} size a s e r) =
        let (r', e', f, g) = pool_malloc-Refills size p s in
        let same : r' ≡ (a, q) = ground (arith, e, e') in
        grown x p q (subst (λ (t : ℕ × MemoryPool). Grows malloc p t.1) same g) (Reached-heap x r)
    Reached-heap x (freed {p} u v len m s r) =
        let few : ltb 256 len ≡ false = ground (arith, s) in rw few (Reached-heap x r)
    Reached-heap x (elsewhere {p} n r) =
        grown x p (record p { heap = (malloc p.heap n, n) ∷ p.heap }) (inr (n, refl))
          (Reached-heap x r)

    -- As long as the system never hands out a byte that is allocated already, and every block is
    -- given back once and with a length of its own class: asking the pool for 1 to 256 bytes always
    -- gives a block, of the number of bytes that was asked for or more, and no byte is at once in two
    -- blocks that are given out, or in such a block and in what the pool holds to give out later.
    pub pool_malloc-disjoint :
        {p : MemoryPool} {used : List Block} (size : ℕ)
        → IsSmall size
        → Reached p used
        → (a : ℕ) × (q : MemoryPool) × (pool_malloc malloc size p ≡ some (a, q))
          × (size ≤ round_up size)
          × ((x : ℕ) → cover x ((a, round_up size) ∷ used) + held x q ≤ 1)
    pool_malloc-disjoint {p} size s r =
        let ((a, q), e, f, g) = pool_malloc-Refills size p s in
        let next = given size a s e r in
        (a, q, e, omega (arith, s), λ x. omega (arith, Reached-account x next, Reached-heap x next))
