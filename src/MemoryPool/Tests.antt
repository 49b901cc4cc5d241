-- ===== src/MemoryPool/Tests.antt =====
-- The pool of base/MemoryPool.cpp over a system that allocates one block after another.
use hudp.Common.{ℕ, ◌+◌, ◌≤◌, ◌≡◌, refl, [], ◌∷◌, List, some, arith, or_make, max}
use hudp.MemoryPool.{MemoryPool, Block, new_pool, pool_malloc, pool_free, round_up}
use hudp.MemoryPool.Cover.{inside, cover, held}
use hudp.MemoryPool.Safe.{made, given, freed, pool_malloc-disjoint}

-- Where the blocks end, and a new one starts.
abbrev top : List Block → ℕ
top [] = 4096
top ((a, n) ∷ heap) = max (a + n) (top heap)

abbrev malloc : List Block → ℕ → ℕ
malloc heap n = top heap

above : (heap : List Block) (x : ℕ) → top heap ≤ x → cover x heap ≡ 0
above [] x h = refl
above ((a, n) ∷ heap) x h = ground (arith, h, above heap x (omega (arith, h)))

fresh : (heap : List Block) (n x : ℕ) → inside x (malloc heap n) n ≡ 1 → cover x heap ≡ 0
fresh heap n x e = above heap x (ground (arith, e))

methods : Unit {0}
unfolding pool_malloc pool_free
methods = tt

-- Two blocks of up to 16 bytes, the first of which is given back.
abbrev first : MemoryPool
first = (or_make (pool_malloc malloc 12 (new_pool [])) (0, new_pool [])).1

abbrev second : MemoryPool
second = (or_make (pool_malloc malloc 16 first) (0, first)).1

abbrev third : MemoryPool
third = pool_free 4096 12 second

-- The block that was given back is given out again.
reused : (or_make (pool_malloc malloc 9 third) (0, third)).0 ≡ 4096
unfolding methods
reused = refl

pool_malloc-disjoint_example :
    (a : ℕ) × (q : MemoryPool) × (pool_malloc malloc 9 third ≡ some (a, q))
    × (9 ≤ round_up 9)
    × ((x : ℕ) → cover x ((a, round_up 9) ∷ (4112, 16) ∷ []) + held x q ≤ 1)
unfolding methods
pool_malloc-disjoint_example =
    pool_malloc-disjoint malloc fresh 9 (omega arith, omega arith)
      (freed ((4112, 16) ∷ []) [] 12 4096 (omega arith, omega arith)
        (given 16 4112 (omega arith, omega arith) refl
          (given 12 4096 (omega arith, omega arith) refl (made [] (λ x. omega arith)))))
