-- ===== src/BlockMemoryPool/Tests.antt =====
-- The pool of base/BlockMemoryPool.cpp at a concrete run.
use hudp.Common.{ℕ, suc, ◌+◌, ◌<◌, ◌≡◌, refl, List, [], ◌∷◌, some, arith}
use hudp.TaskQueue.{pop_back}
use hudp.BlockMemoryPool.{
  BlockMemoryPool, expand, expansion, take_block, pool_large_malloc, release, release_half,
}
use hudp.BlockMemoryPool.Counts.{times, Kept}
use hudp.BlockMemoryPool.Unused.{Reached, made, given, pool_large_malloc-unused}

-- A system that answers an address behind all others.
abbrev total : List ℕ → ℕ
total [] = 0
total (a ∷ heap) = a + total heap

abbrev malloc : List ℕ → ℕ → ℕ
malloc heap n = suc (total heap)

behind : (x : ℕ) (heap : List ℕ) → total heap < x → times x heap ≡ 0
behind x [] l = refl
behind x (a ∷ heap) l = ground (arith, l, behind x heap (omega (arith, l)))

malloc-fresh : (heap : List ℕ) (n : ℕ) → times (malloc heap n) heap ≡ 0
malloc-fresh heap n = behind (malloc heap n) heap (omega arith)

-- Two blocks are allocated at once, and the second is handed out.
abbrev one_out : BlockMemoryPool
one_out = record {
  number_large_add_nodes = 2;
  large_size = 64;
  free_mem_vec = 1 ∷ [];
  heap = 2 ∷ 1 ∷ [];
}

one_out-Reached : Reached malloc malloc-fresh one_out (2 ∷ [])
unfolding pool_large_malloc expansion expand take_block pop_back
one_out-Reached = given 2 refl (made 64 2 (omega arith))

pool_large_malloc-unused_example :
    ((m : ℕ) × (q : BlockMemoryPool) × (pool_large_malloc malloc one_out ≡ some (m, q))
      × (times m (2 ∷ []) ≡ 0))
    × Kept one_out (2 ∷ [])
pool_large_malloc-unused_example = pool_large_malloc-unused malloc malloc-fresh one_out-Reached

-- Of three free blocks the last one is kept.
abbrev three_free : BlockMemoryPool
three_free = record {
  number_large_add_nodes = 2;
  large_size = 64;
  free_mem_vec = 1 ∷ 2 ∷ 4 ∷ [];
  heap = 4 ∷ 2 ∷ 1 ∷ [];
}

half_released : release_half three_free ≡ record three_free { free_mem_vec = 4 ∷ []; heap = 4 ∷ [] }
unfolding release_half release
half_released = refl
