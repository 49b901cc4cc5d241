-- ===== src/BlockMemoryPool.antt =====
-- The pool of blocks of one size, base/BlockMemoryPool.cpp. An address is a number; the system's `malloc`
-- is a parameter that answers an address for those that are allocated already and a size.
mod Tests
pub mod Counts
pub mod Unused
use hudp.Common.{
  ℕ, zero, suc, ◌-◌, ◌/◌, Option, none, some, List, [], ◌∷◌, ◌++◌, leb, ◌==◌, length, is_empty,
  if◌then◌else◌,
}
use hudp.TaskQueue.{pop_back}

-- `heap` is what the system has allocated of the pool's memory and not freed yet.
pub record BlockMemoryPool : Type 0 where
  pub number_large_add_nodes : ℕ
  pub large_size : ℕ
  pub free_mem_vec : List ℕ
  pub heap : List ℕ

-- The constructor.
abbrev pub new_block_pool : ℕ → ℕ → BlockMemoryPool
new_block_pool large_sz add_num = record {
  number_large_add_nodes = add_num;
  large_size = large_sz;
  free_mem_vec = [];
  heap = [];
}

-- What is left without one `m`, as `free` of the system leaves it.
abbrev pub without : ℕ → List ℕ → List ℕ
without m [] = []
without m (a ∷ heap) = if a == m then heap else a ∷ without m heap

-- The end of `PoolLargeMalloc`; `none` where the source takes the last block of none.
unfoldable pub take_block : BlockMemoryPool → Option (ℕ × BlockMemoryPool)
take_block p = elim (pop_back p.free_mem_vec) [
  | none ↦ none
  | some (rest, ret) ↦ some (ret, record p { free_mem_vec = rest })
]

module _ (malloc : List ℕ → ℕ → ℕ) where
  -- The loop of `Expansion`.
  unfoldable pub expand : ℕ → BlockMemoryPool → BlockMemoryPool
  expand zero p = p
  expand (suc num) p =
      let mem = malloc p.heap p.large_size in
      expand num (record p { free_mem_vec = p.free_mem_vec ++ (mem ∷ []); heap = mem ∷ p.heap })

  unfoldable pub expansion : ℕ → BlockMemoryPool → BlockMemoryPool
  unfolding expand
  expansion num p = expand (if num == 0 then p.number_large_add_nodes else num) p

  unfoldable pub pool_large_malloc : BlockMemoryPool → Option (ℕ × BlockMemoryPool)
  unfolding expansion take_block
  pool_large_malloc p = take_block (if is_empty p.free_mem_vec then expansion 0 p else p)

unfoldable pub pool_large_free : ℕ → BlockMemoryPool → BlockMemoryPool
pool_large_free m p = record p { free_mem_vec = p.free_mem_vec ++ (m ∷ []) }

-- The loop of `ReleaseHalf`: what is left of the blocks, and what is allocated then.
unfoldable pub release : ℕ → ℕ → List ℕ → List ℕ → List ℕ × List ℕ
release hale size [] heap = ([], heap)
release hale size (mem ∷ iter) heap =
    let rest = release hale (size - 1) iter (without mem heap) in
    if leb (size - 1) hale then (iter, without mem heap) else rest

unfoldable pub release_half : BlockMemoryPool → BlockMemoryPool
unfolding release
release_half p =
    let size = length p.free_mem_vec in
    let (left, heap) = release (size / 2) size p.free_mem_vec p.heap in
    record p { free_mem_vec = left; heap = heap }
