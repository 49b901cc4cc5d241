-- ===== src/MemoryPool.antt =====
-- The pool of base/MemoryPool.h and base/MemoryPool.cpp: lists of free blocks of 8, 16, … 256 bytes,
-- and a chunk of memory that new blocks are cut from. An address is a number; a free list is the
-- list of the addresses that its nodes lead through. `malloc` is the system's, which the pool is not
-- done without: it answers an address for the blocks that are allocated already and a size.
mod Tests
pub mod Cover
pub mod Cut
pub mod Safe
use hudp.Common.{
  ℕ, zero, suc, ◌+◌, ◌-◌, ◌*◌, ◌/◌, List, [], ◌∷◌, Option, none, some, if◌then◌else◌, ltb, leb,
  ◌==◌,
}

-- `RoundUp` and `FreeListIndex`, of a size of one byte or more.
abbrev pub round_up : ℕ → ℕ
round_up size = (size + 7) / 8 * 8

abbrev pub free_list_index : ℕ → ℕ
free_list_index size = (size + 7) / 8 - 1

abbrev pub max_bytes : ℕ
max_bytes = 256

abbrev pub number_add_nodes : ℕ
number_add_nodes = 20

-- An address and a number of bytes.
abbrev pub Block : Type 0
Block = ℕ × ℕ

-- `heap` is what the system has allocated so far, `malloc_vec` what the pool has to give back.
pub record MemoryPool : Type 0 where
  pub free_list : ℕ → List ℕ
  pub pool_start : ℕ
  pub pool_end : ℕ
  pub malloc_vec : List ℕ
  pub heap : List Block

-- The constructor; the null pointers are 0.
abbrev pub new_pool : List Block → MemoryPool
new_pool heap = record {
  free_list = λ i. [];
  pool_start = 0;
  pool_end = 0;
  malloc_vec = [];
  heap = heap;
}

-- `_free_list[i] = list`.
abbrev pub set_list : ℕ → List ℕ → (ℕ → List ℕ) → ℕ → List ℕ
set_list i list f j = if j == i then list else f j

-- The addresses that `ReFill` chains up, from one on.
abbrev pub nodes : ℕ → ℕ → ℕ → List ℕ
nodes at size zero = []
nodes at size (suc k) = at ∷ nodes (at + size) size k

-- The first two branches of `ChunkAlloc`: the chunk is large enough for `nums` blocks or for one.
unfoldable pub cut : ℕ → ℕ → MemoryPool → Option (ℕ × ℕ × MemoryPool)
cut size nums p =
    let left_bytes = p.pool_end - p.pool_start in
    let some_nums = left_bytes / size in
    if leb (size * nums) left_bytes
    then some (p.pool_start, nums, record p { pool_start = p.pool_start + size * nums })
    else if leb size left_bytes
    then some (p.pool_start, some_nums, record p { pool_start = p.pool_start + size * some_nums })
    else none

module _ (malloc : List Block → ℕ → ℕ) where
  -- The last part of `ChunkAlloc`, up to the call of itself. What is left of the chunk is linked
  -- before the blocks of its own size, but in the list of the size that is asked for.
  unfoldable pub new_chunk : ℕ → ℕ → MemoryPool → MemoryPool
  new_chunk size nums p =
      let left_bytes = p.pool_end - p.pool_start in
      let bytes_to_get = size * nums in
      let start = malloc p.heap bytes_to_get in
      record {
        free_list =
            if ltb 0 left_bytes
            then set_list (free_list_index size)
                (p.pool_start ∷ p.free_list (free_list_index left_bytes)) p.free_list
            else p.free_list;
        pool_start = start;
        pool_end = start + bytes_to_get;
        malloc_vec = start ∷ p.malloc_vec;
        heap = (start, bytes_to_get) ∷ p.heap;
      }

  -- `ChunkAlloc`: the address, the number of blocks, and the pool; `none` for a second call of
  -- itself from within.
  unfoldable pub chunk_alloc : ℕ → ℕ → MemoryPool → Option (ℕ × ℕ × MemoryPool)
  unfolding cut new_chunk
  chunk_alloc size nums p = elim (cut size nums p) [
    | some r ↦ some r
    | none ↦ cut size nums (new_chunk size nums p)
  ]

  -- `ReFill`.
  unfoldable pub re_fill : ℕ → ℕ → MemoryPool → Option (ℕ × MemoryPool)
  unfolding chunk_alloc
  re_fill size num p = elim (chunk_alloc size num p) [
    | none ↦ none
    | some (chunk, nums, q) ↦
        if nums == 1
        then some (chunk, q)
        else some (
          chunk,
          record q {
            free_list =
                set_list (free_list_index size) (nodes (chunk + size) size (nums - 1))
                  (q.free_list);
          },
        )
  ]

  -- `PoolMalloc`, and the memory of `PoolNew`: the address of the block, and the pool.
  unfoldable pub pool_malloc : ℕ → MemoryPool → Option (ℕ × MemoryPool)
  unfolding re_fill
  pool_malloc size p =
      if ltb max_bytes size
      then some (malloc p.heap size, record p { heap = (malloc p.heap size, size) ∷ p.heap })
      else elim (p.free_list (free_list_index size)) [
        | [] ↦ re_fill (round_up size) number_add_nodes p
        | result ∷ next ↦
            some (result, record p { free_list = set_list (free_list_index size) next p.free_list })
      ]

-- `free` of the system, on the blocks that it has allocated.
abbrev pub release : ℕ → List Block → List Block
release m [] = []
release m ((a, n) ∷ heap) = if a == m then heap else (a, n) ∷ release m heap

-- `PoolFree`, and the memory of `PoolDelete`, on a pointer that is not null.
unfoldable pub pool_free : ℕ → ℕ → MemoryPool → MemoryPool
pool_free m len p =
    let i = free_list_index len in
    if ltb max_bytes len
    then record p { heap = release m p.heap }
    else record p { free_list = set_list i (m ∷ p.free_list i) p.free_list }
