-- ===== src/BlockMemoryPool/Unused.antt =====
-- What the pool of base/BlockMemoryPool.cpp hands out is not in use.
use hudp.Common.{
  ℕ, zero, suc, ◌+◌, ◌/◌, ◌≤◌, ◌<◌, ◌≡◌, ◌∙◌, inl, inr, refl, ap, subst, Bool-cases, some, List, [],
  ◌∷◌, ◌++◌, ◌==◌, length, length-append, is_empty, if◌then◌else◌, arith,
}
use hudp.TaskQueue.{pop_back}
use hudp.TaskQueue.LastFirst.{pop_back-append}
use hudp.BlockMemoryPool.{
  BlockMemoryPool, new_block_pool, without, expand, expansion, take_block, pool_large_malloc,
  pool_large_free, release_half,
}
use hudp.BlockMemoryPool.Counts.{
  is, times, times-append, times-without, Kept, release-Kept, last_of, nonempty,
}

module _ (malloc : List ℕ → ℕ → ℕ)
    (fresh : (heap : List ℕ) (n : ℕ) → times (malloc heap n) heap ≡ 0) where
  once_more : (a n : ℕ) (heap : List ℕ) → times a heap ≤ 1 → times a (malloc heap n ∷ heap) ≤ 1
  once_more a n heap once = elim (Bool-cases (malloc heap n == a)) [
    | inl e ↦
        let same : malloc heap n ≡ a = ground (arith, e) in
        let none_yet : times a heap ≡ 0 = subst (λ x. times x heap ≡ 0) same (fresh heap n) in
        rw e (omega (arith, none_yet))
    | inr e ↦ rw e (omega (arith, once))
  ]

  expand-Kept :
      (num : ℕ) (p : BlockMemoryPool) (out : List ℕ) → Kept p out → Kept (expand malloc num p) out
  unfolding expand
  expand-Kept zero p out h = h
  expand-Kept (suc num) p out h =
      let mem = malloc p.heap p.large_size in
      let q : BlockMemoryPool = record p {
        free_mem_vec = p.free_mem_vec ++ (mem ∷ []);
        heap = mem ∷ p.heap;
      } in
      expand-Kept num q out λ a.
        let (all, once) = h a in
        (
          omega (arith, times-append a mem p.free_mem_vec, all),
          once_more a p.large_size p.heap once,
        )

  length-expand :
      (num : ℕ) (p : BlockMemoryPool)
      → length (expand malloc num p).free_mem_vec ≡ num + length p.free_mem_vec
  unfolding expand
  length-expand zero p = omega arith
  length-expand (suc num) p =
      let mem = malloc p.heap p.large_size in
      length-expand num
        (record p { free_mem_vec = p.free_mem_vec ++ (mem ∷ []); heap = mem ∷ p.heap })
      ∙ omega (arith, length-append p.free_mem_vec (mem ∷ []))

  expand-adds :
      (num : ℕ) (p : BlockMemoryPool)
      → (expand malloc num p).number_large_add_nodes ≡ p.number_large_add_nodes
  unfolding expand
  expand-adds zero p = refl
  expand-adds (suc num) p =
      let mem = malloc p.heap p.large_size in
      expand-adds num
        (record p { free_mem_vec = p.free_mem_vec ++ (mem ∷ []); heap = mem ∷ p.heap })

  take_block-Kept :
      (p : BlockMemoryPool) (out : List ℕ)
      → Kept p out
      → 0 < length p.free_mem_vec
      → (m : ℕ) × (q : BlockMemoryPool) × (take_block p ≡ some (m, q))
        × Kept q (m ∷ out)
        × (times m out ≡ 0)
        × (q.number_large_add_nodes ≡ p.number_large_add_nodes)
  unfolding take_block
  take_block-Kept p out h any = elim (last_of p.free_mem_vec) [
    | inl e ↦ absurd (omega (arith, any, ap length e))
    | inr (rest, m, e) ↦
        let split : (a : ℕ) → times a p.free_mem_vec ≡ times a rest + is m a =
          λ a. ap (times a) e ∙ omega (arith, times-append a m rest) in
        let back : pop_back p.free_mem_vec ≡ some (rest, m) =
          ap pop_back e ∙ pop_back-append rest m in
        (
          m,
          record p { free_mem_vec = rest },
          rw (back, take_block) refl,
          (λ a. let (all, once) = h a in (omega (arith, all, split a), once)),
          (let (all, once) = h m in
              let self : is m m ≡ 1 = ground arith in omega (arith, all, once, split m, self)),
          refl,
        )
  ]

  abbrev pub Answers : BlockMemoryPool → List ℕ → Type 0
  Answers p out =
      (m : ℕ) × (q : BlockMemoryPool) × (pool_large_malloc malloc p ≡ some (m, q))
      × Kept q (m ∷ out)
      × (times m out ≡ 0)
      × (q.number_large_add_nodes ≡ p.number_large_add_nodes)

  pool_large_malloc-Answers :
      (p : BlockMemoryPool) (out : List ℕ)
      → 0 < p.number_large_add_nodes
      → Kept p out
      → Answers p out
  unfolding pool_large_malloc expansion
  pool_large_malloc-Answers p out adds h = elim (Bool-cases (is_empty p.free_mem_vec)) [
    | inl e ↦
        let filled = expand malloc p.number_large_add_nodes p in
        let (m, q, taken, kept, new, same) =
          take_block-Kept filled out (expand-Kept p.number_large_add_nodes p out h)
            (omega (arith, adds, length-expand p.number_large_add_nodes p)) in
        (m, q, rw e taken, kept, new, same ∙ expand-adds p.number_large_add_nodes p)
    | inr e ↦
        let (m, q, taken, kept, new, same) = take_block-Kept p out h (nonempty p.free_mem_vec e) in
        (m, q, rw e taken, kept, new, same)
  ]

  -- The pool, and the blocks that are in use, after some calls.
  pub data Reached : BlockMemoryPool → List ℕ → Type 0 where
    made : (large_sz add_num : ℕ) → 0 < add_num → Reached (new_block_pool large_sz add_num) []
    given :
        {p q : BlockMemoryPool} {out : List ℕ} (m : ℕ)
        → pool_large_malloc malloc p ≡ some (m, q)
        → Reached p out
        → Reached q (m ∷ out)
    freed :
        {p : BlockMemoryPool} {out : List ℕ} (m : ℕ)
        → 0 < times m out
        → Reached p out
        → Reached (pool_large_free m p) (without m out)
    expanded :
        {p : BlockMemoryPool} {out : List ℕ} (num : ℕ)
        → Reached p out
        → Reached (expansion malloc num p) out
    halved : {p : BlockMemoryPool} {out : List ℕ} → Reached p out → Reached (release_half p) out

  Reached-Kept :
      {p : BlockMemoryPool} {out : List ℕ}
      → Reached p out
      → (0 < p.number_large_add_nodes) × Kept p out
  unfolding pool_large_free expansion release_half
  Reached-Kept (made large_sz add_num adds) = (adds, λ a. (omega arith, omega arith))
  Reached-Kept (given {p} {q} {out} m e r) =
      let (adds, h) = Reached-Kept r in
      let (m', q', e', kept, new, same) = pool_large_malloc-Answers p out adds h in
      let answer : ◌≡◌ {A = ℕ × BlockMemoryPool} (m', q') (m, q) = ground (arith, e, e') in
      subst (λ a. (0 < a.1.number_large_add_nodes) × Kept a.1 (a.0 ∷ out)) answer
        (omega (arith, adds, same), kept)
  Reached-Kept (freed {p} {out} m used r) =
      let (adds, h) = Reached-Kept r in
      (
        adds,
        λ a.
            let (all, once) = h a in
            (omega (arith, all, times-append a m p.free_mem_vec, times-without a m out used), once),
      )
  Reached-Kept (expanded {p} {out} num r) =
      let (adds, h) = Reached-Kept r in
      let n = if num == 0 then p.number_large_add_nodes else num in
      (omega (arith, adds, expand-adds n p), expand-Kept n p out h)
  Reached-Kept (halved {p} {out} r) =
      let (adds, h) = Reached-Kept r in
      let size = length p.free_mem_vec in
      (adds, release-Kept (size / 2) size p.free_mem_vec p.heap out h)

  -- Of a pool that was made to add at least one block at a time, as long as the system never answers an
  -- address that it has already given and not got back, and every block that is given back was in use:
  -- whatever calls came before, `PoolLargeMalloc` gives a block, and it is none of those in use; and what
  -- is free and what is in use is what the system has allocated, each block once.
  pub pool_large_malloc-unused :
      {p : BlockMemoryPool} {out : List ℕ}
      → Reached p out
      → ((m : ℕ) × (q : BlockMemoryPool) × (pool_large_malloc malloc p ≡ some (m, q))
          × (times m out ≡ 0))
        × Kept p out
  pool_large_malloc-unused {p} {out} r =
      let (adds, h) = Reached-Kept r in
      let (m, q, e, kept, new, same) = pool_large_malloc-Answers p out adds h in ((m, q, e, new), h)
