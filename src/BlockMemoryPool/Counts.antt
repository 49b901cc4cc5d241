-- ===== src/BlockMemoryPool/Counts.antt =====
-- The blocks of base/BlockMemoryPool.cpp counted: those that are free, in use and allocated.
use hudp.Common.{
  ℕ, ◌+◌, ◌-◌, ◌≤◌, ◌<◌, ◌≡◌, ◌⊎◌, inl, inr, refl, ap, subst, Bool-cases, true, false, List, [],
  ◌∷◌, ◌++◌, leb, ◌==◌, length, is_empty, if◌then◌else◌, arith,
}
use hudp.BlockMemoryPool.{BlockMemoryPool, without, release}

abbrev pub is : ℕ → ℕ → ℕ
is x a = if x == a then 1 else 0

-- How often an address stands in a list.
abbrev pub times : ℕ → List ℕ → ℕ
times a [] = 0
times a (b ∷ blocks) = is b a + times a blocks

-- A block that is put at the end.
pub times-append :
    (a m : ℕ) (blocks : List ℕ) → times a (blocks ++ (m ∷ [])) ≡ times a blocks + is m a
times-append a m [] = omega arith
times-append a m (b ∷ blocks) = omega (arith, times-append a m blocks)

pub times-without :
    (a m : ℕ) (xs : List ℕ) → 0 < times m xs → is m a + times a (without m xs) ≡ times a xs
times-without a m [] some_m = omega (arith, some_m)
times-without a m (x ∷ xs) some_m = elim (Bool-cases (x == m)) [
  | inl e ↦ rw e (let same : x ≡ m = ground (arith, e) in rw same refl)
  | inr e ↦
      let in_rest : 0 < times m xs = ground (arith, some_m, e) in
      rw e (omega (arith, times-without a m xs in_rest))
]

-- The blocks that are free and those that are in use are what is allocated, each of them once.
abbrev pub Kept : BlockMemoryPool → List ℕ → Type 0
Kept p out =
    (a : ℕ) → (times a p.free_mem_vec + times a out ≡ times a p.heap) × (times a p.heap ≤ 1)

pub release-Kept :
    (hale size : ℕ) (free heap out : List ℕ)
    → ((a : ℕ) → (times a free + times a out ≡ times a heap) × (times a heap ≤ 1))
    → let (left, heap') = release hale size free heap in
      (a : ℕ) → (times a left + times a out ≡ times a heap') × (times a heap' ≤ 1)
unfolding release
release-Kept hale size [] heap out h = h
release-Kept hale size (mem ∷ iter) heap out h =
    let here : 0 < times mem heap =
      let e : (mem == mem) ≡ true = ground arith in
      let (all, once) = h mem in
      omega (
        arith,
        subst (λ b. (if b then 1 else 0) + times mem iter + times mem out ≡ times mem heap) e all,
      ) in
    let less : (a : ℕ)
        → (times a iter + times a out ≡ times a (without mem heap))
          × (times a (without mem heap) ≤ 1) =
      λ a.
        let (all, once) = h a in
        let w = times-without a mem heap here in (omega (arith, w, all), omega (arith, w, once)) in
    elim (Bool-cases (leb (size - 1) hale)) [
      | inl e ↦ rw e less
      | inr e ↦ rw e (release-Kept hale (size - 1) iter (without mem heap) out less)
    ]

-- A list is empty or has a last item.
pub last_of : (xs : List ℕ) → (xs ≡ []) ⊎ ((rest : List ℕ) × (b : ℕ) × (xs ≡ rest ++ (b ∷ [])))
last_of [] = inl refl
last_of (x ∷ xs) = elim (last_of xs) [
  | inl e ↦ inr ([], x, ap (λ l. x ∷ l) e)
  | inr (rest, b, e) ↦ inr (x ∷ rest, b, ap (λ l. x ∷ l) e)
]

pub nonempty : (xs : List ℕ) → is_empty xs ≡ false → 0 < length xs
nonempty [] e = absurd (ground (arith, e))
nonempty (x ∷ xs) e = omega arith
