-- ===== src/LoopBuffer/Searching.antt =====
-- The search of base/LoopBuffer.cpp finds the first place of a string.
use hudp.Common.{
  ℕ, zero, suc, ◌+◌, ◌-◌, ◌≤◌, ◌<◌, ◌≡◌, ◌∙◌, inl, inr, refl, sym, ap, subst, true, false, Option,
  none, some, List, [], ◌∷◌, ltb, ◌==◌, ltb→lt, ==_iff, Bool-cases, Option-cases, drop, drop-drop,
  length, arith,
}
use hudp.LoopBuffer.Find.{memchr, starts_with, find_loop, find_str_in_mem}

-- What a search for a string in `n` bytes promises: the answer is the first place where the string
-- stands, and where there is none, the string stands nowhere within the bytes.
abbrev pub Finds : List ℕ → List ℕ → ℕ → Option ℕ → Type 0
Finds s bytes n none = (j : ℕ) → j + length s ≤ n → starts_with s (drop j bytes) ≡ false
Finds s bytes n (some i) =
    (starts_with s (drop i bytes) ≡ true)
    × (i < n)
    × ((j : ℕ) → j < i → starts_with s (drop j bytes) ≡ false)

memchr-none :
    (c : ℕ) (cs bytes : List ℕ) (n j : ℕ)
    → memchr bytes c n ≡ none
    → j < n
    → starts_with (c ∷ cs) (drop j bytes) ≡ false
memchr-none c cs bytes zero j e h = absurd (omega arith)
memchr-none c cs [] (suc n) zero e h = refl
memchr-none c cs [] (suc n) (suc j) e h = refl
memchr-none c cs (x ∷ bytes) (suc n) zero e h = ground (arith, e)
memchr-none c cs (x ∷ bytes) (suc n) (suc j) e h =
    memchr-none c cs bytes n j (ground (arith, e)) (omega arith)

memchr-some :
    (c : ℕ) (cs bytes : List ℕ) (n i : ℕ)
    → memchr bytes c n ≡ some i
    → (i < n) × ((j : ℕ) → j < i → starts_with (c ∷ cs) (drop j bytes) ≡ false)
memchr-some c cs bytes zero i e = absurd (ground (arith, e))
memchr-some c cs [] (suc n) i e = absurd (ground (arith, e))
memchr-some c cs (x ∷ bytes) (suc n) zero e = (omega arith, λ j h. absurd (omega (arith, h)))
memchr-some c cs (x ∷ bytes) (suc n) (suc i) e =
    let (le, before) = memchr-some c cs bytes n i (ground (arith, e)) in
    (omega (arith, le), nowhere before)
  where
    nowhere :
        ((j : ℕ) → j < i → starts_with (c ∷ cs) (drop j bytes) ≡ false)
        → (j : ℕ) → j < suc i
        → starts_with (c ∷ cs) (drop j (x ∷ bytes)) ≡ false
    nowhere before zero h = ground (arith, e)
    nowhere before (suc j) h = before j (omega (arith, h))

-- The rest of a search, `at` bytes further on.
abbrev moved : ℕ → Option ℕ → Option ℕ
moved at none = none
moved at (some i) = some (at + i)

-- A search that goes on behind a place where the string does not stand.
further :
    (s bytes : List ℕ) (n i : ℕ) (r : Option ℕ)
    → i < n
    → ((j : ℕ) → j < i → starts_with s (drop j bytes) ≡ false)
    → starts_with s (drop i bytes) ≡ false
    → Finds s (drop (i + 1) bytes) (n - (i + 1)) r
    → Finds s bytes n (moved (i + 1) r)
further s bytes n i r h before here f = cases r f
  where
    go :
        (P : ℕ → Type 0)
        → ((j : ℕ) → P j → i < j → starts_with s (drop j bytes) ≡ false)
        → (j : ℕ) → P j
        → starts_with s (drop j bytes) ≡ false
    go P after j p = elim (Bool-cases (ltb j i)) [
      | inl e ↦ before j (ltb→lt j i e)
      | inr e ↦ elim (Bool-cases (j == i)) [
        | inl q ↦ rw ((==_iff j i).0 q) here
        | inr q ↦ after j p (ground (arith, e, q))
      ]
    ]

    behind :
        (j k : ℕ)
        → j ≡ i + 1 + k
        → starts_with s (drop k (drop (i + 1) bytes)) ≡ starts_with s (drop j bytes)
    behind j k e = ap (starts_with s) (drop-drop k (i + 1) bytes ∙ ap (λ m. drop m bytes) (sym e))

    cases :
        (r : Option ℕ)
        → Finds s (drop (i + 1) bytes) (n - (i + 1)) r
        → Finds s bytes n (moved (i + 1) r)
    cases none f =
        go (λ j. j + length s ≤ n)
          (λ j p l.
            sym (behind j (j - (i + 1)) (omega (arith, l))) ∙ f (j - (i + 1)) (omega (arith, p, l)))
    cases (some k) (found, le, least) = (
      sym (behind (i + 1 + k) k refl) ∙ found,
      omega (arith, le),
      go (λ j. j < i + 1 + k)
          (λ j p l.
            sym (behind j (j - (i + 1)) (omega (arith, l)))
            ∙ least (j - (i + 1)) (omega (arith, p, l))),
    )

find_loop-Finds :
    (fuel at buffer_len c : ℕ) (cs bytes : List ℕ)
    → at ≤ buffer_len
    → buffer_len - at < fuel
    → (r : Option ℕ) × (find_loop fuel at bytes buffer_len (c ∷ cs) ≡ moved at r)
      × Finds (c ∷ cs) bytes (buffer_len - at) r
unfolding find_loop
find_loop-Finds zero at buffer_len c cs bytes h f = absurd (omega arith)
find_loop-Finds (suc fuel) at buffer_len c cs bytes h f =
    let n = buffer_len - at in
    let s = c ∷ cs in
    elim (Option-cases (memchr bytes c n)) [
      | inl e ↦
          (none, rw (find_loop, e) refl, λ j l. memchr-none c cs bytes n j e (omega (arith, l)))
      | inr (i, e) ↦
          let (le, before) = memchr-some c cs bytes n i e in
          let finded = at + i + 1 in
          elim (Bool-cases (starts_with s (drop i bytes))) [
            | inl g ↦ (some i, rw (find_loop, e, g) refl, (g, le, before))
            | inr g ↦ elim (Bool-cases (ltb (buffer_len - finded) (length s))) [
              | inl k ↦ (
                none,
                rw (find_loop, e, g, k) refl,
                further s bytes n i none le before g
                    (λ j l. absurd (omega (arith, l, ltb→lt (buffer_len - finded) (length s) k))),
              )
              | inr k ↦
                  let (r, same, finds) =
                    find_loop-Finds fuel finded buffer_len c cs (drop (i + 1) bytes)
                      (omega (arith, le)) (omega (arith, f)) in
                  (
                    moved (i + 1) r,
                    rw (find_loop, e, g, k) (same ∙ moved_twice at i r),
                    further s bytes n i r le before g (
                        subst (λ m. Finds s (drop (i + 1) bytes) m r) {x = buffer_len - finded}
                          {y = n - (i + 1)} (omega arith) finds),
                  )
            ]
          ]
    ]
  where
    moved_twice : (at i : ℕ) (r : Option ℕ) → moved (at + i + 1) r ≡ moved at (moved (i + 1) r)
    moved_twice at i none = refl
    moved_twice at i (some k) = ap some (omega arith)

-- A search for a string of one byte or more ends for all memory contents with the first place where
-- the string stands, which is within the bytes that are searched though its end need not be; when it
-- answers that there is none, the string stands nowhere within those bytes.
pub find_str_in_mem-Finds :
    (c : ℕ) (cs bytes : List ℕ) (buffer_len : ℕ)
    → Finds (c ∷ cs) bytes buffer_len (find_str_in_mem bytes buffer_len (c ∷ cs))
unfolding find_str_in_mem
find_str_in_mem-Finds c cs bytes buffer_len =
    let (r, same, finds) =
      find_loop-Finds (suc buffer_len) 0 buffer_len c cs bytes (omega arith) (omega arith) in
    subst (Finds (c ∷ cs) bytes buffer_len) (sym (same ∙ moved_none r)) (
      subst (λ m. Finds (c ∷ cs) bytes m r) {x = buffer_len - 0} {y = buffer_len} (omega arith)
        finds)
  where
    moved_none : (r : Option ℕ) → moved 0 r ≡ r
    moved_none none = refl
    moved_none (some k) = ap some (omega arith)
