-- ===== src/FlowSlicing/Pieces.antt =====
-- The slices that filter/FlowSlicingFilter.cpp cuts a body into.
use hudp.Common.{
  ℕ, zero, suc, ◌+◌, ◌*◌, ◌≤◌, ◌<◌, ◌≡◌, refl, ap, ◌∙◌, Bool, true, false, some, List, [], ◌∷◌,
  ◌++◌, map, arith, length, drop, u16, ltb, leb, take-append-drop, length-drop, append-nil,
  Bool-cases, inl, inr,
}
use hudp.BitStream.{to_bytes, of_bytes}
use hudp.BitStream.Reader.{of_bytes-to_bytes}
use hudp.FlowSlicing.{
  SliceHead, SliceBag, slice_bag_to_string, string_to_slice_bag, slice_data, slice_limit,
  send_slices, sort_bags, insert_bag, join,
}

-- The slice of a number that starts with the rest of a body.
abbrev pub slice : ℕ → ℕ → ℕ → List ℕ → SliceBag
slice count flag i rest = record {
  head = record { count = u16 count; index = u16 i; flag = flag };
  body = slice_data rest;
}

-- The slices of the rest of a body, by number.
abbrev pub slices : ℕ → ℕ → ℕ → ℕ → List ℕ → List SliceBag
slices count flag zero i rest = []
slices count flag (suc n) i rest =
    slice count flag i rest ∷ slices count flag n (i + 1) (drop slice_limit rest)

-- The words of a head fit in 16 bits.
abbrev pub IsWords : SliceHead → Type 0
IsWords h = (h.count < 65536) × (h.index < 65536) × (h.flag < 65536)

-- A slice is parsed as it was written.
pub string_to_slice_bag-slice_bag_to_string :
    (bag : SliceBag) → IsWords bag.head → string_to_slice_bag (slice_bag_to_string bag) ≡ some bag
unfolding string_to_slice_bag slice_bag_to_string to_bytes of_bytes
string_to_slice_bag-slice_bag_to_string bag (count, index, flag) =
    let c : of_bytes (to_bytes 2 bag.head.count) ≡ bag.head.count =
      of_bytes-to_bytes 2 bag.head.count (omega arith) in
    let i : of_bytes (to_bytes 2 bag.head.index) ≡ bag.head.index =
      of_bytes-to_bytes 2 bag.head.index (omega arith) in
    let f : of_bytes (to_bytes 2 bag.head.flag) ≡ bag.head.flag =
      of_bytes-to_bytes 2 bag.head.flag (omega arith) in
    ground (arith, c, i, f)

-- Where the next filter takes every slice, the loop sends all slices and succeeds.
pub send_slices-lem :
    (next : List ℕ → Bool) (count flag n i : ℕ) (rest : List ℕ)
    → ((s : List ℕ) → next s ≡ false)
    → send_slices next count flag n i rest
      ≡ (map slice_bag_to_string (slices count flag n i rest), true)
unfolding send_slices
send_slices-lem next count flag zero i rest ok = refl
send_slices-lem next count flag (suc n) i rest ok =
    rw (ok _, send_slices-lem next count flag n (i + 1) (drop slice_limit rest) ok) refl

drop_short : (n : ℕ) (xs : List ℕ) → length xs ≤ n → drop n xs ≡ []
drop_short zero [] h = refl
drop_short zero (x ∷ xs) h = absurd (omega arith)
drop_short (suc n) [] h = refl
drop_short (suc n) (x ∷ xs) h = drop_short n xs (omega arith)

slice_data-append : (rest : List ℕ) → slice_data rest ++ drop 394 rest ≡ rest
slice_data-append rest = elim (Bool-cases (ltb (length rest) 394)) [
  | inl e ↦ rw (e, drop_short 394 rest (ground (arith, e))) (append-nil rest)
  | inr e ↦ rw e (take-append-drop 394 rest)
]

rising : (i : ℕ) → i + 2 ≤ 65536 → leb (u16 i) (u16 (i + 1)) ≡ true
rising i h = ground arith

-- The slices together are the body.
pub join-slices :
    (count flag n i : ℕ) (rest : List ℕ)
    → length rest ≤ n * 394
    → join (slices count flag n i rest) ≡ rest
join-slices count flag zero i [] h = refl
join-slices count flag zero i (x ∷ rest) h = absurd (omega arith)
join-slices count flag (suc n) i rest h =
    ap (λ l. slice_data rest ++ l)
      (join-slices count flag n (i + 1) (drop 394 rest) (omega (arith, length-drop 394 rest)))
    ∙ slice_data-append rest

-- Slices in order stay where they are when they are sorted.
pub sort_bags-slices :
    (count flag n i : ℕ) (rest : List ℕ)
    → i + n ≤ 65536
    → sort_bags (slices count flag n i rest) ≡ slices count flag n i rest
unfolding sort_bags insert_bag
sort_bags-slices count flag zero i rest h = refl
sort_bags-slices count flag (suc zero) i rest h = refl
sort_bags-slices count flag (suc (suc n)) i rest h =
    rw (sort_bags-slices count flag (suc n) (i + 1) (drop slice_limit rest) (omega arith))
      (rw (rising i (omega arith)) refl)
