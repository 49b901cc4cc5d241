-- ===== src/FlowSlicing/Reassembly.antt =====
-- Slices put together again, filter/FlowSlicingFilter.cpp at both ends.
use hudp.Common.{
  ℕ, zero, suc, ◌+◌, ◌*◌, subst, ◌≤◌, ◌<◌, ◌≡◌, refl, ap, sym, ◌∙◌, Bool, true, false, Option, none,
  some, List, [], ◌∷◌, ◌++◌, map, arith, length, drop, u16, ◌==◌, length-append, append_assoc, ap₂,
  or_make, drop-drop,
}
use hudp.FlowSlicing.{
  SliceBag, SliceMap, bags_of, erase, store_bags, slice_limit, slice_num, slice_bag_to_string,
  sort_bags, join, filter_process, send_slices, add_bag, relieve_filter_process,
  string_to_slice_bag,
}
use mathlib.Core.List.{Perm, Permᴰ}
use mathlib.Core.Logic.{∥∥₁_elim}
use hudp.FlowSlicing.Shuffled.{AllOf, AllOf-over, AllOf-perm, length-perm, IsKeyed, sort_bags-perm}
use hudp.FlowSlicing.Pieces.{
  slice, slices, string_to_slice_bag-slice_bag_to_string, send_slices-lem, join-slices,
  sort_bags-slices,
}

abbrev handed_on : Option (List ℕ) → List (List ℕ)
handed_on none = []
handed_on (some body) = body ∷ []

-- The map after some slices, and the bodies that were handed on.
unfoldable pub relieve_each : List (List ℕ) → SliceMap → Option (SliceMap × List (List ℕ))
relieve_each [] m = some (m, [])
relieve_each (s ∷ ss) m = elim (relieve_filter_process s m) [
  | none ↦ none
  | some r ↦ elim (relieve_each ss r.0) [ none ↦ none | some q ↦ some (q.0, handed_on r.1 ++ q.1) ]
]

-- The same on parsed slices.
add_each : List SliceBag → SliceMap → SliceMap × List (List ℕ)
add_each [] m = (m, [])
add_each (bag ∷ bags) m =
    let r = add_bag bag m in let q = add_each bags r.0 in (q.0, handed_on r.1 ++ q.1)

-- The slice in the bytes, or an empty one where there is none.
abbrev bag_of : List ℕ → SliceBag
bag_of s =
    or_make (string_to_slice_bag s)
      (record { head = record { count = 0; index = 0; flag = 0 }; body = [] })

-- The bytes of one of the slices of a body.
record IsPiece (count flag : ℕ) (at : ℕ → SliceBag) (s : List ℕ) : Type 0 where
  parsed : string_to_slice_bag s ≡ some (bag_of s)
  of_count : (bag_of s).head.count ≡ count
  of_flag : (bag_of s).head.flag ≡ flag
  keyed : IsKeyed bag_of at s

relieve-parsed :
    (s : List ℕ) (bag : SliceBag) (m : SliceMap)
    → string_to_slice_bag s ≡ some bag
    → relieve_filter_process s m ≡ some (add_bag bag m)
unfolding relieve_filter_process
relieve-parsed s bag m e = rw (relieve_filter_process, e) refl

relieve_each-add_each :
    (count flag : ℕ) (at : ℕ → SliceBag) (ss : List (List ℕ)) (m : SliceMap)
    → AllOf (IsPiece count flag at) ss
    → relieve_each ss m ≡ some (add_each (map bag_of ss) m)
unfolding relieve_each add_each
relieve_each-add_each count flag at [] m h = refl
relieve_each-add_each count flag at (s ∷ ss) m (h, t) =
    let rest = relieve_each-add_each count flag at ss (add_bag (bag_of s) m).0 t in
    rw (relieve_each, relieve-parsed s (bag_of s) m h.parsed, rest) refl

store_bags-lem :
    (flag : ℕ) (bags : List SliceBag) (m : SliceMap)
    → (bags_of flag (store_bags flag bags m) ≡ bags)
      × (erase flag (store_bags flag bags m) ≡ erase flag m)
store_bags-lem flag bags m = (ground arith, ground arith)

-- Only the last of the slices makes the filter put them together.
add_each-pieces :
    (count flag : ℕ) (at : ℕ → SliceBag) (s : List ℕ) (ss : List (List ℕ)) (acc : List SliceBag)
    (m : SliceMap)
    → AllOf (IsPiece count flag at) (s ∷ ss)
    → count ≡ length acc + suc (length ss)
    → count < 65536
    → bags_of flag m ≡ acc
    → add_each (map bag_of (s ∷ ss)) m
      ≡ (erase flag m, join (sort_bags (acc ++ map bag_of (s ∷ ss))) ∷ [])
unfolding add_each add_bag
add_each-pieces count flag at s [] acc m (h, t) all word e =
    let b = bag_of s in
    let test : (b.head.count == u16 (length (acc ++ (b ∷ [])))) ≡ true =
      ground (arith, h.of_count, all, word, length-append acc (b ∷ [])) in
    rw (h.of_flag, e, test) refl
add_each-pieces count flag at s (s' ∷ ss) acc m (h, t) all word e =
    let b = bag_of s in
    let test : (b.head.count == u16 (length (acc ++ (b ∷ [])))) ≡ false =
      ground (arith, h.of_count, all, word, length-append acc (b ∷ [])) in
    let stored = store_bags-lem flag (acc ++ (b ∷ [])) m in
    rw (h.of_flag, e, test)
      (add_each-pieces count flag at s' ss (acc ++ (b ∷ [])) (store_bags flag (acc ++ (b ∷ [])) m) t
          (omega (arith, all, length-append acc (b ∷ []))) word stored.0
        ∙ rw (stored.1, append_assoc acc (b ∷ []) (map bag_of (s' ∷ ss))) refl)

-- The slices of a body are its pieces.
slices-pieces :
    (count flag n i : ℕ) (body rest : List ℕ)
    → flag < 65536
    → i + n ≤ 65536
    → rest ≡ drop (i * 394) body
    → let at : ℕ → SliceBag = λ j. slice count flag j (drop (j * 394) body) in
      let bags = slices count flag n i rest in
      AllOf (IsPiece (u16 count) flag at) (map slice_bag_to_string bags)
      × (map bag_of (map slice_bag_to_string bags) ≡ bags)
slices-pieces count flag zero i body rest small h e = (tt, refl)
slices-pieces count flag (suc n) i body rest small h e =
    let at : ℕ → SliceBag = λ j. slice count flag j (drop (j * 394) body) in
    let b = slice count flag i rest in
    let s = slice_bag_to_string b in
    let parsed = string_to_slice_bag-slice_bag_to_string b (omega arith, omega arith, small) in
    let this : bag_of s ≡ b =
      ap (λ o. or_make o (record { head = record { count = 0; index = 0; flag = 0 }; body = [] }))
        parsed in
    let next : drop 394 rest ≡ drop ((i + 1) * 394) body =
      ap (drop 394) e
      ∙ (drop-drop 394 (i * 394) body
          ∙ ap (λ k. drop k body) {x = i * 394 + 394} {y = (i + 1) * 394} (omega arith)) in
    let (pieces, same) =
      slices-pieces count flag n (i + 1) body (drop 394 rest) small (omega (arith, h)) next in
    let key : b ≡ at (u16 i) =
      ap (slice count flag i) e ∙ ap at {x = i} {y = u16 i} (omega (arith, h)) in
    (
      (
        record {
          parsed = parsed ∙ ap some (sym this);
          of_count = ap (λ (c : SliceBag). c.head.count) this;
          of_flag = ap (λ (c : SliceBag). c.head.flag) this;
          keyed = this ∙ (key ∙ ap (λ (c : SliceBag). at c.head.index) (sym this));
        },
        pieces,
      ),
      ap₂ ◌∷◌ this same,
    )

put_together :
    (count flag : ℕ) (at : ℕ → SliceBag) (sent : List (List ℕ)) (body : List ℕ) (m : SliceMap)
    → count ≡ length sent
    → 1 ≤ count
    → count < 65536
    → bags_of flag m ≡ []
    → AllOf (IsPiece count flag at) sent
    → join (sort_bags (map bag_of sent)) ≡ body
    → (arrived : List (List ℕ)) → Permᴰ sent arrived
    → relieve_each arrived m ≡ some (erase flag m, body ∷ [])
put_together count flag at sent body m all one word fresh pieces joined arrived d =
    let h = AllOf-perm (IsPiece count flag at) d pieces in
    let sorted = sort_bags-perm bag_of at d (AllOf-over (λ s p. p.keyed) sent pieces) in
    relieve_each-add_each count flag at arrived m h
    ∙ ap some (
        whole arrived h (all ∙ length-perm d)
        ∙ ap (λ b. (erase flag m, b ∷ [])) (ap join (sym sorted) ∙ joined))
  where
    whole :
        (arrived : List (List ℕ))
        → AllOf (IsPiece count flag at) arrived
        → count ≡ length arrived
        → add_each (map bag_of arrived) m
          ≡ (erase flag m, join (sort_bags (map bag_of arrived)) ∷ [])
    whole [] h all = absurd (omega (arith, one, all))
    whole (s ∷ ss) h all = add_each-pieces count flag at s ss [] m h (omega (arith, all)) word fresh

length-slices :
    (count flag n i : ℕ) (rest : List ℕ)
    → length (map slice_bag_to_string (slices count flag n i rest)) ≡ n
length-slices count flag zero i rest = refl
length-slices count flag (suc n) i rest =
    ap suc (length-slices count flag n (i + 1) (drop slice_limit rest))

reassemble :
    (next : List ℕ → Bool) (body : List ℕ) (flag n : ℕ) (m : SliceMap)
    → ((s : List ℕ) → next s ≡ false)
    → length body ≤ n * 394
    → 1 ≤ n
    → n < 65536
    → flag < 65536
    → bags_of flag m ≡ []
    → let r = send_slices next n flag n 0 body in
      (r.1 ≡ true)
      × ((arrived : List (List ℕ))
          → Permᴰ r.0 arrived
          → relieve_each arrived m ≡ some (erase flag m, body ∷ []))
reassemble next body flag n m ok fits one word small fresh =
    let at : ℕ → SliceBag = λ j. slice n flag j (drop (j * 394) body) in
    let bags = slices n flag n 0 body in
    let (pieces, same) =
      slices-pieces n flag n 0 body body small (omega (arith, word))
        (ap (λ k. drop k body) {x = 0} {y = 0 * 394} (omega arith)) in
    let narrow : u16 n ≡ n = omega (arith, word) in
    let joined =
      ap (λ l. join (sort_bags l)) same
      ∙ (ap join (sort_bags-slices n flag n 0 body (omega (arith, word)))
          ∙ join-slices n flag n 0 body fits) in
    rw (send_slices-lem next n flag n 0 body ok) (
      refl,
      λ arrived d.
          put_together n flag at (map slice_bag_to_string bags) body m
            (sym (length-slices n flag n 0 body)) one word fresh
            (subst (λ c. AllOf (IsPiece c flag at) (map slice_bag_to_string bags)) narrow pieces)
            joined arrived d,
    )

-- A body of 1 to 65535 times 394 bytes, cut into slices that the next filter all takes, is
-- successfully sent, and when the slices arrive, each once and in whatever order, at a filter that
-- keeps no slices under that flag, it hands on exactly that body, once, and keeps nothing of it.
pub relieve_each-filter_process :
    (next : List ℕ → Bool) (body : List ℕ) (cur_flag : ℕ) (m : SliceMap) (arrived : List (List ℕ))
    → ((s : List ℕ) → next s ≡ false)
    → 0 < length body
    → length body ≤ 65535 * 394
    → bags_of (u16 (cur_flag + 1)) m ≡ []
    → Perm (filter_process next body cur_flag).1 arrived
    → let (flag, sent, done) = filter_process next body cur_flag in
      (done ≡ true) × (relieve_each arrived m ≡ some (erase flag m, body ∷ []))
unfolding filter_process
relieve_each-filter_process next body cur_flag m arrived ok some_body small fresh p =
    let flag = u16 (cur_flag + 1) in
    let n = slice_num (length body) in
    let (done, any) =
      reassemble next body flag n m ok (ground arith) (ground arith) (ground arith) (omega arith)
        fresh in
    (done, ∥∥₁_elim p (hlevel) (any arrived))
